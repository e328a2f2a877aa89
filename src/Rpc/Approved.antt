-- ===== src/Rpc/Approved.antt =====
-- An approval is good for one result of the endpoint.
use m_gate.Prelude.{
  Bool-cases, Dict, Option, String, ap, arith, false, inl, inr, lookup, none, or_default, refl,
  some, subst, sym, true, ◌∙◌, ◌≡◌, string_eq, nat_eq, pair_eq,
}
use m_gate.Authorization.{Catalogs, get_tool}
use m_gate.Catalog.{CatalogTool, Metadata}
use m_gate.PendingActions.{
  Actions, ConsumeOutcome, already_consumed, consume_approved_action, consume_expired, consume_ok,
}
use m_gate.PendingActions.Once.{consume_twice}
use m_gate.Rpc.{Exit, Request, Response, Surroundings, ToolCallParams, World}
use m_gate.Rpc.Delivery.{result-IsServed}
use m_gate.Rpc.Dispatch.{dispatch}
use m_gate.Rpc.Exits.{is_result}
use m_gate.Rpc.Gate.{>>>-Keeps, Gate, Keeps}
use m_gate.Rpc.Guards.{consumption_of}
use m_gate.Rpc.ToolsCall.{bill, deliver, execute_downstream, run, try_cache_lookup}
use m_gate.Settings.{Settings}
use m_gate.Tenant.Store.{TenantDoc}

module _ {E : Type 0} (settings : Settings) (x : Surroundings E) (request : Request) where
  module _ (params : ToolCallParams) where
    -- A call that was let through changes nothing but the ledger and what lies outside.
    module _ (P : Actions → Catalogs → Dict String TenantDoc → Type 0) where
      abbrev Kept : World E → Type 0
      Kept w = P w.actions w.catalogs w.plane.tenants

      cache-Kept :
          (metadata : Metadata) → Keeps Kept (try_cache_lookup settings x request params metadata)
      unfolding try_cache_lookup bill
      cache-Kept metadata w p = ground arith

      execute-Kept : Keeps Kept (execute_downstream settings x request params)
      unfolding execute_downstream
      execute-Kept w p = p

      deliver-Kept :
          (metadata : Metadata) (payload : String)
          → Keeps Kept (deliver settings x request params metadata payload)
      unfolding deliver bill
      deliver-Kept metadata payload w p = p

      pub run-Kept : (metadata : Metadata) → Keeps Kept (run settings x request params metadata)
      unfolding run
      run-Kept metadata =
          >>>-Keeps Kept (try_cache_lookup settings x request params metadata) _
            (cache-Kept metadata)
            λ _.
              >>>-Keeps Kept (execute_downstream settings x request params) _ execute-Kept
                (deliver-Kept metadata)

-- The confirmation that a call presents; a missing one is empty.
abbrev pub confirmation_of : Option ToolCallParams → String
confirmation_of none = ""
confirmation_of (some params) = or_default params.confirmation_id ""

-- The tool that the request names, if the catalog has it, asks for a confirmation.
abbrev pub IsGated : Settings → Catalogs → Request → Type 0
IsGated settings catalogs request =
    (params : ToolCallParams) (tool : CatalogTool)
    → request.params ≡ some params
    → get_tool settings catalogs (some request.tenant_id) params.server params.name ≡ some tool
    → tool.metadata.requires_confirmation ≡ true

module _ {E : Type 0} (settings : Settings) (x : Surroundings E)
    (handlers : String → Option (Gate (World E) Exit Response)) where
  -- What a result took from the store of actions.
  record IsConfirmed (request : Request) (w : World E) : Type 0 where
    params : ToolCallParams
    given : request.params ≡ some params
    consumed_ok : (consumption_of settings x request params w.actions).0.0 ≡ consume_ok
    actions :
        (dispatch settings x request handlers w).1.actions
        ≡ (consumption_of settings x request params w.actions).1
    catalogs : (dispatch settings x request handlers w).1.catalogs ≡ w.catalogs
    tenants : (dispatch settings x request handlers w).1.plane.tenants ≡ w.plane.tenants

  result-IsConfirmed :
      (request : Request) (w : World E) (doc : TenantDoc)
      → request.method ≡ "tools/call"
      → lookup request.tenant_id w.plane.tenants ≡ some doc
      → IsGated settings w.catalogs request
      → is_result (dispatch settings x request handlers w).0 ≡ true
      → IsConfirmed request w
  result-IsConfirmed request w doc call found gated h =
      let s = result-IsServed settings x request handlers w doc call found h in
      let a = s.admission.authorization in
      let required : s.metadata.requires_confirmation ≡ true =
        ap (λ m. m.requires_confirmation) a.described ∙ gated s.params a.tool s.given a.found in
      let (good, taken) = s.admission.confirmation required in
      let frame =
        run-Kept settings x request s.params
          (λ a c d. (a ≡ s.after.actions) × (c ≡ s.after.catalogs) × (d ≡ s.after.plane.tenants))
          s.metadata s.after (refl, refl, refl) in
      record {
        params = s.params;
        given = s.given;
        consumed_ok = good;
        actions = ap (λ r. r.1.actions) s.ran ∙ frame.0 ∙ taken;
        catalogs = ap (λ r. r.1.catalogs) s.ran ∙ frame.1 ∙ s.catalogs_kept;
        tenants = ap (λ r. r.1.plane.tenants) s.ran ∙ frame.2 ∙ s.tenants_kept;
      }

  module _ (r s : Request) (same_tenant : s.tenant_id ≡ r.tenant_id)
      (same_confirmation : confirmation_of s.params ≡ confirmation_of r.params) where
    -- The second of the two consumptions fails.
    spent :
        (w v : World E) (p : IsConfirmed r w)
        → v.actions ≡ (consumption_of settings x r p.params w.actions).1
        → IsConfirmed s v
        → ⊥
    spent w v p left q =
        elim (consume_twice x.sha256 w.actions r.tenant_id (id_of p.params) r.user_id
          p.params.server p.params.name p.params.arguments r.wall s.user_id q.params.server
          q.params.name q.params.arguments s.wall p.consumed_ok).0 [
            | inl e ↦
                let bad : ◌≡◌ {A = ConsumeOutcome} consume_expired consume_ok = sym e ∙ again in cc
            | inr e ↦
                let bad : ◌≡◌ {A = ConsumeOutcome} already_consumed consume_ok = sym e ∙ again in cc
          ]
      where
        id_of : ToolCallParams → String
        id_of params = or_default params.confirmation_id ""

        reply_of : Actions → String → String → ConsumeOutcome
        reply_of actions tenant id =
            (consume_approved_action x.sha256 actions tenant id s.user_id q.params.server
              q.params.name q.params.arguments s.wall).0.0

        same_id : id_of q.params ≡ id_of p.params
        same_id = ap confirmation_of (sym q.given) ∙ same_confirmation ∙ ap confirmation_of p.given

        again :
            reply_of (consumption_of settings x r p.params w.actions).1 r.tenant_id (id_of p.params)
            ≡ consume_ok
        again =
            ap (reply_of (consumption_of settings x r p.params w.actions).1 r.tenant_id)
              (sym same_id)
            ∙ ap
                (λ t.
                  reply_of (consumption_of settings x r p.params w.actions).1 t (id_of q.params))
                (sym same_tenant)
            ∙ ap (λ a. reply_of a s.tenant_id (id_of q.params)) (sym left)
            ∙ q.consumed_ok

    -- Two tools/calls of one tenant, one after the other, present the same confirmation, and the
    -- tools that they name ask for one. The tenant has a document. If the first gets a result, the
    -- second gets none, whoever makes it, at whatever time and for whatever tool and arguments.
    pub one_approval_one_result :
        (w : World E) (doc : TenantDoc)
        → r.method ≡ "tools/call"
        → s.method ≡ "tools/call"
        → lookup r.tenant_id w.plane.tenants ≡ some doc
        → IsGated settings w.catalogs r
        → IsGated settings w.catalogs s
        → is_result (dispatch settings x r handlers w).0 ≡ true
        → is_result (dispatch settings x s handlers (dispatch settings x r handlers w).1).0 ≡ false
    one_approval_one_result w doc call_r call_s found gated_r gated_s h =
        let v = (dispatch settings x r handlers w).1 in
        let p = result-IsConfirmed r w doc call_r found gated_r h in
        elim (Bool-cases (is_result (dispatch settings x s handlers v).0)) [
          | inl e ↦ absurd (
              spent w v p p.actions (
                result-IsConfirmed s v doc call_s
                  (ap (λ t. lookup t v.plane.tenants) same_tenant
                    ∙ ap (lookup r.tenant_id) p.tenants
                    ∙ found)
                  (subst (λ c. IsGated settings c s) (sym p.catalogs) gated_s) e))
          | inr e ↦ e
        ]
