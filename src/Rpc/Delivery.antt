-- ===== src/Rpc/Delivery.antt =====
-- A call that gets a result: its way through the handler.
use m_gate.Prelude.{
  Option, Option-cases, String, ap, eq_iff, err, false, if◌then◌else◌, inl, inr, lookup, none, ok,
  refl, some, subst, true, ◌==◌, ◌∙◌, ◌≡◌, string_eq, nat_eq, pair_eq,
}
use m_gate.Catalog.{Metadata}
use m_gate.Rpc.{Exit, Request, Response, Surroundings, ToolCallParams, World}
use m_gate.Rpc.Admission.{IsAdmitted, IsAdmitted-rest, admitted-IsAdmitted}
use m_gate.Rpc.Dispatch.{dispatch, preconditions, reply, run_handler, tools_call, with_params}
use m_gate.Rpc.Exits.{admitted-Never, is_result, is_result-reply, preconditions-Never}
use m_gate.Rpc.Frame.{admitted-Keeps}
use m_gate.Rpc.Gate.{>>>-cases, Gate, kept, ◌>>>◌}
use m_gate.Rpc.Preconditions.{preconditions_lem}
use m_gate.Rpc.ToolsCall.{admitted, handle_tools_call, run}
use m_gate.Settings.{Settings}
use m_gate.Tenant.Status.{get_tenant_read_only, get_tenant_status, status_active}
use m_gate.Tenant.Store.{TenantDoc}

module _ {E : Type 0} (settings : Settings) (x : Surroundings E) (request : Request)
    (handlers : String → Option (Gate (World E) Exit Response)) where
  abbrev pub whole : Gate (World E) Exit Response
  whole = preconditions settings x request >>> λ _. tools_call settings x request

  pub dispatch-whole :
      (w : World E)
      → request.method ≡ "tools/call"
      → dispatch settings x request handlers w ≡ (reply (whole w).0, (whole w).1)
  unfolding dispatch run_handler
  dispatch-whole w call =
      let is_call : (request.method == "tools/call") ≡ true =
        (eq_iff request.method "tools/call").1 call in
      ap
        (λ b.
          run_handler settings x request
            (if b then some (tools_call settings x request) else handlers request.method) w)
        is_call

  -- What is known of a call that got a result: it passed every guard, and these left the metering
  -- and what lies outside as they were.
  pub record IsServed (w : World E) : Type 0 where
    pub params : ToolCallParams
    pub given : request.params ≡ some params
    pub active :
        (get_tenant_status settings w.plane request.tenant_id request.now).0 ≡ status_active
    pub writable : (get_tenant_read_only settings w.plane request.tenant_id request.now).0 ≡ false
    pub metadata : Metadata
    pub after : World E
    pub admission : IsAdmitted settings x request params w after metadata
    pub metering_kept : after.metering ≡ w.metering
    pub ext_kept : after.ext ≡ w.ext
    pub catalogs_kept : after.catalogs ≡ w.catalogs
    pub tenants_kept : after.plane.tenants ≡ w.plane.tenants
    pub ran : dispatch settings x request handlers w ≡ (
      reply (run settings x request params metadata after).0,
      (run settings x request params metadata after).1,
    )

  -- `v` holds the money, the rest, the catalogs and the tenants of `u`.
  abbrev IsSame : World E → World E → Type 0
  IsSame u v =
      (v.metering ≡ u.metering)
      × (v.ext ≡ u.ext)
      × (v.catalogs ≡ u.catalogs)
      × (v.plane.tenants ≡ u.plane.tenants)

  admitted-IsSame :
      (params : ToolCallParams) (u v : World E) (metadata : Metadata)
      → admitted settings x request params u ≡ (ok metadata, v)
      → IsSame u v
  admitted-IsSame params u v metadata h =
      kept (IsSame u) (admitted settings x request params) u
        (admitted-Keeps settings x request params
          (λ m e c d. (m ≡ u.metering) × (e ≡ u.ext) × (c ≡ u.catalogs) × (d ≡ u.plane.tenants)))
        (refl, refl, refl, refl) h

  serve :
      (w u v : World E) (doc : TenantDoc) (params : ToolCallParams) (metadata : Metadata)
      → request.method ≡ "tools/call"
      → lookup request.tenant_id w.plane.tenants ≡ some doc
      → request.params ≡ some params
      → preconditions settings x request w ≡ (ok tt, u)
      → admitted settings x request params u ≡ (ok metadata, v)
      → whole w ≡ run settings x request params metadata v
      → IsServed w
  serve w u v doc params metadata call found given e1 e3 ran =
      let (active, writable, same) = preconditions_lem settings x request w u doc call found e1 in
      let (money, ext, catalogs, tenants) = admitted-IsSame params u v metadata e3 in
      record {
        params = params;
        given = given;
        active = active;
        writable = writable;
        metadata = metadata;
        after = v;
        admission =
            IsAdmitted-rest settings x request params u w v metadata same
              (admitted-IsAdmitted settings x request params u v metadata e3);
        metering_kept = money ∙ ap (λ r. r.4) same;
        ext_kept = ext ∙ ap (λ r. r.5) same;
        catalogs_kept = catalogs ∙ ap (λ r. r.2) same;
        tenants_kept = tenants ∙ ap (λ r. r.0) same;
        ran =
            subst (λ p. dispatch settings x request handlers w ≡ (reply p.0, p.1)) ran
              (dispatch-whole w call);
      }

  through_handler :
      (w u : World E) (doc : TenantDoc) (params : ToolCallParams)
      → request.method ≡ "tools/call"
      → lookup request.tenant_id w.plane.tenants ≡ some doc
      → request.params ≡ some params
      → preconditions settings x request w ≡ (ok tt, u)
      → whole w ≡ handle_tools_call settings x request params u
      → is_result (reply (whole w).0) ≡ true
      → IsServed w
  unfolding handle_tools_call
  through_handler w u doc params call found given e1 e2 h =
      elim (>>>-cases (admitted settings x request params) (run settings x request params) u) [
        | inl (e, v, stop, same) ↦
            let no =
              is_result-reply (admitted settings x request params) u
                (admitted-Never settings x request params) stop in
            let good : is_result (reply (err e)) ≡ true =
              subst (λ p. is_result (reply p.0) ≡ true) (e2 ∙ same) h in
            cc
        | inr (metadata, v, go, same) ↦
            serve w u v doc params metadata call found given e1 go (e2 ∙ same)
      ]

  through_tools_call :
      (w u : World E) (doc : TenantDoc)
      → request.method ≡ "tools/call"
      → lookup request.tenant_id w.plane.tenants ≡ some doc
      → preconditions settings x request w ≡ (ok tt, u)
      → whole w ≡ tools_call settings x request u
      → is_result (reply (whole w).0) ≡ true
      → IsServed w
  unfolding tools_call with_params
  through_tools_call w u doc call found e1 e2 h = elim (Option-cases request.params) [
    | inl e ↦
        let as_sent : whole w ≡ with_params settings x request none u =
          e2 ∙ ap (λ o. with_params settings x request o u) e in
        let good : false ≡ true = subst (λ p. is_result (reply p.0) ≡ true) as_sent h in cc
    | inr (params, e) ↦
        through_handler w u doc params call found e e1
          (e2 ∙ ap (λ o. with_params settings x request o u) e) h
  ]

  -- For a tenant that has a document, a tools/call that gets a result was sent with parameters,
  -- found the tenant's status active and the tenant not read-only, passed every guard of the
  -- handler (the catalog has the tool and the policy lets the caller call it, the quota has room,
  -- the code flag is on for a code tool, whose projected sandbox time fits the quota where the
  -- preflight is on, and the approval was consumed for a tool that asks for one), and the guards
  -- left metering, outside, catalogs and tenants as they were.
  pub result-IsServed :
      (w : World E) (doc : TenantDoc)
      → request.method ≡ "tools/call"
      → lookup request.tenant_id w.plane.tenants ≡ some doc
      → is_result (dispatch settings x request handlers w).0 ≡ true
      → IsServed w
  result-IsServed w doc call found h =
      elim (>>>-cases (preconditions settings x request) (λ _. tools_call settings x request) w) [
        | inl (e, v, stop, same) ↦
            let no =
              is_result-reply (preconditions settings x request) w
                (preconditions-Never settings x request) stop in
            let good : is_result (reply (err e)) ≡ true =
              subst (λ p. is_result (reply p.0) ≡ true) same
                (subst (λ p. is_result p.0 ≡ true) (dispatch-whole w call) h) in
            cc
        | inr (_, u, go, same) ↦
            through_tools_call w u doc call found go same
              (subst (λ p. is_result p.0 ≡ true) (dispatch-whole w call) h)
      ]
