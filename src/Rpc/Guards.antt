-- ===== src/Rpc/Guards.antt =====
-- Each guard of the handler: what it lets through, and what it leaves alone.
use m_gate.Prelude.{
  Bool-cases, Option, Option-cases, Result, String, ap, err, if-eq-ok, inl, inr, none, ok,
  or_default, refl, some, sym, true, ◌&&◌, ◌==◌, ◌∙◌, ◌≡◌, string_eq, nat_eq, pair_eq,
}
use m_gate.Authorization.{authorize_tool_call, decide, get_tool, scopes_of, tool_not_found}
use m_gate.Authorization.Decision.{decide-may_call, decide-tool, may_call}
use m_gate.Catalog.{CatalogTool, Metadata}
use m_gate.PendingActions.{
  Action, Actions, ConsumeOutcome, already_consumed, consume_approved_action, consume_expired,
  consume_not_found, consume_ok, mismatch, not_approved,
}
use m_gate.Rpc.{
  Exit, Request, Surroundings, ToolCallParams, World, code_execution_not_enabled, error, forbidden,
  not_authorized, over_limit, rate_limited, respond, server_error,
}
use m_gate.Rpc.Gate.{ended}
use m_gate.Rpc.ToolsCall.{
  ask_confirmation, authorized, caller_scopes, code_enabled, confirm_with, confirmed, consumption,
  forbid, is_code_tool, metadata_of, projected_ms, sandbox_fits, within_quota,
}
use m_gate.Settings.{Settings}
use m_gate.Tenant.ToolPolicy.{get_tool_policy}
use m_gate.Usage.{Quota, QuotaReason, Usage, check_quota, check_sandbox_preflight}

module _ {E : Type 0} (settings : Settings) (x : Surroundings E) (request : Request)
    (params : ToolCallParams) where
  abbrev pub tenant_of : String
  tenant_of = or_default (some request.tenant_id) settings.default_tenant_id

  -- The catalog has the tool, the policy and the caller's rights allow the call.
  pub record IsAuthorized (w : World E) (metadata : Metadata) : Type 0 where
    pub tool : CatalogTool
    pub found :
        get_tool settings w.catalogs (some request.tenant_id) params.server params.name ≡ some tool
    pub allowed :
        may_call tool
          (get_tool_policy settings w.plane tenant_of request.now).0
          params.server
          params.name
          (scopes_of (caller_scopes request))
          request.roles
        ≡ true
    pub described : metadata ≡ tool.metadata

  pub authorized-IsAuthorized :
      (w v : World E) (metadata : Metadata)
      → authorized settings x request params w ≡ (ok metadata, v)
      → IsAuthorized w metadata
  unfolding authorized authorize_tool_call
  authorized-IsAuthorized w v metadata h =
      let done : (authorized settings x request params w).0 ≡ ok metadata = ap (λ p. p.0) h in
      elim (Option-cases
        (get_tool settings w.catalogs (some request.tenant_id) params.server params.name)) [
          | inl e ↦
              let bad : ◌≡◌ {A = Result Exit Metadata}
                  (err (respond (error forbidden (not_authorized tool_not_found)))) (ok metadata) =
                rw (e, authorize_tool_call) at done in
              cc
          | inr (tool, e) ↦
              let answer =
                decide tool (get_tool_policy settings w.plane tenant_of request.now).0 params.server
                  params.name (scopes_of (caller_scopes request)) request.roles in
              let (permitted, same) =
                if-eq-ok answer.allowed (metadata_of answer.tool)
                  (forbid settings x request params answer.reason)
                  (rw (e, authorize_tool_call) at done) in
              record {
                tool = tool;
                found = e;
                allowed =
                    sym (
                      decide-may_call tool
                        (get_tool_policy settings w.plane tenant_of request.now).0 params.server
                        params.name (scopes_of (caller_scopes request)) request.roles)
                    ∙ permitted;
                described =
                    sym same
                    ∙ ap metadata_of (
                        decide-tool tool (get_tool_policy settings w.plane tenant_of request.now).0
                          params.server params.name (scopes_of (caller_scopes request))
                          request.roles);
              }
        ]

  -- What the quota check says of the tenant in the month of the call.
  abbrev pub quota_answer : World E → Option QuotaReason × Usage × Quota
  quota_answer w = check_quota settings w.metering request.tenant_id (x.month_of request.wall)

  pub within_quota-none :
      (w v : World E) (budget : Usage × Quota)
      → within_quota settings x request params w ≡ (ok budget, v)
      → ((quota_answer w).0 ≡ none)
        × ((quota_answer w).1 ≡ budget.0)
        × ((quota_answer w).2 ≡ budget.1)
  unfolding within_quota
  within_quota-none w v budget h =
      let done : (within_quota settings x request params w).0 ≡ ok budget = ap (λ p. p.0) h in
      elim (Option-cases (quota_answer w).0) [
        | inl e ↦
            let same : ◌≡◌ {A = Result Exit (Usage × Quota)}
                (ok ((quota_answer w).1, (quota_answer w).2)) (ok budget) =
              rw e at done in
            let pair : ((quota_answer w).1, (quota_answer w).2) ≡ budget = cc in
            (e, ap (λ p. p.0) pair, ap (λ p. p.1) pair)
        | inr (reason, e) ↦
            let bad : ◌≡◌ {A = Result Exit (Usage × Quota)}
                (err (respond (error rate_limited (over_limit reason)))) (ok budget) =
              rw e at done in
            cc
      ]

  pub code_enabled-flag :
      (metadata : Metadata) (w v : World E)
      → code_enabled settings x request params metadata w ≡ (ok tt, v)
      → is_code_tool metadata ≡ true
      → settings.code_tool_execution_enabled ≡ true
  unfolding code_enabled
  code_enabled-flag metadata w v h code =
      let done : (code_enabled settings x request params metadata w).0 ≡ ok tt = ap (λ p. p.0) h in
      elim (Bool-cases settings.code_tool_execution_enabled) [
        | inl e ↦ e
        | inr e ↦
            let bad : ◌≡◌ {A = Result Exit (Unit {0})}
                (err (respond (error server_error code_execution_not_enabled))) (ok tt) =
              rw (code, e) at done in
            cc
      ]

  pub sandbox_fits-none :
      (metadata : Metadata) (budget : Usage × Quota) (w v : World E)
      → sandbox_fits settings x request params metadata budget w ≡ (ok tt, v)
      → (is_code_tool metadata && settings.quota_preflight_enabled) ≡ true
      → check_sandbox_preflight budget.0 budget.1 (projected_ms settings metadata) ≡ none
  unfolding sandbox_fits
  sandbox_fits-none metadata (usage, quota) w v h guarded =
      let done : (sandbox_fits settings x request params metadata (usage, quota) w).0 ≡ ok tt =
        ap (λ p. p.0) h in
      elim (Option-cases (check_sandbox_preflight usage quota (projected_ms settings metadata))) [
        | inl e ↦ e
        | inr (reason, e) ↦
            let bad : ◌≡◌ {A = Result Exit (Unit {0})}
                (err (respond (error rate_limited (over_limit reason)))) (ok tt) =
              rw (guarded, e) at done in
            cc
      ]

  consumption-ok :
      (id : String) (outcome : ConsumeOutcome × Option Action)
      → consumption settings x request params id outcome ≡ ok tt
      → outcome.0 ≡ consume_ok
  consumption-ok id (consume_ok, doc) h = refl
  consumption-ok id (mismatch, doc) h = cc
  consumption-ok id (consume_not_found, doc) h = cc
  consumption-ok id (not_approved, doc) h = cc
  consumption-ok id (consume_expired, doc) h = cc
  consumption-ok id (already_consumed, doc) h = cc

  -- The reply of the store to the request's confirmation.
  abbrev pub consumption_of : Actions → (ConsumeOutcome × Option Action) × Actions
  consumption_of actions =
      consume_approved_action x.sha256 actions request.tenant_id
        (or_default params.confirmation_id "") request.user_id params.server params.name
        params.arguments request.wall

  pub confirmed-consumed :
      (metadata : Metadata) (w v : World E)
      → confirmed settings x request params metadata w ≡ (ok tt, v)
      → metadata.requires_confirmation ≡ true
      → ((consumption_of w.actions).0.0 ≡ consume_ok) × (v.actions ≡ (consumption_of w.actions).1)
  unfolding confirmed confirm_with ask_confirmation
  confirmed-consumed metadata w v h required =
      let done : (confirmed settings x request params metadata w).0 ≡ ok tt = ap (λ p. p.0) h in
      elim (Bool-cases (or_default params.confirmation_id "" == "")) [
        | inl e ↦
            let bad : ◌≡◌ {A = Result Exit (Unit {0})}
                (ask_confirmation settings x request params metadata w).0 (ok tt) =
              rw (required, e) at done in
            cc
        | inr e ↦
            let good : confirm_with settings x request params (or_default params.confirmation_id "")
                  w
                ≡ (ok tt, v) =
              rw (required, e) at h in
            (
              consumption-ok (or_default params.confirmation_id "") (consumption_of w.actions).0
                  (ended {r = ok tt} good),
              sym (ap (λ p. p.1.actions) good),
            )
      ]
