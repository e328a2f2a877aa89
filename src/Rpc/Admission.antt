-- ===== src/Rpc/Admission.antt =====
-- What a call that gets a result has passed.
use m_gate.Prelude.{
  lookup, none, ok, refl, some, subst, true, ◌&&◌, ◌≡◌, string_eq, nat_eq, pair_eq,
}
use m_gate.Authorization.{get_tool, scopes_of}
use m_gate.Authorization.Decision.{may_call}
use m_gate.Catalog.{Metadata}
use m_gate.PendingActions.{consume_ok}
use m_gate.Rpc.{Request, Surroundings, ToolCallParams, World}
use m_gate.Rpc.Frame.{authorized-Keeps, code_enabled-Keeps, sandbox_fits-Keeps, within_quota-Keeps}
use m_gate.Rpc.Gate.{>>>-ok, kept, pure-eq}
use m_gate.Rpc.Guards.{
  IsAuthorized, authorized-IsAuthorized, code_enabled-flag, confirmed-consumed, consumption_of,
  quota_answer, sandbox_fits-none, tenant_of, within_quota-none,
}
use m_gate.Rpc.Preconditions.{rest}
use m_gate.Rpc.ToolsCall.{
  admitted, authorized, caller_scopes, code_enabled, confirmed, is_code_tool, projected_ms,
  sandbox_fits, within_quota,
}
use m_gate.Settings.{Settings}
use m_gate.Tenant.Cache.{read}
use m_gate.Tenant.Store.{cache_ttl}
use m_gate.Tenant.ToolPolicy.{get_tool_policy, normalize_policy}
use m_gate.Usage.{check_quota, check_sandbox_preflight}

module _ {E : Type 0} (settings : Settings) (x : Surroundings E) (request : Request) where
  module _ (params : ToolCallParams) where
    -- What the guards of the handler ask of a call, and what they leave of the actions.
    pub record IsAdmitted (w v : World E) (metadata : Metadata) : Type 0 where
      pub authorization : IsAuthorized settings x request params w metadata
      pub funded : (quota_answer settings x request params w).0 ≡ none
      pub fits :
          (is_code_tool metadata && settings.quota_preflight_enabled) ≡ true
          → check_sandbox_preflight
              (quota_answer settings x request params w).1
              (quota_answer settings x request params w).2
              (projected_ms settings metadata)
            ≡ none
      pub enabled : is_code_tool metadata ≡ true → settings.code_tool_execution_enabled ≡ true
      pub confirmation :
          metadata.requires_confirmation ≡ true
          → ((consumption_of settings x request params w.actions).0.0 ≡ consume_ok)
            × (v.actions ≡ (consumption_of settings x request params w.actions).1)

    pub admitted-IsAdmitted :
        (w v : World E) (metadata : Metadata)
        → admitted settings x request params w ≡ (ok metadata, v)
        → IsAdmitted w v metadata
    unfolding admitted
    admitted-IsAdmitted w v metadata h =
        let (md, w1, e1, h1) = >>>-ok (authorized settings x request params) _ w h in
        let (budget, w2, e2, h2) = >>>-ok (within_quota settings x request params) _ w1 h1 in
        let (_, w3, e3, h3) = >>>-ok (code_enabled settings x request params md) _ w2 h2 in
        let (_, w4, e4, h4) = >>>-ok (sandbox_fits settings x request params md budget) _ w3 h3 in
        let (_, w5, e5, h5) = >>>-ok (confirmed settings x request params md) _ w4 h4 in
        let (same_metadata, same_world) = pure-eq h5 in
        let (has_room, used, allowance) =
          within_quota-none settings x request params w1 w2 budget e2 in
        let money : w1.metering ≡ w.metering =
          kept (λ u. u.metering ≡ w.metering) (authorized settings x request params) w
            (authorized-Keeps settings x request params (λ m a c. m ≡ w.metering)) refl e1 in
        let acts : w4.actions ≡ w.actions =
          kept (λ u. u.actions ≡ w.actions) (sandbox_fits settings x request params md budget) w3
            (sandbox_fits-Keeps settings x request params (λ m a c. a ≡ w.actions) md budget)
            (kept (λ u. u.actions ≡ w.actions) (code_enabled settings x request params md) w2
              (code_enabled-Keeps settings x request params (λ m a c. a ≡ w.actions) md)
              (kept (λ u. u.actions ≡ w.actions) (within_quota settings x request params) w1
                (within_quota-Keeps settings x request params (λ m a c. a ≡ w.actions))
                (kept (λ u. u.actions ≡ w.actions) (authorized settings x request params) w
                  (authorized-Keeps settings x request params (λ m a c. a ≡ w.actions)) refl e1)
                e2)
              e3)
            e4 in
        record {
          authorization =
              subst (IsAuthorized settings x request params w) same_metadata
                (authorized-IsAuthorized settings x request params w w1 md e1);
          funded =
              subst
                (λ m. (check_quota settings m request.tenant_id (x.month_of request.wall)).0 ≡ none)
                money has_room;
          fits =
              subst
                (λ m.
                  (is_code_tool m && settings.quota_preflight_enabled) ≡ true
                  → check_sandbox_preflight (quota_answer settings x request params w).1
                      (quota_answer settings x request params w).2 (projected_ms settings m)
                    ≡ none)
                same_metadata
                (subst
                  (λ m.
                    (is_code_tool md && settings.quota_preflight_enabled) ≡ true
                    → check_sandbox_preflight
                        (check_quota settings m request.tenant_id (x.month_of request.wall)).1
                        (check_quota settings m request.tenant_id (x.month_of request.wall)).2
                        (projected_ms settings md)
                      ≡ none)
                  money
                  (rw (used, allowance)
                    (sandbox_fits-none settings x request params md budget w3 w4 e4)));
          enabled =
              subst (λ m. is_code_tool m ≡ true → settings.code_tool_execution_enabled ≡ true)
                same_metadata (code_enabled-flag settings x request params md w2 w3 e3);
          confirmation =
              subst
                (λ m.
                  m.requires_confirmation ≡ true
                  → ((consumption_of settings x request params w.actions).0.0 ≡ consume_ok)
                    × (v.actions ≡ (consumption_of settings x request params w.actions).1))
                same_metadata
                (subst
                  (λ a.
                    md.requires_confirmation ≡ true
                    → ((consumption_of settings x request params a).0.0 ≡ consume_ok)
                      × (v.actions ≡ (consumption_of settings x request params a).1))
                  acts
                  (subst
                    (λ u.
                      md.requires_confirmation ≡ true
                      → ((consumption_of settings x request params w4.actions).0.0 ≡ consume_ok)
                        × (u.actions ≡ (consumption_of settings x request params w4.actions).1))
                    same_world (confirmed-consumed settings x request params md w4 w5 e5)));
        }

    -- The conditions read the world through what the preconditions leave alone.
    IsAuthorized-rest :
        (u w : World E) (metadata : Metadata)
        → rest u ≡ rest w
        → IsAuthorized settings x request params u metadata
        → IsAuthorized settings x request params w metadata
    unfolding get_tool_policy
    IsAuthorized-rest u w metadata e a = record {
      tool = a.tool;
      found =
          subst
            (λ r.
              get_tool settings r.2 (some request.tenant_id) params.server params.name
              ≡ some a.tool)
            e a.found;
      allowed =
          subst
            (λ r.
              may_call a.tool
                (read (cache_ttl settings) request.now (tenant_of settings x request params)
                  (normalize_policy (lookup (tenant_of settings x request params) r.0)) r.1).0
                params.server params.name (scopes_of (caller_scopes request)) request.roles
              ≡ true)
            e a.allowed;
      described = a.described;
    }

    pub IsAdmitted-rest :
        (u w v : World E) (metadata : Metadata)
        → rest u ≡ rest w
        → IsAdmitted u v metadata
        → IsAdmitted w v metadata
    IsAdmitted-rest u w v metadata e a = record {
      authorization = IsAuthorized-rest u w metadata e a.authorization;
      funded =
          subst
            (λ r. (check_quota settings r.4 request.tenant_id (x.month_of request.wall)).0 ≡ none) e
            a.funded;
      fits =
          subst
            (λ r.
              (is_code_tool metadata && settings.quota_preflight_enabled) ≡ true
              → check_sandbox_preflight
                  (check_quota settings r.4 request.tenant_id (x.month_of request.wall)).1
                  (check_quota settings r.4 request.tenant_id (x.month_of request.wall)).2
                  (projected_ms settings metadata)
                ≡ none)
            e a.fits;
      enabled = a.enabled;
      confirmation =
          subst
            (λ r.
              metadata.requires_confirmation ≡ true
              → ((consumption_of settings x request params r.3).0.0 ≡ consume_ok)
                × (v.actions ≡ (consumption_of settings x request params r.3).1))
            e a.confirmation;
    }
