-- ===== src/Rpc/Frame.antt =====
-- What the guards of a handler cannot change.
use m_gate.Prelude.{Dict, Option-cases, String, arith, inl, inr, some, subst, sym, ◌≡◌}
use m_gate.Authorization.{Catalogs, authorize_tool_call, get_tool}
use m_gate.Catalog.{Metadata}
use m_gate.PendingActions.{Actions}
use m_gate.Rpc.{Request, Surroundings, ToolCallParams, World}
use m_gate.Rpc.Gate.{>>>-Keeps, Keeps}
use m_gate.Rpc.ToolsCall.{
  admitted, ask_confirmation, authorized, code_enabled, confirm_with, confirmed, sandbox_fits,
  within_quota,
}
use m_gate.Settings.{Settings}
use m_gate.Tenant.Store.{TenantDoc}
use m_gate.Tenant.ToolPolicy.{get_tool_policy}
use m_gate.Usage.{Metering, Quota, Usage}

module _ {E : Type 0} (settings : Settings) (x : Surroundings E) (request : Request)
    (params : ToolCallParams) where
  authorized-tenants :
      (w : World E) → (authorized settings x request params w).1.plane.tenants ≡ w.plane.tenants
  unfolding authorized authorize_tool_call get_tool_policy
  authorized-tenants w =
      elim (Option-cases
        (get_tool settings w.catalogs (some request.tenant_id) params.server params.name)) [
          | inl e ↦ rw (e, authorize_tool_call)
          | inr (tool, e) ↦ rw (e, authorize_tool_call)
        ]

  -- The guards touch neither the metering nor what lies outside, nor the catalogs, nor the tenants.
  module _ (P : Metering → E → Catalogs → Dict String TenantDoc → Type 0) where
    abbrev Still : World E → Type 0
    Still w = P w.metering w.ext w.catalogs w.plane.tenants

    authorized-Still : Keeps Still (authorized settings x request params)
    unfolding authorized
    authorized-Still w p = subst (P w.metering w.ext w.catalogs) (sym (authorized-tenants w)) p

    confirmed-Keeps :
        (metadata : Metadata) → Keeps Still (confirmed settings x request params metadata)
    unfolding confirmed ask_confirmation confirm_with
    confirmed-Keeps metadata w p = ground arith

    pub admitted-Keeps : Keeps Still (admitted settings x request params)
    unfolding admitted authorized within_quota code_enabled sandbox_fits
    admitted-Keeps =
        >>>-Keeps Still (authorized settings x request params) _ authorized-Still λ metadata.
          >>>-Keeps Still (within_quota settings x request params) _ (λ w p. p)
            λ budget.
              >>>-Keeps Still (code_enabled settings x request params metadata) _ (λ w p. p)
                λ _.
                  >>>-Keeps Still (sandbox_fits settings x request params metadata budget) _
                    (λ w p. p)
                    λ _.
                      >>>-Keeps Still (confirmed settings x request params metadata) _
                        (confirmed-Keeps metadata) λ _ w p. p

  -- Until the confirmation, the guards change the caches of the control plane alone.
  module _ (P : Metering → Actions → Catalogs → Type 0) where
    abbrev Quiet : World E → Type 0
    Quiet w = P w.metering w.actions w.catalogs

    pub authorized-Keeps : Keeps Quiet (authorized settings x request params)
    unfolding authorized
    authorized-Keeps w p = p

    pub within_quota-Keeps : Keeps Quiet (within_quota settings x request params)
    unfolding within_quota
    within_quota-Keeps w p = p

    pub code_enabled-Keeps :
        (metadata : Metadata) → Keeps Quiet (code_enabled settings x request params metadata)
    unfolding code_enabled
    code_enabled-Keeps metadata w p = p

    pub sandbox_fits-Keeps :
        (metadata : Metadata) (budget : Usage × Quota)
        → Keeps Quiet (sandbox_fits settings x request params metadata budget)
    unfolding sandbox_fits
    sandbox_fits-Keeps metadata (usage, quota) w p = p
