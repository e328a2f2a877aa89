-- ===== src/Console/Curating.antt =====
-- gateway/routers/admin/tenants.py: what a tenant's own admin may change of its tenant.
use m_gate.Prelude.{List, Option, Result, String, err, none, ok, some, ℕ, ℤ}
use m_gate.Console.{Caller, require_tenant_writable, resolve_target_tenant}
use m_gate.Console.Tenants.{
  Control, TenantError, guarded, invalid_allowlist, or_not_found, require_tenant_admin, set_plane,
  tenant_not_found,
}
use m_gate.Settings.{Settings}
use m_gate.Tenant.PipPolicy.{PipPolicyError, set_tenant_pip_allowlist}
use m_gate.Tenant.Store.{TenantDoc, ToolPolicy}
use m_gate.Tenant.ToolPolicy.{get_tool_policy, set_tool_policy}

-- The guards of both endpoints: an admin of some kind, the target, and its freeze.
unfoldable pub curating_target :
    Settings → Caller → String → ℕ → Control → Result TenantError String × Control
unfolding require_tenant_admin
curating_target settings caller tenant now c = elim (require_tenant_admin settings caller) [
  | err e ↦ (err e, c)
  | ok _ ↦ elim (resolve_target_tenant settings caller (some tenant)) [
    | err e ↦ (err (guarded e), c)
    | ok target ↦
        let (writable, plane) = require_tenant_writable settings caller target c.plane now in
        (elim writable [ err e ↦ err (guarded e) | ok _ ↦ ok target ], set_plane plane c)
  ]
]

-- What follows the guards.
abbrev pub with_target :
    {A : Type 0}
    → Result TenantError String × Control
    → (String → Control → Result TenantError A × Control)
    → Result TenantError A × Control
with_target (err e, c) act = (err e, c)
with_target (ok target, c) act = act target c

-- The answer shows the policy as it is read after the write.
unfoldable pub show_policy :
    Settings → String → ℕ → Option TenantDoc → Control → Result TenantError ToolPolicy × Control
unfolding get_tool_policy
show_policy settings target now none c = (err tenant_not_found, c)
show_policy settings target now (some doc) c =
    let (policy, plane) = get_tool_policy settings c.plane target now in
    (ok policy, set_plane plane c)

unfoldable pub put_tenant_tool_policy :
    Settings
    → Caller
    → String
    → List String
    → Option ℤ
    → ℕ
    → ℕ
    → Control
    → Result TenantError ToolPolicy × Control
unfolding curating_target show_policy
put_tenant_tool_policy settings caller tenant allowlist max_tools wall now c =
    with_target (curating_target settings caller tenant now c) (λ target c'.
      let (doc, plane) =
        set_tool_policy settings c'.plane target (some allowlist) max_tools (some caller.user_id)
          wall now in
      show_policy settings target now doc (set_plane plane c'))

abbrev pub allowlist_answer :
    Result PipPolicyError (Option TenantDoc) → Result TenantError TenantDoc
allowlist_answer (err e) = err (invalid_allowlist e)
allowlist_answer (ok doc) = or_not_found doc

unfoldable pub put_code_requirements_policy :
    Settings
    → Caller
    → String
    → List String
    → ℕ
    → ℕ
    → Control
    → Result TenantError TenantDoc × Control
unfolding curating_target
put_code_requirements_policy settings caller tenant allowlist wall now c =
    with_target (curating_target settings caller tenant now c) (λ target c'.
      let (r, plane) =
        set_tenant_pip_allowlist settings c'.plane target allowlist (some caller.user_id) wall
          now in
      (allowlist_answer r, set_plane plane c'))
