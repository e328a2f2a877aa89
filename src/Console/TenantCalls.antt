-- ===== src/Console/TenantCalls.antt =====
-- Sequences of requests to the endpoints of gateway/routers/admin/tenants.py.
use m_gate.Prelude.{Bool, List, Option, String, [], ℕ, ℤ, ◌∷◌}
use m_gate.Console.{Caller}
use m_gate.Console.Creating.{create_tenant}
use m_gate.Console.Curating.{put_code_requirements_policy, put_tenant_tool_policy}
use m_gate.Console.Tenants.{
  Control, delete_tenant, restore_tenant_endpoint, set_tenant_confirmation_endpoint,
  set_tenant_read_only_endpoint, set_tenant_status_endpoint, update_tenant_quota,
}
use m_gate.Settings.{Settings}

-- A request to one of the endpoints.
pub data TenantRequest : Type 0 where
  delete_request : String → Bool → Bool → TenantRequest
  restore_request : String → TenantRequest
  status_request : String → String → Option String → TenantRequest
  confirmation_request : String → String → TenantRequest
  read_only_request : String → Bool → Option String → TenantRequest
  quota_request : String → ℤ → ℤ → TenantRequest
  tool_policy_request : String → List String → Option ℤ → TenantRequest
  requirements_request : String → List String → TenantRequest
  -- Whether the work on the tenant's database succeeds comes with the request.
  create_request : Option String → Bool → TenantRequest

pub record TenantCall : Type 0 where
  pub caller : Caller
  pub request : TenantRequest
  pub wall : ℕ
  pub now : ℕ

module _ (settings : Settings) where
  unfoldable pub answer : TenantRequest → Caller → ℕ → ℕ → Control → Control
  answer (delete_request tenant hard drops) caller wall now c =
      (delete_tenant settings caller tenant hard drops wall now c).1
  answer (restore_request tenant) caller wall now c =
      (restore_tenant_endpoint settings caller tenant wall now c).1
  answer (status_request tenant target reason) caller wall now c =
      (set_tenant_status_endpoint settings caller tenant target reason wall now c).1
  answer (confirmation_request tenant confirmation) caller wall now c =
      (set_tenant_confirmation_endpoint settings caller tenant confirmation wall now c).1
  answer (read_only_request tenant enabled reason) caller wall now c =
      (set_tenant_read_only_endpoint settings caller tenant enabled reason wall now c).1
  answer (quota_request tenant calls seconds) caller wall now c =
      (update_tenant_quota settings caller tenant calls seconds wall c).1
  answer (tool_policy_request tenant allowlist max_tools) caller wall now c =
      (put_tenant_tool_policy settings caller tenant allowlist max_tools wall now c).1
  answer (requirements_request tenant allowlist) caller wall now c =
      (put_code_requirements_policy settings caller tenant allowlist wall now c).1
  answer (create_request requested provisions) caller wall now c =
      (create_tenant settings caller requested provisions wall c).1

  unfoldable pub answers : List TenantCall → Control → Control
  unfolding answer
  answers [] c = c
  answers (call ∷ calls) c = answers calls (answer call.request call.caller call.wall call.now c)
