-- ===== src/Authorization/KillSwitch.antt =====
-- A tool that an operator has disabled is out of service for every caller.
use m_gate.Prelude.{
  List, Option, String, arith, elem, false, lookup, or_default, refl, some, strip, true, ℕ, ◌≡◌,
  string_eq,
}
use m_gate.Authorization.{Catalogs, authorize_tool_call, decide, get_tool, scopes_of, tool_disabled}
use m_gate.Catalog.{CatalogTool}
use m_gate.Settings.{Settings}
use m_gate.Tenant.Store.{ControlPlane, TenantDoc, ToolPolicy}
use m_gate.Tenant.ToolPolicy.{fq_name, is_tool_available, set_tool_enabled}
use m_gate.Tenant.ToolPolicy.Curation.{disabled_after}

decide_disabled :
    (tool : CatalogTool) (policy : ToolPolicy) (server name : String) (scopes roles : List String)
    → elem (fq_name server name) policy.disabled_tools ≡ true
    → decide tool policy server name scopes roles
      ≡ record { allowed = false; reason = tool_disabled; tool = some tool }
unfolding decide
decide_disabled tool policy server name scopes roles h = rw h

-- A tool of the catalog, of a tenant that has a document, is disabled under a name without spaces
-- round it. From then on the process that wrote refuses its call as disabled, to every caller, an
-- admin included, at any time.
pub authorize-set_tool_disabled :
    (settings : Settings) (catalogs : Catalogs) (plane : ControlPlane) (tenant_id : Option String)
    (server name : String) (caller_scopes caller_roles : Option (List String))
    (updated_by : Option String) (wall now later : ℕ) (doc : TenantDoc) (tool : CatalogTool)
    → lookup (or_default tenant_id settings.default_tenant_id) plane.tenants ≡ some doc
    → get_tool settings catalogs tenant_id server name ≡ some tool
    → strip (fq_name server name) ≡ fq_name server name
    → (authorize_tool_call settings catalogs
        (set_tool_enabled settings plane
          (or_default tenant_id settings.default_tenant_id)
          server
          name
          false
          updated_by
          wall
          now).1
        tenant_id
        server
        name
        caller_scopes
        caller_roles
        later).0
      ≡ record { allowed = false; reason = tool_disabled; tool = some tool }
unfolding authorize_tool_call
authorize-set_tool_disabled settings catalogs plane tenant_id server name caller_scopes caller_roles
      updated_by wall now later doc tool found known s =
    rw (known, authorize_tool_call)
      (decide_disabled tool _ server name (scopes_of caller_scopes) (scopes_of caller_roles) (
        disabled_after settings plane (or_default tenant_id settings.default_tenant_id) server name
          false updated_by wall now later doc found refl s))

-- If a tool that discovery hides may be called, the caller is an admin and the tool is not
-- disabled.
pub hidden_refused :
    (tool : CatalogTool) (policy : ToolPolicy) (server name : String) (scopes roles : List String)
    → is_tool_available policy server name ≡ false
    → (decide tool policy server name scopes roles).allowed ≡ true
    → (elem "admin" roles ≡ true) × (elem (fq_name server name) policy.disabled_tools ≡ false)
unfolding decide is_tool_available
hidden_refused tool policy server name scopes roles h a = ground arith
