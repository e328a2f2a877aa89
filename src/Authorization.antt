-- ===== src/Authorization.antt =====
-- services/authorization.py: may this caller call this tool of this tenant?
pub mod Decision
pub mod KillSwitch
use m_gate.Prelude.{
  Bool, Dict, List, Option, String, [], any, concat, elem, false, if◌then◌else◌, is_empty, lookup,
  none, not, or_default, some, true, ℕ, ◌&&◌, ◌∷◌, string_eq, nat_eq, pair_eq,
}
use m_gate.Catalog.{CatalogTool, find_tool}
use m_gate.Settings.{Settings}
use m_gate.Tenant.Store.{ControlPlane, ToolPolicy}
use m_gate.Tenant.ToolPolicy.{fq_name, get_tool_policy, matches_allowlist}

abbrev pub invoke_role : String
invoke_role = "tool:invoke"

-- The values of `reason`.
pub data Reason : Type 0 where
  tool_not_found tool_disabled invoke_not_permitted tool_not_allowlisted : Reason
  server_scope_required missing_scope scope_mismatch : Reason
  admin_override no_scope_required scope_match : Reason

pub record AuthorizationResult : Type 0 where
  pub allowed : Bool
  pub reason : Reason
  pub tool : Option CatalogTool

abbrev refuse : Reason → CatalogTool → AuthorizationResult
refuse reason tool = record { allowed = false; reason = reason; tool = some tool }

abbrev permit : Reason → CatalogTool → AuthorizationResult
permit reason tool = record { allowed = true; reason = reason; tool = some tool }

-- `set(required_scopes).intersection(normalized_scopes)`
abbrev pub intersects : List String → List String → Bool
intersects xs ys = any (λ x. elem x ys) xs

abbrev pub server_scope : String → String
server_scope server = concat ("server:" ∷ server ∷ [])

-- What `authorize_tool_call` does once the tool and the policy are at hand.
unfoldable pub decide :
    CatalogTool → ToolPolicy → String → String → List String → List String → AuthorizationResult
decide tool policy server name scopes roles =
    if elem (fq_name server name) policy.disabled_tools
    then refuse tool_disabled tool
    else if elem "admin" roles
    then permit admin_override tool
    else if not (elem invoke_role roles)
    then refuse invoke_not_permitted tool
    else if not (matches_allowlist server name policy.allowlist)
    then refuse tool_not_allowlisted tool
    else if not (elem (server_scope server) scopes) && not (elem "server:*" scopes)
    then refuse server_scope_required tool
    else if is_empty tool.scopes
    then permit no_scope_required tool
    else if is_empty scopes
    then refuse missing_scope tool
    else if intersects tool.scopes scopes
    then permit scope_match tool
    else refuse scope_mismatch tool

-- `caller_scopes or []`
abbrev pub scopes_of : Option (List String) → List String
scopes_of none = []
scopes_of (some xs) = xs

abbrev pub catalog_of : Option (List CatalogTool) → List CatalogTool
catalog_of none = []
catalog_of (some ts) = ts

-- The tool catalogs, by tenant.
abbrev pub Catalogs : Type 0
Catalogs = Dict String (List CatalogTool)

unfoldable pub get_tool : Settings → Catalogs → Option String → String → String → Option CatalogTool
get_tool settings catalogs tenant_id server name =
    find_tool server name
      (catalog_of (lookup (or_default tenant_id settings.default_tenant_id) catalogs))

unfoldable pub authorize_tool_call :
    Settings
    → Catalogs
    → ControlPlane
    → Option String
    → String
    → String
    → Option (List String)
    → Option (List String)
    → ℕ
    → AuthorizationResult × ControlPlane
authorize_tool_call settings catalogs plane tenant_id server name caller_scopes caller_roles now =
    elim (get_tool settings catalogs tenant_id server name) [
      | none ↦ (record { allowed = false; reason = tool_not_found; tool = none }, plane)
      | some tool ↦
          let (policy, plane') =
            get_tool_policy settings plane (or_default tenant_id settings.default_tenant_id) now in
          (
            decide tool policy server name (scopes_of caller_scopes) (scopes_of caller_roles),
            plane',
          )
    ]
