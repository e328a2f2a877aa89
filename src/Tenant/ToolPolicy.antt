-- ===== src/Tenant/ToolPolicy.antt =====
-- services/tenant_tool_policy.py: which of a tenant's tools can be found and called.
pub mod Curation
pub mod Discovery
use m_gate.Prelude.{
  Bool, List, Option, String, [], add_to_set, clamp, concat, elem, false, find_and_modify,
  if◌then◌else◌, is_empty, keep, lookup, map, map_option, none, not, pos, pull, some, sorted_set,
  strip, ℕ, ℤ, ◌&&◌, ◌==◌, ◌||◌, ◌∷◌, string_eq, nat_eq, pair_eq,
}
use m_gate.Catalog.{CatalogTool}
use m_gate.Settings.{Settings}
use m_gate.Tenant.Cache.{read, write_through}
use m_gate.Tenant.Store.{ControlPlane, TenantDoc, ToolPolicy, cache_ttl, field, stamp}

-- An entry of the allowlist or of the disabled tools, `f"{server}/{name}"`.
abbrev pub fq_name : String → String → String
fq_name server name = concat (server ∷ "/" ∷ name ∷ [])

unfoldable pub clean_entries : Option (List String) → List String
unfolding strip sorted_set
clean_entries none = []
clean_entries (some values) = sorted_set (keep (λ v. not (v == "")) (map strip values))

-- `none` stands for a value that is not set, or of which `int` raises.
unfoldable pub coerce_cap : Option ℤ → ℕ
coerce_cap none = 0
coerce_cap (some n) = clamp n

unfoldable pub normalize_policy : Option TenantDoc → ToolPolicy
normalize_policy doc = record {
  allowlist = clean_entries (field doc (λ d. d.tool_allowlist));
  max_tools = coerce_cap (field doc (λ d. d.max_tools));
  disabled_tools = clean_entries (field doc (λ d. d.disabled_tools));
}

unfoldable pub get_tool_policy : Settings → ControlPlane → String → ℕ → ToolPolicy × ControlPlane
get_tool_policy settings plane tenant now =
    let (policy, cache) =
      read (cache_ttl settings) now tenant (normalize_policy (lookup tenant plane.tenants))
        plane.policy_cache in
    (policy, record plane { policy_cache = cache })

unfoldable pub matches_allowlist : String → String → List String → Bool
matches_allowlist server name allowlist =
    is_empty allowlist
    || (elem (fq_name server name) allowlist || elem (fq_name server "*") allowlist)

unfoldable pub is_tool_available : ToolPolicy → String → String → Bool
is_tool_available policy server name =
    if elem (fq_name server name) policy.disabled_tools
    then false
    else matches_allowlist server name policy.allowlist

-- The shortcut for a tenant that restricts nothing, and the comprehension.
unfoldable pub available_tools : ToolPolicy → List CatalogTool → List CatalogTool
available_tools policy tools =
    if is_empty policy.allowlist && is_empty policy.disabled_tools
    then tools
    else keep (λ t. is_tool_available policy t.server t.name) tools

unfoldable pub filter_available_tools :
    Settings → ControlPlane → String → List CatalogTool → ℕ → List CatalogTool × ControlPlane
unfolding available_tools
filter_available_tools settings plane tenant tools now =
    let (policy, plane') = get_tool_policy settings plane tenant now in
    (available_tools policy tools, plane')

unfoldable pub policy_update :
    Option (List String) → Option ℤ → Option String → ℕ → TenantDoc → TenantDoc
policy_update allowlist max_tools updated_by wall doc = record doc {
  tool_allowlist = some (clean_entries allowlist);
  max_tools = some (pos (coerce_cap max_tools));
  tool_policy_stamp = stamp wall updated_by;
  updated_at = wall;
}

-- `_store_cache`, where the document was found.
unfoldable pub store_policy : Settings → ControlPlane → String → Option TenantDoc → ℕ → ControlPlane
store_policy settings plane tenant none now = plane
store_policy settings plane tenant (some doc) now = record plane {
  policy_cache =
      write_through (cache_ttl settings) now tenant (normalize_policy (some doc))
        plane.policy_cache;
}

unfoldable pub set_tool_policy :
    Settings
    → ControlPlane
    → String
    → Option (List String)
    → Option ℤ
    → Option String
    → ℕ
    → ℕ
    → Option TenantDoc × ControlPlane
unfolding policy_update store_policy
set_tool_policy settings plane tenant allowlist max_tools updated_by wall now =
    let (doc, tenants) =
      find_and_modify tenant (policy_update allowlist max_tools updated_by wall) plane.tenants in
    (doc, store_policy settings (record plane { tenants = tenants }) tenant doc now)

abbrev entries : Option (List String) → List String
entries none = []
entries (some xs) = xs

pub enabled_update : String → Bool → Option String → ℕ → TenantDoc → TenantDoc
unfolding pull add_to_set
enabled_update fq enabled updated_by wall doc = record doc {
  disabled_tools =
      if enabled
      then map_option (pull fq) doc.disabled_tools
      else some (add_to_set fq (entries doc.disabled_tools));
  tool_policy_stamp = stamp wall updated_by;
  updated_at = wall;
}

pub set_tool_enabled :
    Settings
    → ControlPlane
    → String
    → String
    → String
    → Bool
    → Option String
    → ℕ
    → ℕ
    → Option TenantDoc × ControlPlane
unfolding enabled_update store_policy
set_tool_enabled settings plane tenant server name enabled updated_by wall now =
    let (doc, tenants) =
      find_and_modify tenant (enabled_update (fq_name server name) enabled updated_by wall)
        plane.tenants in
    (doc, store_policy settings (record plane { tenants = tenants }) tenant doc now)
