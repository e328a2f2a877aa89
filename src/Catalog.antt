-- ===== src/Catalog.antt =====
-- The documents of a tenant's `tool_catalog` collection that the services read. `none` is a field
-- that is not set.
use m_gate.Prelude.{
  Bool, List, Option, String, [], arith, eq_iff, if◌then◌else◌, none, some, ℤ, ◌&&◌, ◌==◌, ◌∷◌, ◌≡◌,
  string_eq, nat_eq, pair_eq,
}

pub record Metadata : Type 0 where
  pub transport : Option String
  pub wall_timeout_ms : Option ℤ
  pub requires_confirmation : Bool
  pub action_type : Option String
  pub always_included : Bool
  pub cacheable : Bool
  pub cache_ttl_seconds : Option ℤ
  pub invalidates : List String

pub record CatalogTool : Type 0 where
  pub server : String
  pub name : String
  pub scopes : List String
  pub metadata : Metadata

-- `find_one({"server": server, "name": name})`
unfoldable pub find_tool : String → String → List CatalogTool → Option CatalogTool
find_tool server name [] = none
find_tool server name (t ∷ ts) =
    if (t.server == server) && (t.name == name) then some t else find_tool server name ts

pub find_tool_sound :
    (server name : String) (ts : List CatalogTool) (t : CatalogTool)
    → find_tool server name ts ≡ some t
    → (t.server ≡ server) × (t.name ≡ name)
unfolding find_tool
find_tool_sound server name [] t h = cc
find_tool_sound server name (u ∷ ts) t h =
    ground (arith, eq_iff u.server server, eq_iff u.name name, find_tool_sound server name ts t)
