-- ===== src/Search.antt =====
-- services/hybrid_search.py: which tools a caller's scopes let it discover, and how pinned tools go
-- before those that a search has ranked. The ranking itself, a pipeline that the database runs, is a
-- parameter.
pub mod Answers
pub mod Discovery
pub mod Merged
pub mod Pipelines
pub mod Ranked
pub mod Results
pub mod Shown
use Prim.Native.String
use Prim.Native.Nat.{ℕ, ◌-◌, Ordering}
use m_gate.Prelude.{
  Bool, List, Option, String, [], clamp, elem, false, if◌then◌else◌, is_empty, keep, length, map,
  none, nonzero_or, not, or_default, some, sorted_set, starts_with, suc, true, zero, ℤ, ◌&&◌, ◌++◌,
  ◌==◌, ◌||◌, ◌∷◌, string_eq, nat_eq, pair_eq,
}
use m_gate.Authorization.{intersects}
use m_gate.Catalog.{CatalogTool}
use m_gate.Settings.{Settings}
use m_gate.Users.Scopes.{tool_scopes}

-- A part of a query on `server`: none, an equation, or `$in`.
pub data ServerMatch : Type 0 where
  any_server : ServerMatch
  this_server : String → ServerMatch
  one_of : List String → ServerMatch

-- A query on the catalog; `scopes` is the list of an `$in`, if it is asked for.
pub record ToolMatch : Type 0 where
  pub scopes : Option (List String)
  pub server : ServerMatch

unfoldable pub normalize_scopes : Option (List String) → Option (List String)
normalize_scopes none = none
normalize_scopes (some allowed) =
    let cleaned = keep (λ s. not (s == "")) allowed in
    if is_empty cleaned then none else some cleaned

-- What is left of a text after a prefix that it has.
unfoldable pub drop_prefix : String → String → String
drop_prefix String.[] s = s
drop_prefix (String.◌∷◌ c w) String.[] = String.[]
drop_prefix (String.◌∷◌ c w) (String.◌∷◌ d s) = drop_prefix w s

abbrev pub is_server_scope : String → Bool
is_server_scope scope = starts_with scope "server:"

unfoldable pub allowed_servers : List String → List String
unfolding drop_prefix sorted_set
allowed_servers scopes =
    let named = keep (λ scope. is_server_scope scope && not (scope == "server:*")) scopes in
    sorted_set (keep (λ s. not (s == "")) (map (drop_prefix "server:") named))

abbrev pub scopes_part : List String → Option (List String)
scopes_part tool_scopes = if is_empty tool_scopes then none else some tool_scopes

abbrev pub is_named : Option String → Bool
is_named none = false
is_named (some s) = not (s == "")

abbrev pub server_part : List String → Option String → ServerMatch
unfolding allowed_servers
server_part scopes server =
    if is_named server
    then this_server (or_default server "")
    else if elem "server:*" scopes
    then any_server
    else one_of (allowed_servers scopes)

unfoldable pub scope_filter : List String → Option String → ToolMatch
unfolding server_part
scope_filter scopes server = record {
  scopes = scopes_part (keep (λ scope. not (is_server_scope scope)) scopes);
  server = server_part scopes server;
}

abbrev pub query_of : Option (List String) → Option String → ToolMatch
unfolding scope_filter
query_of (some scopes) server = scope_filter scopes server
query_of none server = record {
  scopes = none;
  server = if is_named server then this_server (or_default server "") else any_server;
}

-- The query that list_tools, the two arms of a search and the pinned tools have in common.
unfoldable pub discovery_filter : Option (List String) → Option String → ToolMatch
unfolding normalize_scopes query_of
discovery_filter allowed server = query_of (normalize_scopes allowed) server

-- How the database reads such a query.
abbrev pub server_matches : ServerMatch → String → Bool
server_matches any_server server = true
server_matches (this_server s) server = server == s
server_matches (one_of servers) server = elem server servers

abbrev pub scopes_match : Option (List String) → List String → Bool
scopes_match none scopes = true
scopes_match (some wanted) scopes = intersects scopes wanted

unfoldable pub match_tool : ToolMatch → CatalogTool → Bool
match_tool match tool =
    server_matches match.server tool.server && scopes_match match.scopes tool.scopes

-- The order by server and name.
abbrev pub comes_before : CatalogTool → CatalogTool → Bool
comes_before a b = elim (String.compare a.server b.server) [
  | Ordering.lt ↦ true
  | Ordering.gt ↦ false
  | Ordering.eq ↦ elim (String.compare a.name b.name) [
    | Ordering.lt ↦ true
    | Ordering.eq ↦ true
    | Ordering.gt ↦ false
  ]
]

unfoldable pub insert_tool : CatalogTool → List CatalogTool → List CatalogTool
insert_tool tool [] = tool ∷ []
insert_tool tool (t ∷ ts) =
    let rest = insert_tool tool ts in if comes_before tool t then tool ∷ t ∷ ts else t ∷ rest

unfoldable pub sort_tools : List CatalogTool → List CatalogTool
unfolding insert_tool
sort_tools [] = []
sort_tools (t ∷ ts) = insert_tool t (sort_tools ts)

-- What `list_tools` goes through, before it cuts out a page.
unfoldable pub listed_tools :
    Option (List String) → Option String → List CatalogTool → List CatalogTool
unfolding discovery_filter match_tool sort_tools
listed_tools allowed server catalog =
    sort_tools (keep (match_tool (discovery_filter allowed server)) catalog)

unfoldable pub fetch_always_included :
    Option (List String) → Option String → List CatalogTool → List CatalogTool
unfolding discovery_filter match_tool sort_tools
fetch_always_included allowed server catalog = sort_tools (
    keep
      (λ tool. tool.metadata.always_included && match_tool (discovery_filter allowed server) tool)
      catalog)

-- A tool in an answer, with the tag that a pinned one gets.
pub record Hit : Type 0 where
  pub tool : CatalogTool
  pub pinned : Bool

abbrev pub key_of : CatalogTool → String × String
key_of tool = (tool.server, tool.name)

-- The first loop of `_merge_pinned`: each key once.
unfoldable pub first_of_each : List (String × String) → List CatalogTool → List CatalogTool
first_of_each seen [] = []
first_of_each seen (t ∷ ts) = elim (elem (key_of t) seen) [
  | true ↦ first_of_each seen ts
  | false ↦ t ∷ first_of_each (key_of t ∷ seen) ts
]

-- The second loop: no key that was seen, and no more than the seats that remain.
unfoldable pub fill_seats : ℕ → List (String × String) → List CatalogTool → List CatalogTool
fill_seats zero seen ts = []
fill_seats (suc n) seen [] = []
fill_seats (suc n) seen (t ∷ ts) = elim (elem (key_of t) seen) [
  | true ↦ fill_seats (suc n) seen ts
  | false ↦ t ∷ fill_seats n (key_of t ∷ seen) ts
]

abbrev pub as_hit : Bool → CatalogTool → Hit
as_hit pinned tool = record { tool = tool; pinned = pinned }

unfoldable pub merge_pinned : List CatalogTool → List CatalogTool → ℤ → List Hit
unfolding first_of_each fill_seats
merge_pinned pinned ranked output_limit =
    let merged = first_of_each [] pinned in
    map (as_hit true) merged
    ++ map (as_hit false)
        (fill_seats (clamp output_limit - length merged) (map key_of merged) ranked)

-- `limit or settings.hybrid_output_limit`
abbrev pub given_limit : Settings → Option ℤ → ℤ
given_limit settings none = settings.hybrid_output_limit
given_limit settings (some n) = nonzero_or n settings.hybrid_output_limit
