-- ===== src/Users/Scopes.antt =====
-- services/users.py: the scopes that the presets for demo, viewer and team accounts are given.
use m_gate.Prelude.{
  Bool, List, String, [], elem, false, if◌then◌else◌, keep, lower, none, not, some, sorted_set,
  starts_with, strip, take, true, ℕ, ◌&&◌, ◌++◌, ◌==◌, ◌∷◌, string_eq, nat_eq, pair_eq,
}
use m_gate.Catalog.{CatalogTool}

abbrev pub demo_user_roles : List String
demo_user_roles = "user" ∷ "tool:invoke" ∷ []

abbrev pub viewer_user_roles : List String
viewer_user_roles = "user" ∷ "viewer" ∷ "tool:read" ∷ []

abbrev pub team_user_roles : List String
team_user_roles = "user" ∷ "tool:invoke" ∷ []

abbrev pub action_type_of : CatalogTool → String
action_type_of tool = elim tool.metadata.action_type [ none ↦ "" | some s ↦ s ]

unfoldable pub is_readonly_tool : CatalogTool → Bool
unfolding strip lower
is_readonly_tool tool =
    let action = lower (strip (action_type_of tool)) in
    if elem action ("write" ∷ "destructive" ∷ [])
    then false
    else if action == "read"
    then true
    else elem "readonly" tool.scopes

-- A scope of a tool itself, not one of a server.
abbrev pub is_tool_scope : String → Bool
is_tool_scope scope = not (scope == "") && not (starts_with scope "server:")

unfoldable pub tool_scopes : CatalogTool → List String
tool_scopes tool = keep is_tool_scope tool.scopes

-- The scopes of the tools that meet a test.
unfoldable pub scopes_where : (CatalogTool → Bool) → List CatalogTool → List String
unfolding tool_scopes
scopes_where p [] = []
scopes_where p (tool ∷ tools) =
    let rest = scopes_where p tools in if p tool then tool_scopes tool ++ rest else rest

-- `to_list(length=10_000)`
unfoldable pub listing_limit : ℕ
listing_limit = 10000

unfoldable pub derive_safe_scopes : List CatalogTool → List String
unfolding is_readonly_tool scopes_where sorted_set
derive_safe_scopes catalog =
    let docs = take listing_limit catalog in
    let safe = scopes_where is_readonly_tool docs in
    let unsafe = scopes_where (λ tool. not (is_readonly_tool tool)) docs in
    "server:*" ∷ sorted_set (keep (λ scope. not (elem scope unsafe)) safe)

unfoldable pub derive_demo_scopes : List CatalogTool → List String
unfolding scopes_where sorted_set
derive_demo_scopes catalog =
    "server:*" ∷ sorted_set (scopes_where (λ tool. true) (take listing_limit catalog))
