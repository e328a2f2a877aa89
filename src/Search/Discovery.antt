-- ===== src/Search/Discovery.antt =====
-- What a caller may discover, and what it may call.
use Prim.Native.String
use Prim.Native.String.append
use text.Mathlib.TextEquality.{starts_with_iff}
use m_gate.Prelude.{
  Bool, Bool-cases, List, String, [], and_left, and_right, any, ap, arith, elem, elem-sorted_set,
  eq_iff, false, inl, inr, is_empty, keep, map, none, not, refl, some, subst, sym, true, ◌&&◌, ◌==◌,
  ◌||◌, ◌∙◌, ◌∷◌, ◌≡◌, string_eq, nat_eq, pair_eq,
}
use m_gate.Authorization.{decide, intersects, invoke_role, server_scope}
use m_gate.Authorization.Decision.{decide-may_call, may_call}
use m_gate.Catalog.{CatalogTool}
use m_gate.Search.{
  allowed_servers, discovery_filter, drop_prefix, is_server_scope, match_tool, normalize_scopes,
  query_of, scope_filter, scopes_match, scopes_part, server_matches, server_part,
}
use m_gate.Tenant.Store.{ToolPolicy}
use m_gate.Tenant.ToolPolicy.{is_tool_available}

drop_prefix-append : (w s : String) → drop_prefix w (String.◌++◌ w s) ≡ s
unfolding drop_prefix
drop_prefix-append String.[] s = append.nil s
drop_prefix-append (String.◌∷◌ c w) s = rw (append.cons c w s) (drop_prefix-append w s)

-- A server scope names the server that is left of it.
server_scope-drop_prefix :
    (scope : String)
    → is_server_scope scope ≡ true
    → server_scope (drop_prefix "server:" scope) ≡ scope
server_scope-drop_prefix scope h =
    let (rest, joined) = (starts_with_iff scope "server:").0 h in
    subst (λ s. server_scope (drop_prefix "server:" s) ≡ s) joined
      (ap server_scope (drop_prefix-append "server:" rest))

named_servers :
    (server : String) (scopes : List String)
    → elem server (
        keep
          (λ s. not (s == ""))
          (map
            (drop_prefix "server:")
            (keep (λ scope. is_server_scope scope && not (scope == "server:*")) scopes)))
      ≡ true
    → elem (server_scope server) scopes ≡ true
named_servers server [] h = h
named_servers server (scope ∷ scopes) h =
    elim (Bool-cases (is_server_scope scope && not (scope == "server:*"))) [
      | inr other ↦ ground (arith, named_servers server scopes (rw other at h))
      | inl named ↦ elim (Bool-cases (drop_prefix "server:" scope == "")) [
        | inl empty ↦ ground (arith, named_servers server scopes (rw (named, map, empty) at h))
        | inr text ↦ elim (Bool-cases (server == drop_prefix "server:" scope)) [
          | inr away ↦
              ground (arith, named_servers server scopes (rw (named, map, text, away) at h))
          | inl here ↦
              let same : server_scope server ≡ scope =
                ap server_scope ((eq_iff server (drop_prefix "server:" scope)).0 here)
                ∙ server_scope-drop_prefix scope (and_left _ _ named) in
              ground (arith, eq_iff (server_scope server) scope, same)
        ]
      ]
    ]

kept-elem :
    (p : String → Bool) (s : String) (xs : List String)
    → elem s (keep p xs) ≡ true
    → elem s xs ≡ true
kept-elem p s [] h = h
kept-elem p s (x ∷ xs) h = elim (Bool-cases (p x)) [
  | inl e ↦
      let at : ((s == x) || elem s (keep p xs)) ≡ true = rw e at h in
      ground (arith, at, kept-elem p s xs)
  | inr e ↦ ground (arith, kept-elem p s xs (rw e at h))
]

intersects-more :
    (xs ys zs : List String)
    → ((s : String) → elem s ys ≡ true → elem s zs ≡ true)
    → intersects xs ys ≡ true
    → intersects xs zs ≡ true
intersects-more [] ys zs more h = h
intersects-more (x ∷ xs) ys zs more h = elim (Bool-cases (elem x ys)) [
  | inl e ↦ ground (arith, more x e)
  | inr e ↦ ground (arith, intersects-more xs ys zs more (rw e at h))
]

some_kept :
    (p q : String → Bool) (xs : List String)
    → any (λ s. p s && q s) xs ≡ true
    → (is_empty (keep p xs) ≡ false) × (is_empty (keep q (keep p xs)) ≡ false)
some_kept p q [] h = cc
some_kept p q (x ∷ xs) h = elim (Bool-cases (p x)) [
  | inl e ↦ elim (Bool-cases (q x)) [
    | inl k ↦ (rw e refl, rw (e, k) refl)
    | inr k ↦ (rw e refl, rw (e, k) (some_kept p q xs (rw (e, k) at h)).1)
  ]
  | inr e ↦ rw e (some_kept p q xs (rw e at h))
]

-- A scope of the caller's for tools, as opposed to one for a server.
abbrev pub has_tool_scope : List String → Bool
has_tool_scope scopes = any (λ s. not (s == "") && not (is_server_scope s)) scopes

server_found :
    (scopes cleaned : List String) (server : String)
    → ((s : String) → elem s cleaned ≡ true → elem s scopes ≡ true)
    → server_matches (server_part cleaned none) server ≡ true
    → (elem (server_scope server) scopes || elem "server:*" scopes) ≡ true
unfolding allowed_servers
server_found scopes cleaned server more h = elim (Bool-cases (elem "server:*" cleaned)) [
  | inl every ↦ ground (arith, more "server:*" every)
  | inr e ↦
      let named = named_servers server cleaned (sym (elem-sorted_set server _) ∙ (rw e at h)) in
      ground (arith, more (server_scope server) named)
]

normalized :
    (scopes : List String)
    → is_empty (keep (λ s. not (s == "")) scopes) ≡ false
    → normalize_scopes (some scopes) ≡ some (keep (λ s. not (s == "")) scopes)
unfolding normalize_scopes
normalized scopes h = rw h refl

match-cleaned :
    (scopes : List String) (tool : CatalogTool)
    → has_tool_scope scopes ≡ true
    → match_tool (discovery_filter (some scopes) none) tool ≡ true
    → let cleaned = keep (λ s. not (s == "")) scopes in
      (server_matches (server_part cleaned none) tool.server ≡ true)
      × (intersects tool.scopes (keep (λ s. not (is_server_scope s)) cleaned) ≡ true)
unfolding match_tool discovery_filter query_of scope_filter server_part
match-cleaned scopes tool has h =
    let cleaned = keep (λ s. not (s == "")) scopes in
    let own = keep (λ s. not (is_server_scope s)) cleaned in
    let (some_scope, some_tool_scope) =
      some_kept (λ s. not (s == "")) (λ s. not (is_server_scope s)) scopes has in
    let read : match_tool (query_of (some cleaned) none) tool ≡ true =
      subst (λ q. match_tool (query_of q none) tool ≡ true) (normalized scopes some_scope) h in
    let both : (server_matches (server_part cleaned none) tool.server
          && scopes_match (some own) tool.scopes)
        ≡ true =
      subst
        (λ q.
          (server_matches (server_part cleaned none) tool.server && scopes_match q tool.scopes)
          ≡ true)
        (asked own some_tool_scope) read in
    (and_left _ _ both, and_right (server_matches (server_part cleaned none) tool.server) _ both)
  where
    asked : (own : List String) → is_empty own ≡ false → scopes_part own ≡ some own
    asked own h = rw h refl

-- What `authorize_tool_call` decides on a tool that the tenant has, with the caller's scopes.
abbrev pub is_callable : ToolPolicy → List String → List String → CatalogTool → Bool
is_callable policy scopes roles tool =
    (decide tool policy tool.server tool.name scopes roles).allowed

pub found-is_callable :
    (policy : ToolPolicy) (scopes roles : List String) (tool : CatalogTool)
    → has_tool_scope scopes ≡ true
    → elem invoke_role roles ≡ true
    → match_tool (discovery_filter (some scopes) none) tool ≡ true
    → is_tool_available policy tool.server tool.name ≡ true
    → is_callable policy scopes roles tool ≡ true
unfolding is_tool_available may_call
found-is_callable policy scopes roles tool has invoke found available =
    let (server, shared) = match-cleaned scopes tool has found in
    let on_server =
      server_found scopes (keep (λ s. not (s == "")) scopes) tool.server
        (λ s. kept-elem (λ t. not (t == "")) s scopes) server in
    decide-may_call tool policy tool.server tool.name scopes roles
    ∙ ground (
      arith,
      invoke,
      available,
      on_server,
      intersects-more tool.scopes
          (keep (λ s. not (is_server_scope s)) (keep (λ s. not (s == "")) scopes)) scopes
          (λ s at.
            kept-elem (λ t. not (t == "")) s scopes
              (kept-elem (λ t. not (is_server_scope t)) s _ at))
          shared,
    )
