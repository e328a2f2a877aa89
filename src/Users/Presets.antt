-- ===== src/Users/Presets.antt =====
-- What a team account and a demo account may call, with the scopes that they are given.
use m_gate.Prelude.{
  ==_refl, Bool, Bool-cases, List, String, [], any, ap, arith, elem, elem-append, elem-sorted_set,
  eq_iff, false, fun_ext, inl, inr, is_empty, keep, length, lookup, not, or_default, refl, some,
  take, take_all, true, ℕ, ◌&&◌, ◌==◌, ◌||◌, ◌∙◌, ◌∷◌, ◌≡◌, ◌≤◌, string_eq, nat_eq, pair_eq,
}
use m_gate.Authorization.{Catalogs, authorize_tool_call, decide, get_tool, intersects, server_scope}
use m_gate.Authorization.Decision.{decide-may_call, may_call}
use m_gate.Catalog.{CatalogTool, find_tool}
use m_gate.Settings.{Settings}
use m_gate.Tenant.Store.{ControlPlane, ToolPolicy}
use m_gate.Tenant.ToolPolicy.{fq_name, get_tool_policy, matches_allowlist}
use m_gate.Users.Scopes.{
  derive_safe_scopes, is_readonly_tool, is_tool_scope, listing_limit, scopes_where, team_user_roles,
  tool_scopes,
}

elem-keep :
    (p : String → Bool) (scope : String) (scopes : List String)
    → elem scope (keep p scopes) ≡ (p scope && elem scope scopes)
elem-keep p scope [] = ground arith
elem-keep p scope (x ∷ xs) = elim (Bool-cases (scope == x)) [
  | inl same ↦
      let e : scope ≡ x = (eq_iff scope x).0 same in
      rw e (ground (arith, elem-keep p x xs, ==_refl x))
  | inr other ↦ ground (arith, elem-keep p scope xs)
]

-- Some tool that meets the test has the scope, among its own.
abbrev pub granted_by : (CatalogTool → Bool) → String → List CatalogTool → Bool
granted_by p scope tools = any (λ tool. p tool && elem scope (tool_scopes tool)) tools

elem-scopes_where :
    (p : CatalogTool → Bool) (scope : String) (tools : List CatalogTool)
    → elem scope (scopes_where p tools) ≡ granted_by p scope tools
unfolding scopes_where
elem-scopes_where p scope [] = refl
elem-scopes_where p scope (tool ∷ tools) = ground (
  arith,
  elem-scopes_where p scope tools,
  elem-append scope (tool_scopes tool) (scopes_where p tools),
)

-- The scope is one of a tool that only reads, and of no other tool.
abbrev pub is_safe_scope : List CatalogTool → String → Bool
is_safe_scope catalog scope =
    granted_by is_readonly_tool scope (take listing_limit catalog)
    && not (granted_by (λ tool. not (is_readonly_tool tool)) scope (take listing_limit catalog))

safe-of-parts :
    (a b : Bool) (scope : String) (safe unsafe : List String)
    → elem scope safe ≡ a
    → elem scope unsafe ≡ b
    → (not (elem scope unsafe) && elem scope safe) ≡ (a && not b)
safe-of-parts a b scope safe unsafe h k = ground arith

pub elem-derive_safe_scopes :
    (scope : String) (catalog : List CatalogTool)
    → elem scope (derive_safe_scopes catalog)
      ≡ ((scope == "server:*") || is_safe_scope catalog scope)
unfolding derive_safe_scopes
elem-derive_safe_scopes scope catalog =
    let docs = take listing_limit catalog in
    let safe = scopes_where is_readonly_tool docs in
    let unsafe = scopes_where (λ tool. not (is_readonly_tool tool)) docs in
    ap (λ b. (scope == "server:*") || b)
      (elem-sorted_set scope (keep (λ s. not (elem s unsafe)) safe)
        ∙ elem-keep (λ s. not (elem s unsafe)) scope safe
        ∙ safe-of-parts _ _ scope safe unsafe (elem-scopes_where is_readonly_tool scope docs)
            (elem-scopes_where (λ tool. not (is_readonly_tool tool)) scope docs))

abbrev pub team_may_call : List CatalogTool → ToolPolicy → String → String → CatalogTool → Bool
team_may_call catalog policy server name tool =
    not (elem (fq_name server name) policy.disabled_tools)
    && (matches_allowlist server name policy.allowlist
        && (is_empty tool.scopes
            || any (λ scope. (scope == "server:*") || is_safe_scope catalog scope) tool.scopes))

ladder :
    (disabled listed own_server every_server free shared : Bool)
    → every_server ≡ true
    → (not disabled && (listed && ((own_server || every_server) && (free || shared))))
      ≡ (not disabled && (listed && (free || shared)))
ladder disabled listed own_server every_server free shared h = ground arith

-- A team account, with its roles and the scopes derived from a catalog, may call a tool exactly if
-- the tool is not disabled, is on the allowlist, and has no scope at all, or the scope of all
-- servers, or a scope that a tool of the catalog that only reads has and no other tool.
pub decide-team_may_call :
    (catalog : List CatalogTool) (policy : ToolPolicy) (server name : String) (tool : CatalogTool)
    → (decide tool policy server name (derive_safe_scopes catalog) team_user_roles).allowed
      ≡ team_may_call catalog policy server name tool
unfolding may_call
decide-team_may_call catalog policy server name tool =
    let scopes = derive_safe_scopes catalog in
    let every_server : elem "server:*" scopes ≡ true = elem-derive_safe_scopes "server:*" catalog in
    let shared : intersects tool.scopes scopes
        ≡ any (λ scope. (scope == "server:*") || is_safe_scope catalog scope) tool.scopes =
      ap (λ f. any f tool.scopes) (fun_ext (λ scope. elem-derive_safe_scopes scope catalog)) in
    decide-may_call tool policy server name scopes team_user_roles
    ∙ ladder (elem (fq_name server name) policy.disabled_tools)
        (matches_allowlist server name policy.allowlist) (elem (server_scope server) scopes)
        (elem "server:*" scopes) (is_empty tool.scopes) (intersects tool.scopes scopes) every_server
    ∙ ap
        (λ b.
          not (elem (fq_name server name) policy.disabled_tools)
          && (matches_allowlist server name policy.allowlist && (is_empty tool.scopes || b)))
        shared

-- A tool that may write keeps its own scopes from being safe.
unsafe-not_safe :
    (server name scope : String) (tools : List CatalogTool) (tool : CatalogTool)
    → find_tool server name tools ≡ some tool
    → is_readonly_tool tool ≡ false
    → elem scope (tool_scopes tool) ≡ true
    → granted_by (λ t. not (is_readonly_tool t)) scope tools ≡ true
unfolding find_tool
unsafe-not_safe server name scope [] tool h w own = cc
unsafe-not_safe server name scope (t ∷ ts) tool h w own =
    elim (Bool-cases ((t.server == server) && (t.name == name))) [
      | inl here ↦
          let same : some t ≡ some tool = rw here at h in
          let it : t ≡ tool = cc in rw it (rw (w, own))
      | inr there ↦ ground (arith, unsafe-not_safe server name scope ts tool (rw there at h) w own)
    ]

granted-own :
    (p : CatalogTool → Bool) (scope : String) (tools : List CatalogTool)
    → is_tool_scope scope ≡ false
    → granted_by p scope tools ≡ false
unfolding tool_scopes
granted-own p scope [] h = refl
granted-own p scope (t ∷ ts) h =
    ground (arith, elem-keep is_tool_scope scope t.scopes, granted-own p scope ts h)

any-none :
    (p : String → Bool) (scopes : List String)
    → ((s : String) → elem s scopes ≡ true → p s ≡ false)
    → any p scopes ≡ false
any-none p [] h = refl
any-none p (x ∷ xs) h = rw (h x (rw (==_refl x))) (any-none p xs (λ s e. h s (ground arith)))

closed_by : (safe : Bool) {unsafe : Bool} → unsafe ≡ true → (safe && not unsafe) ≡ false
closed_by safe h = ground arith

neither : (a b : Bool) → a ≡ false → b ≡ false → (a || b) ≡ false
neither a b h k = ground arith

shut :
    (disabled listed free shared : Bool)
    → free ≡ false
    → shared ≡ false
    → (not disabled && (listed && (free || shared))) ≡ false
shut disabled listed free shared h k = ground arith

not_star :
    (scope : String) (scopes : List String)
    → elem scope scopes ≡ true
    → elem "server:*" scopes ≡ false
    → (scope == "server:*") ≡ false
not_star scope scopes own starless = elim (Bool-cases (scope == "server:*")) [
  | inl same ↦
      let bad : elem "server:*" scopes ≡ true = rw ((eq_iff scope "server:*").0 same) at own in cc
  | inr other ↦ other
]

no_safe_scope :
    (catalog : List CatalogTool) (server name scope : String) (tool : CatalogTool)
    → length catalog ≤ listing_limit
    → find_tool server name catalog ≡ some tool
    → is_readonly_tool tool ≡ false
    → elem scope tool.scopes ≡ true
    → is_safe_scope catalog scope ≡ false
unfolding tool_scopes
no_safe_scope catalog server name scope tool fits found writes own =
    elim (Bool-cases (is_tool_scope scope)) [
      | inl its_own ↦
          let held : elem scope (tool_scopes tool) ≡ true =
            elem-keep is_tool_scope scope tool.scopes ∙ rw (its_own, own) in
          rw (take_all listing_limit catalog fits) (
            closed_by (granted_by is_readonly_tool scope catalog)
              (unsafe-not_safe server name scope catalog tool found writes held))
      | inr servers ↦ rw (granted-own is_readonly_tool scope (take listing_limit catalog) servers)
    ]

-- The catalog fits into one listing, and has the tool that is named, which may write. It has scopes
-- of its own, and not that of all servers. Then a team account of the tenant may not call it.
pub authorize-team_refuses :
    (settings : Settings) (catalogs : Catalogs) (plane : ControlPlane) (tenant server name : String)
    (now : ℕ) (catalog : List CatalogTool) (tool : CatalogTool)
    → lookup (or_default (some tenant) settings.default_tenant_id) catalogs ≡ some catalog
    → length catalog ≤ listing_limit
    → find_tool server name catalog ≡ some tool
    → is_readonly_tool tool ≡ false
    → is_empty tool.scopes ≡ false
    → elem "server:*" tool.scopes ≡ false
    → (authorize_tool_call settings catalogs plane
        (some tenant)
        server
        name
        (some (derive_safe_scopes catalog))
        (some team_user_roles)
        now).0.allowed
      ≡ false
unfolding authorize_tool_call get_tool
authorize-team_refuses settings catalogs plane tenant server name now catalog tool at fits found
      writes scoped starless =
    let policy =
      (get_tool_policy settings plane (or_default (some tenant) settings.default_tenant_id)
        now).0 in
    let none_shared : any (λ scope. (scope == "server:*") || is_safe_scope catalog scope)
          tool.scopes
        ≡ false =
      any-none _ tool.scopes (λ scope own.
        neither (scope == "server:*") _ (not_star scope tool.scopes own starless)
          (no_safe_scope catalog server name scope tool fits found writes own)) in
    rw (at, found, authorize_tool_call)
      (decide-team_may_call catalog policy server name tool
        ∙ shut (elem (fq_name server name) policy.disabled_tools)
            (matches_allowlist server name policy.allowlist) (is_empty tool.scopes) _ scoped
            none_shared)
