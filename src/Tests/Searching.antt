-- ===== src/Tests/Searching.antt =====
-- Discovery at concrete inputs.
use m_gate.Prelude.{
  List, Result, String, [], all, all-keep, ap, clamp, elem, err, false, keep, length, lower, ltb,
  map, max, none, ok, pos, refl, some, subst, true, ℕ, ℤ, ◌+◌, ◌/◌, ◌==◌, ◌∷◌, ◌≡◌, ◌≤◌, string_eq,
  nat_eq, pair_eq,
}
use m_gate.Catalog.{CatalogTool}
use m_gate.Search.{Hit, as_hit, discovery_filter, key_of, listed_tools, match_tool, merge_pinned}
use m_gate.Search.Discovery.{is_callable}
use m_gate.Search.Merged.{distinct, keys, merge_pinned-keys}
use m_gate.Search.Pipelines.{Pipeline, admits}
use m_gate.Search.Ranked.{
  Client, Engine, Query, SearchError, bypassing, operation_failure, search_hybrid_app_side,
  search_tools, shared,
}
use m_gate.Search.Shown.{shown-is_callable}
use m_gate.Tenant.Store.{ToolPolicy}
use m_gate.Tenant.ToolPolicy.{available_tools}
use m_gate.Tests.Fixtures.{send, settings}

abbrev policy : ToolPolicy
policy = record { allowlist = []; disabled_tools = "mail/old" ∷ []; max_tools = 0 }

-- A pinned tool, and one of another server.
abbrev digest : CatalogTool
digest = record send { name = "digest"; metadata = record send.metadata { always_included = true } }

abbrev pay : CatalogTool
pay = record send { server = "bank"; name = "pay" }

abbrev catalog : List CatalogTool
catalog = send ∷ pay ∷ digest ∷ []

abbrev own_scopes : List String
own_scopes = "server:mail" ∷ "" ∷ "mail:send" ∷ []

-- A database without `$rankFusion`; floats are thousandths, rounded down.
abbrev answer_of : Client → Pipeline ℕ ℕ → Result SearchError (List CatalogTool)
answer_of shared pipeline = ok (keep (admits pipeline) catalog)
answer_of bypassing pipeline = err operation_failure

abbrev engine : Engine ℕ ℕ
engine = record {
  embed_text = λ text. ok 7;
  aggregate = λ client pipeline n. answer_of client pipeline;
  float_zero = 0;
  plus = λ a b. a + b;
  share = λ weight rank. weight / (60 + rank);
  less = ltb;
  is_zero = λ a. a == 0;
  hybrid_vector_weight = 500;
  hybrid_text_weight = 500;
}

obeys :
    (client : Client) (pipeline : Pipeline ℕ ℕ) (n : ℤ) (docs : List CatalogTool)
    → engine.aggregate client pipeline n ≡ ok docs
    → all (admits pipeline) docs ≡ true
obeys shared pipeline n docs same =
    subst (λ ts. all (admits pipeline) ts ≡ true) (ap value same)
      (all-keep (admits pipeline) catalog)
  where
    value : Result SearchError (List CatalogTool) → List CatalogTool
    value (ok ts) = ts
    value (err e) = []
obeys bypassing pipeline n docs same = cc

abbrev query : Query ℕ
query = record {
  text = "send a mail";
  vector_weight = none;
  text_weight = some 0;
  allowed_scopes = some own_scopes;
  mode = none;
  server = none;
}

abbrev hits : List Hit
hits = as_hit true digest ∷ as_hit false send ∷ []

-- The fusion falls back to the gateway's own; the pinned tool comes first, and once, and a tool of
-- another server is not shown.
searched_run : search_tools settings engine query none catalog ≡ ok hits
unfolding search_tools search_hybrid_app_side admits match_tool discovery_filter lower
searched_run = refl

shown-is_callable_example :
    (all
        (is_callable policy own_scopes ("tool:invoke" ∷ []))
        (available_tools policy (listed_tools (some own_scopes) none catalog))
      ≡ true)
    × (all
          (is_callable policy own_scopes ("tool:invoke" ∷ []))
          (available_tools policy (map (λ h. h.tool) hits))
        ≡ true)
shown-is_callable_example =
    shown-is_callable policy own_scopes ("tool:invoke" ∷ []) refl refl settings engine obeys query
      none catalog hits refl refl searched_run

merge_pinned-keys_example :
    let answer = merge_pinned (digest ∷ digest ∷ []) (send ∷ digest ∷ pay ∷ []) (pos 2) in
    (distinct (keys answer) ≡ true)
    × (elem ("mail", "digest") (keys (keep (λ h. h.pinned) answer))
        ≡ elem ("mail", "digest") (map key_of (digest ∷ digest ∷ [])))
    × length answer ≤ max (clamp (pos 2)) (length (digest ∷ digest ∷ []))
merge_pinned-keys_example =
    merge_pinned-keys (digest ∷ digest ∷ []) (send ∷ digest ∷ pay ∷ []) (pos 2) ("mail", "digest")
