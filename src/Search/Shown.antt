-- ===== src/Search/Shown.antt =====
-- What tools/list and tools/search show, after the curation.
use m_gate.Prelude.{
  Bool-cases, List, Option, String, [], all, all-keep, and_left, and_right, ap, elem, inl, inr,
  keep, map, none, ok, refl, some, true, ℤ, ◌∙◌, ◌∷◌, ◌≡◌, string_eq, nat_eq, pair_eq,
}
use m_gate.Authorization.{invoke_role}
use m_gate.Catalog.{CatalogTool}
use m_gate.Search.{Hit, discovery_filter, listed_tools, match_tool}
use m_gate.Search.Answers.{search_tools-match_tool}
use m_gate.Search.Discovery.{found-is_callable, has_tool_scope, is_callable}
use m_gate.Search.Pipelines.{Pipeline, admits}
use m_gate.Search.Ranked.{Client, Engine, Query, search_tools}
use m_gate.Search.Results.{all-sort_tools}
use m_gate.Settings.{Settings}
use m_gate.Tenant.Store.{ToolPolicy}
use m_gate.Tenant.ToolPolicy.{available_tools, is_tool_available}
use m_gate.Tenant.ToolPolicy.Discovery.{available_tools-keep}

module _ (policy : ToolPolicy) (scopes roles : List String) (has : has_tool_scope scopes ≡ true)
    (invoke : elem invoke_role roles ≡ true) where
  -- The tools of a list that the caller's scopes match, without those that the curation hides.
  curated :
      (tools : List CatalogTool)
      → all (match_tool (discovery_filter (some scopes) none)) tools ≡ true
      → all
          (is_callable policy scopes roles)
          (keep (λ t. is_tool_available policy t.server t.name) tools)
        ≡ true
  curated [] h = refl
  curated (t ∷ ts) h =
      let rest = curated ts (and_right (match_tool (discovery_filter (some scopes) none) t) _ h) in
      elim (Bool-cases (is_tool_available policy t.server t.name)) [
        | inl e ↦
            rw
              (
                e,
                found-is_callable policy scopes roles t has invoke
                    (and_left (match_tool (discovery_filter (some scopes) none) t) _ h) e,
              )
              rest
        | inr e ↦ rw e rest
      ]

  tools_of :
      (hits : List Hit)
      → all (λ h. match_tool (discovery_filter (some scopes) none) h.tool) hits ≡ true
      → all (match_tool (discovery_filter (some scopes) none)) (map (λ h. h.tool) hits) ≡ true
  tools_of [] h = refl
  tools_of (x ∷ xs) h =
      rw (and_left (match_tool (discovery_filter (some scopes) none) x.tool) _ h)
        (tools_of xs (and_right (match_tool (discovery_filter (some scopes) none) x.tool) _ h))

  -- A caller with the invoke role has a scope for tools, besides those for servers. The database
  -- gives only documents that the filters of the pipeline that it was sent admit. Then the caller may
  -- call each tool that the full list shows it after the curation, and each that a search that
  -- succeeds shows it after the curation, pinned or not, in every mode and after every fallback.
  pub shown-is_callable :
      {V F : Type 0} (settings : Settings) (x : Engine V F)
      → ((client : Client) (pipeline : Pipeline V F) (n : ℤ) (docs : List CatalogTool)
          → x.aggregate client pipeline n ≡ ok docs
          → all (admits pipeline) docs ≡ true)
      → (q : Query F) (limit : Option ℤ) (catalog : List CatalogTool) (hits : List Hit)
      → q.allowed_scopes ≡ some scopes
      → q.server ≡ none
      → search_tools settings x q limit catalog ≡ ok hits
      → (all
            (is_callable policy scopes roles)
            (available_tools policy (listed_tools (some scopes) none catalog))
          ≡ true)
        × (all (is_callable policy scopes roles) (available_tools policy (map (λ h. h.tool) hits))
            ≡ true)
  unfolding listed_tools
  shown-is_callable settings x obeys q limit catalog hits own any answer =
      let p = match_tool (discovery_filter (some scopes) none) in
      let matched : all (λ h. p h.tool) hits ≡ true =
        rw (own, any) at (search_tools-match_tool settings x obeys q limit catalog hits answer) in
      (
        ap (all (is_callable policy scopes roles)) (available_tools-keep policy _)
            ∙ curated _ (all-sort_tools p _ ∙ all-keep p catalog),
        ap (all (is_callable policy scopes roles)) (available_tools-keep policy _)
            ∙ curated _ (tools_of _ matched),
      )
