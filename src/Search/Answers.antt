-- ===== src/Search/Answers.antt =====
-- What the modes of a search answer, when the database obeys the filters.
use m_gate.Prelude.{
  Bool, Bool-cases, List, Option, Result, String, all, ap, arith, err, false, if◌then◌else◌, inl,
  inr, is_empty, lower, not, ok, or_default, refl, subst, true, ℤ, ◌==◌, ◌>>=◌, ◌||◌, ◌∙◌, ◌≡◌,
  string_eq, nat_eq, pair_eq,
}
use m_gate.Catalog.{CatalogTool}
use m_gate.Search.{Hit, discovery_filter, fetch_always_included, given_limit, match_tool}
use m_gate.Search.Pipelines.{
  Pipeline, admits, build_rank_fusion_pipeline, build_text_pipeline, build_vector_pipeline,
}
use m_gate.Search.Ranked.{
  Client, Engine, Query, SearchError, bypassing, embedding_unavailable, encryption_error,
  operation_failure, or_app_side, or_lexical, other_failure, search_hybrid_app_side, search_ranked,
  search_text, search_tools, search_with_vector, shared, with_pinned,
}
use m_gate.Search.Results.{
  all-fuse_rrf, all-hits, all-implied, all-keep_more, all-merge_pinned, all-sort_tools,
}
use m_gate.Settings.{Settings}

-- If there is an answer, it has the property.
Good : {A : Type 0} → (A → Type 0) → Result SearchError A → Type 0
Good {A} P r = (a : A) → r ≡ ok a → P a

Good-bind :
    {A B : Type 0} (P : A → Type 0) (Q : B → Type 0) (r : Result SearchError A)
    (f : A → Result SearchError B)
    → Good P r
    → ((a : A) → P a → Good Q (f a))
    → Good Q (r >>= f)
unfolding Good
Good-bind P Q (err e) f h k b same = cc
Good-bind P Q (ok a) f h k b same = k a (h a refl) b same

Good-ok : {A : Type 0} (P : A → Type 0) (a : A) → P a → Good P (ok a)
unfolding Good
Good-ok {A} P a h b same = subst P (ok_inj same) h
  where
    value : A → Result SearchError A → A
    value c (ok b) = b
    value c (err e) = c

    ok_inj : {b : A} → ◌≡◌ {A = Result SearchError A} (ok a) (ok b) → a ≡ b
    ok_inj e = ap (value a) e

Good-err : {A : Type 0} (P : A → Type 0) (e : SearchError) → Good P (err e)
unfolding Good
Good-err P e a same = cc

Good-if :
    {A : Type 0} (P : A → Type 0) (b : Bool) (r s : Result SearchError A)
    → Good P r
    → Good P s
    → Good P (if b then r else s)
Good-if P true r s h k = h
Good-if P false r s h k = k

module _ {V F : Type 0} (settings : Settings) (x : Engine V F)
    (obeys : (client : Client) (pipeline : Pipeline V F) (n : ℤ) (docs : List CatalogTool)
      → x.aggregate client pipeline n ≡ ok docs
      → all (admits pipeline) docs ≡ true)
    (q : Query F) where
  -- The query that the caller's scopes make.
  abbrev asked : CatalogTool → Bool
  asked = match_tool (discovery_filter q.allowed_scopes q.server)

  abbrev Asked : List CatalogTool → Type 0
  Asked docs = all asked docs ≡ true

  aggregated :
      (client : Client) (pipeline : Pipeline V F) (n : ℤ)
      → ((t : CatalogTool) → admits pipeline t ≡ true → asked t ≡ true)
      → Good Asked (x.aggregate client pipeline n)
  unfolding Good
  aggregated client pipeline n narrow docs same =
      all-implied asked (admits pipeline) docs narrow (obeys client pipeline n docs same)

  vector-asked :
      (v : V) (candidates limit : ℤ) (t : CatalogTool)
      → admits {F = F} (build_vector_pipeline v candidates limit q.allowed_scopes q.server) t ≡ true
      → asked t ≡ true
  unfolding admits build_vector_pipeline
  vector-asked v candidates limit t h = ground (arith, h)

  text-asked :
      (text : String) (limit : ℤ) (t : CatalogTool)
      → admits {V = V} {F = F} (build_text_pipeline text limit q.allowed_scopes q.server) t ≡ true
      → asked t ≡ true
  unfolding admits build_text_pipeline
  text-asked text limit t h = ground (arith, h)

  fusion-asked :
      (text : String) (v : V) (f g : F) (candidates limit output : ℤ) (details : Bool)
      (t : CatalogTool)
      → admits
          (build_rank_fusion_pipeline text v f g candidates limit output details q.allowed_scopes
            q.server)
          t
        ≡ true
      → asked t ≡ true
  unfolding admits build_rank_fusion_pipeline
  fusion-asked text v f g candidates limit output details t h = ground (arith, h)

  app_side-Good : (v : V) (limit : ℤ) → Good Asked (search_hybrid_app_side settings x q v limit)
  unfolding search_hybrid_app_side
  app_side-Good v limit =
      Good-bind Asked Asked _ _ (aggregated shared _ _ (vector-asked v _ _)) (λ vector at.
        Good-bind Asked Asked _ _ (aggregated shared _ _ (text-asked q.text _))
          (λ text here. Good-ok Asked _ (all-fuse_rrf asked x vector text _ _ limit at here)))

  text-Good : (limit : ℤ) → Good Asked (search_text settings x q limit)
  unfolding search_text
  text-Good limit = aggregated shared _ limit (text-asked q.text limit)

  or_app_side-Good :
      (r s : Result SearchError (List CatalogTool))
      → Good Asked r
      → Good Asked s
      → Good Asked (or_app_side settings x r s)
  or_app_side-Good (ok docs) s h k = h
  or_app_side-Good (err operation_failure) s h k = k
  or_app_side-Good (err encryption_error) s h k = k
  or_app_side-Good (err embedding_unavailable) s h k = h
  or_app_side-Good (err other_failure) s h k = h

  vector-Good :
      (mode : String) (limit : ℤ) (v : V)
      → Good Asked (search_with_vector settings x q mode limit v)
  unfolding search_with_vector
  vector-Good mode limit v =
      Good-if Asked (mode == "vector") _ _ (aggregated shared _ limit (vector-asked v _ limit)) (
        Good-if Asked (settings.fusion_strategy == "app_side") _ _ (app_side-Good v limit) (
          or_app_side-Good _ _
            (aggregated bypassing _ limit (fusion-asked q.text v _ _ _ _ limit _))
            (app_side-Good v limit)))

  lexical-Good :
      (mode : String) (limit : ℤ) (r : Result SearchError V)
      → Good Asked (or_lexical settings x q mode limit r)
  unfolding or_lexical
  lexical-Good mode limit (ok v) = vector-Good mode limit v
  lexical-Good mode limit (err embedding_unavailable) = text-Good limit
  lexical-Good mode limit (err operation_failure) = Good-err Asked operation_failure
  lexical-Good mode limit (err encryption_error) = Good-err Asked encryption_error
  lexical-Good mode limit (err other_failure) = Good-err Asked other_failure

  ranked-Good : (mode : String) (limit : ℤ) → Good Asked (search_ranked settings x q mode limit)
  unfolding search_ranked
  ranked-Good mode limit =
      Good-if Asked (mode == "text") _ _ (text-Good limit)
        (lexical-Good mode limit (x.embed_text q.text))

  pinned-asked :
      (catalog : List CatalogTool) (limit : ℤ) (ranked : List CatalogTool)
      → Asked ranked
      → all (λ h. asked h.tool) (with_pinned settings x q catalog limit ranked) ≡ true
  unfolding with_pinned fetch_always_included
  pinned-asked catalog limit ranked h =
      let pinned = fetch_always_included q.allowed_scopes q.server catalog in
      let k : all asked pinned ≡ true =
        all-sort_tools asked _
        ∙ all-keep_more asked (λ tool. tool.metadata.always_included) catalog in
      elim (Bool-cases (not settings.hybrid_pin_always_included || is_empty pinned)) [
        | inl e ↦ rw e (all-hits asked false ranked h)
        | inr e ↦ rw e (all-merge_pinned asked pinned ranked limit k h)
      ]

  -- Every tool of an answer meets the query of the caller's scopes, pinned or not.
  pub search_tools-match_tool :
      (limit : Option ℤ) (catalog : List CatalogTool) (hits : List Hit)
      → search_tools settings x q limit catalog ≡ ok hits
      → all (λ h. asked h.tool) hits ≡ true
  unfolding search_tools Good
  search_tools-match_tool limit catalog hits same =
      let effective = given_limit settings limit in
      Good-bind Asked (λ hits. all (λ h. asked h.tool) hits ≡ true) _ _
        (ranked-Good (lower (or_default q.mode "hybrid")) effective)
        (λ ranked h.
          Good-ok (λ hits. all (λ h. asked h.tool) hits ≡ true) _
            (pinned-asked catalog effective ranked h))
        hits same
