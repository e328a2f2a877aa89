-- ===== src/Search/Ranked.antt =====
-- `_search_ranked`, the fusion of two rankings on the side of the gateway, and `search_tools` of
-- services/hybrid_search.py. The embedding, the database and the arithmetic on floats are parameters.
-- The scores that the documents carry, and the record of the path that was taken, are left out.
use m_gate.Prelude.{
  Bool, List, Option, Result, String, [], err, if◌then◌else◌, is_empty, length, lower, map, negsuc,
  not, ok, or_default, pos, false, some, none, suc, take, ℕ, ℤ, ◌-◌, ◌==◌, ◌>>=◌, ◌||◌, ◌∷◌,
  string_eq, nat_eq, pair_eq,
}
use m_gate.Catalog.{CatalogTool}
use m_gate.Search.{Hit, as_hit, fetch_always_included, given_limit, key_of, merge_pinned}
use m_gate.Search.Pipelines.{
  Pipeline, build_rank_fusion_pipeline, build_text_pipeline, build_vector_pipeline,
}
use m_gate.Settings.{Settings}

pub data SearchError : Type 0 where
  embedding_unavailable operation_failure encryption_error other_failure : SearchError

-- The client that is shared, and the one that does no encryption of its own.
pub data Client : Type 0 where
  shared bypassing : Client

-- `share` is `weight * (1 / (60 + rank))`. The weights are those of the settings.
pub record Engine (V F : Type 0) : Type 0 where
  pub embed_text : String → Result SearchError V
  pub aggregate : Client → Pipeline V F → ℤ → Result SearchError (List CatalogTool)
  pub float_zero : F
  pub plus : F → F → F
  pub share : F → ℕ → F
  pub less : F → F → Bool
  pub is_zero : F → Bool
  pub hybrid_vector_weight : F
  pub hybrid_text_weight : F

pub record Query (F : Type 0) : Type 0 where
  pub text : String
  pub vector_weight : Option F
  pub text_weight : Option F
  pub allowed_scopes : Option (List String)
  pub mode : Option String
  pub server : Option String

-- `xs[:n]`
abbrev pub sliced : ℤ → List CatalogTool → List CatalogTool
sliced (pos n) xs = take n xs
sliced (negsuc n) xs = take (length xs - suc n) xs

module _ {V F : Type 0} (x : Engine V F) where
  -- `by_key` and `scores` in one: each document once, in the order of their coming, with its score.
  unfoldable pub add_contribution :
      F → CatalogTool → List (CatalogTool × F) → List (CatalogTool × F)
  add_contribution contribution doc [] = (doc, x.plus x.float_zero contribution) ∷ []
  add_contribution contribution doc ((seen, score) ∷ entries) =
      let later = add_contribution contribution doc entries in
      if key_of seen == key_of doc
      then (seen, x.plus score contribution) ∷ entries
      else (seen, score) ∷ later

  unfoldable pub add_arm :
      F → ℕ → List CatalogTool → List (CatalogTool × F) → List (CatalogTool × F)
  unfolding add_contribution
  add_arm weight rank [] entries = entries
  add_arm weight rank (doc ∷ docs) entries =
      add_arm weight (suc rank) docs (add_contribution (x.share weight rank) doc entries)

  -- `sorted(..., reverse=True)`, which leaves equal ones in their order.
  unfoldable pub insert_scored : CatalogTool × F → List (CatalogTool × F) → List (CatalogTool × F)
  insert_scored entry [] = entry ∷ []
  insert_scored entry (e ∷ es) =
      let later = insert_scored entry es in if x.less entry.1 e.1 then e ∷ later else entry ∷ e ∷ es

  unfoldable pub sort_scored : List (CatalogTool × F) → List (CatalogTool × F)
  unfolding insert_scored
  sort_scored [] = []
  sort_scored (e ∷ es) = insert_scored e (sort_scored es)

  unfoldable pub fuse_rrf : List CatalogTool → List CatalogTool → F → F → ℤ → List CatalogTool
  unfolding add_arm sort_scored
  fuse_rrf vector_docs text_docs vector_weight text_weight output_limit =
      let entries = add_arm text_weight 1 text_docs (add_arm vector_weight 1 vector_docs []) in
      sliced output_limit (map (λ e. e.0) (sort_scored entries))

  -- `weight or self.settings...`
  abbrev pub weight_or : Option F → F → F
  weight_or none default = default
  weight_or (some weight) default = if x.is_zero weight then default else weight

module _ {V F : Type 0} (settings : Settings) (x : Engine V F) where
  unfoldable pub search_hybrid_app_side : Query F → V → ℤ → Result SearchError (List CatalogTool)
  unfolding build_vector_pipeline build_text_pipeline fuse_rrf
  search_hybrid_app_side q query_vector effective_limit =
      let limit = settings.hybrid_pipeline_limit in
      let vector =
        build_vector_pipeline query_vector settings.hybrid_num_candidates limit q.allowed_scopes
          q.server in
      let text = build_text_pipeline q.text limit q.allowed_scopes q.server in
      x.aggregate shared vector limit >>= λ vector_docs.
      x.aggregate shared text limit >>= λ text_docs. ok (
        fuse_rrf x vector_docs text_docs (weight_or x q.vector_weight x.hybrid_vector_weight)
          (weight_or x q.text_weight x.hybrid_text_weight) effective_limit)

  -- The answer of `$rankFusion`, or what comes in its place where the database cannot do it.
  abbrev pub or_app_side :
      Result SearchError (List CatalogTool)
      → Result SearchError (List CatalogTool)
      → Result SearchError (List CatalogTool)
  or_app_side (ok docs) fallback = ok docs
  or_app_side (err operation_failure) fallback = fallback
  or_app_side (err encryption_error) fallback = fallback
  or_app_side (err other) fallback = err other

  unfoldable pub search_text : Query F → ℤ → Result SearchError (List CatalogTool)
  unfolding build_text_pipeline
  search_text q effective_limit =
      x.aggregate shared (build_text_pipeline q.text effective_limit q.allowed_scopes q.server)
        effective_limit

  -- The modes that need the embedding.
  unfoldable pub search_with_vector :
      Query F → String → ℤ → V → Result SearchError (List CatalogTool)
  unfolding build_vector_pipeline build_rank_fusion_pipeline search_hybrid_app_side
  search_with_vector q mode effective_limit query_vector =
      let candidates = settings.hybrid_num_candidates in
      let app_side = search_hybrid_app_side q query_vector effective_limit in
      let fused =
        build_rank_fusion_pipeline q.text query_vector
          (weight_or x q.vector_weight x.hybrid_vector_weight)
          (weight_or x q.text_weight x.hybrid_text_weight) candidates settings.hybrid_pipeline_limit
          effective_limit settings.include_score_details q.allowed_scopes q.server in
      if mode == "vector"
      then x.aggregate shared
          (build_vector_pipeline query_vector candidates effective_limit q.allowed_scopes q.server)
          effective_limit
      else if settings.fusion_strategy == "app_side"
      then app_side
      else or_app_side (x.aggregate bypassing fused effective_limit) app_side

  -- Without an embedding the search falls back to the text.
  unfoldable pub or_lexical :
      Query F → String → ℤ → Result SearchError V → Result SearchError (List CatalogTool)
  unfolding search_with_vector search_text
  or_lexical q mode effective_limit (ok query_vector) =
      search_with_vector q mode effective_limit query_vector
  or_lexical q mode effective_limit (err embedding_unavailable) = search_text q effective_limit
  or_lexical q mode effective_limit (err other) = err other

  unfoldable pub search_ranked : Query F → String → ℤ → Result SearchError (List CatalogTool)
  unfolding search_text or_lexical
  search_ranked q mode effective_limit =
      if mode == "text"
      then search_text q effective_limit
      else or_lexical q mode effective_limit (x.embed_text q.text)

  -- The pinned tools go before those that were ranked.
  unfoldable pub with_pinned : Query F → List CatalogTool → ℤ → List CatalogTool → List Hit
  unfolding fetch_always_included merge_pinned
  with_pinned q catalog effective_limit ranked =
      let pinned = fetch_always_included q.allowed_scopes q.server catalog in
      if not settings.hybrid_pin_always_included || is_empty pinned
      then map (as_hit false) ranked
      else merge_pinned pinned ranked effective_limit

  unfoldable pub search_tools :
      Query F → Option ℤ → List CatalogTool → Result SearchError (List Hit)
  unfolding search_ranked with_pinned
  search_tools q limit catalog =
      let effective_limit = given_limit settings limit in
      search_ranked q (lower (or_default q.mode "hybrid")) effective_limit >>= λ ranked.
      ok (with_pinned q catalog effective_limit ranked)
