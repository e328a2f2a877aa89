-- ===== src/Search/Pipelines.antt =====
-- The aggregations that services/hybrid_search.py sends to the database. `V` is a vector of the
-- embedding, `F` a float. The names of the indexes and the projections, which choose fields, are not
-- in the stages.
use m_gate.Prelude.{Bool, List, Option, String, [], all, false, true, ℤ, ◌&&◌, ◌||◌, ◌∷◌}
use m_gate.Catalog.{CatalogTool}
use m_gate.Search.{ToolMatch, discovery_filter, match_tool}

-- A stage that stands alone. `vector_search` has its candidates, its limit and its
-- filter, and `projection` tells whether it shows how a score came about.
pub data Stage (V : Type 0) : Type 0 where
  vector_search : V → ℤ → ℤ → ToolMatch → Stage V
  text_search : String → Stage V
  matching : ToolMatch → Stage V
  projection : Bool → Stage V
  sort_by_score : Stage V
  at_most : ℤ → Stage V

-- `rank_fusion` has its two input pipelines, their weights, whether it tells of the scores, and the
-- stages after it.
pub data Pipeline (V F : Type 0) : Type 0 where
  plain : List (Stage V) → Pipeline V F
  rank_fusion : List (Stage V) → List (Stage V) → F → F → Bool → List (Stage V) → Pipeline V F

module _ {V F : Type 0} where
  unfoldable pub build_vector_pipeline :
      V → ℤ → ℤ → Option (List String) → Option String → Pipeline V F
  unfolding discovery_filter
  build_vector_pipeline query_vector num_candidates output_limit allowed server = plain (
      vector_search query_vector num_candidates output_limit (discovery_filter allowed server)
      ∷ projection false
      ∷ [])

  -- A missing filter is the query that every tool meets.
  unfoldable pub build_text_pipeline :
      String → ℤ → Option (List String) → Option String → Pipeline V F
  unfolding discovery_filter
  build_text_pipeline query output_limit allowed server = plain (
      text_search query
      ∷ matching (discovery_filter allowed server)
      ∷ projection false
      ∷ at_most output_limit
      ∷ [])

  unfoldable pub build_rank_fusion_pipeline :
      String → V → F → F → ℤ → ℤ → ℤ → Bool → Option (List String) → Option String → Pipeline V F
  unfolding discovery_filter
  build_rank_fusion_pipeline query query_vector vector_weight text_weight num_candidates
        pipeline_limit output_limit include_score_details allowed server =
      rank_fusion
        (vector_search query_vector num_candidates pipeline_limit (discovery_filter allowed server)
          ∷ [])
        (text_search query
          ∷ matching (discovery_filter allowed server)
          ∷ at_most pipeline_limit
          ∷ [])
        vector_weight text_weight include_score_details
        (projection include_score_details ∷ sort_by_score ∷ at_most output_limit ∷ [])

-- How the database reads a pipeline: which documents it may let through. A filter of
-- `$vectorSearch` and a `$match` keep those that meet the query; the other stages keep or drop any.
abbrev pub stage_admits : {V : Type 0} → CatalogTool → Stage V → Bool
stage_admits tool (vector_search v candidates limit query) = match_tool query tool
stage_admits tool (matching query) = match_tool query tool
stage_admits tool (text_search text) = true
stage_admits tool (projection details) = true
stage_admits tool sort_by_score = true
stage_admits tool (at_most n) = true

unfoldable pub admits : {V F : Type 0} → Pipeline V F → CatalogTool → Bool
admits (plain stages) tool = all (stage_admits tool) stages
admits (rank_fusion vector text vector_weight text_weight details after) tool =
    (all (stage_admits tool) vector || all (stage_admits tool) text)
    && all (stage_admits tool) after
