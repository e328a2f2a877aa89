-- ===== src/Search/Results.antt =====
-- The lists that a search makes of tools: what held of the tools given holds of those that come out.
use m_gate.Prelude.{
  Bool, Bool-cases, List, String, [], all, and_left, and_right, arith, elem, false, inl, inr, keep,
  length, map, negsuc, pos, refl, suc, take, true, zero, ℕ, ℤ, ◌&&◌, ◌++◌, ◌-◌, ◌==◌, ◌∷◌, ◌≡◌,
  string_eq, nat_eq, pair_eq,
}
use m_gate.Catalog.{CatalogTool}
use m_gate.Search.{
  Hit, as_hit, comes_before, fill_seats, first_of_each, insert_tool, key_of, merge_pinned,
  sort_tools,
}
use m_gate.Search.Ranked.{
  Engine, add_arm, add_contribution, fuse_rrf, insert_scored, sliced, sort_scored,
}

module _ (p : CatalogTool → Bool) where
  all-insert_tool :
      (t : CatalogTool) (ts : List CatalogTool) → all p (insert_tool t ts) ≡ (p t && all p ts)
  unfolding insert_tool
  all-insert_tool t [] = ground arith
  all-insert_tool t (u ∷ us) = elim (Bool-cases (comes_before t u)) [
    | inl e ↦ rw e refl
    | inr e ↦ rw e (ground (arith, all-insert_tool t us))
  ]

  pub all-sort_tools : (ts : List CatalogTool) → all p (sort_tools ts) ≡ all p ts
  unfolding sort_tools
  all-sort_tools [] = refl
  all-sort_tools (t ∷ ts) = ground (arith, all-insert_tool t (sort_tools ts), all-sort_tools ts)

  pub all-first_of_each :
      (seen : List (String × String)) (ts : List CatalogTool)
      → all p ts ≡ true
      → all p (first_of_each seen ts) ≡ true
  unfolding first_of_each
  all-first_of_each seen [] h = refl
  all-first_of_each seen (t ∷ ts) h = elim (Bool-cases (elem (key_of t) seen)) [
    | inl e ↦ rw (e, all) (all-first_of_each seen ts (and_right (p t) _ h))
    | inr e ↦
        rw (e, all, and_left (p t) _ h)
          (all-first_of_each (key_of t ∷ seen) ts (and_right (p t) _ h))
  ]

  pub all-fill_seats :
      (n : ℕ) (seen : List (String × String)) (ts : List CatalogTool)
      → all p ts ≡ true
      → all p (fill_seats n seen ts) ≡ true
  unfolding fill_seats
  all-fill_seats zero seen ts h = refl
  all-fill_seats (suc n) seen [] h = refl
  all-fill_seats (suc n) seen (t ∷ ts) h = elim (Bool-cases (elem (key_of t) seen)) [
    | inl e ↦ rw (e, all) (all-fill_seats (suc n) seen ts (and_right (p t) _ h))
    | inr e ↦
        rw (e, all, and_left (p t) _ h)
          (all-fill_seats n (key_of t ∷ seen) ts (and_right (p t) _ h))
  ]

  pub all-hits :
      (pinned : Bool) (ts : List CatalogTool)
      → all p ts ≡ true
      → all (λ h. p h.tool) (map (as_hit pinned) ts) ≡ true
  all-hits pinned [] h = refl
  all-hits pinned (t ∷ ts) h = rw (and_left (p t) _ h) (all-hits pinned ts (and_right (p t) _ h))

  all-append :
      (xs ys : List Hit)
      → all (λ h. p h.tool) xs ≡ true
      → all (λ h. p h.tool) ys ≡ true
      → all (λ h. p h.tool) (xs ++ ys) ≡ true
  all-append [] ys h k = k
  all-append (x ∷ xs) ys h k =
      rw (and_left (p x.tool) _ h) (all-append xs ys (and_right (p x.tool) _ h) k)

  pub all-keep_more :
      (q : CatalogTool → Bool) (ts : List CatalogTool) → all p (keep (λ t. q t && p t) ts) ≡ true
  all-keep_more q [] = refl
  all-keep_more q (t ∷ ts) = elim (Bool-cases (q t && p t)) [
    | inl e ↦ rw (e, and_right (q t) _ e) (all-keep_more q ts)
    | inr e ↦ rw e (all-keep_more q ts)
  ]

  pub all-merge_pinned :
      (pinned ranked : List CatalogTool) (limit : ℤ)
      → all p pinned ≡ true
      → all p ranked ≡ true
      → all (λ h. p h.tool) (merge_pinned pinned ranked limit) ≡ true
  unfolding merge_pinned
  all-merge_pinned pinned ranked limit k h =
      all-append _ _ (all-hits true (first_of_each [] pinned) (all-first_of_each [] pinned k))
        (all-hits false _ (all-fill_seats _ _ ranked h))

  all-take : (n : ℕ) (ts : List CatalogTool) → all p ts ≡ true → all p (take n ts) ≡ true
  all-take zero ts h = refl
  all-take (suc n) [] h = refl
  all-take (suc n) (t ∷ ts) h = rw (and_left (p t) _ h) (all-take n ts (and_right (p t) _ h))

  all-sliced : (n : ℤ) (ts : List CatalogTool) → all p ts ≡ true → all p (sliced n ts) ≡ true
  all-sliced (pos n) ts h = all-take n ts h
  all-sliced (negsuc n) ts h = all-take (length ts - suc n) ts h

  pub all-implied :
      (q : CatalogTool → Bool) (ts : List CatalogTool)
      → ((t : CatalogTool) → q t ≡ true → p t ≡ true)
      → all q ts ≡ true
      → all p ts ≡ true
  all-implied q [] more h = refl
  all-implied q (t ∷ ts) more h =
      rw (more t (and_left (q t) _ h)) (all-implied q ts more (and_right (q t) _ h))

  module _ {V F : Type 0} (x : Engine V F) where
    -- The tools of entries with scores have the property.
    abbrev Scored : List (CatalogTool × F) → Type 0
    Scored entries = all p (map (λ e. e.0) entries) ≡ true

    contributed :
        (c : F) (doc : CatalogTool) (entries : List (CatalogTool × F))
        → p doc ≡ true
        → Scored entries
        → Scored (add_contribution x c doc entries)
    unfolding add_contribution
    contributed c doc [] here h = rw here refl
    contributed c doc ((seen, score) ∷ entries) here h =
        elim (Bool-cases (key_of seen == key_of doc)) [
          | inl e ↦ rw e h
          | inr e ↦
              rw (e, and_left (p seen) _ h)
                (contributed c doc entries here (and_right (p seen) _ h))
        ]

    arm_added :
        (weight : F) (rank : ℕ) (docs : List CatalogTool) (entries : List (CatalogTool × F))
        → all p docs ≡ true
        → Scored entries
        → Scored (add_arm x weight rank docs entries)
    unfolding add_arm
    arm_added weight rank [] entries k h = h
    arm_added weight rank (doc ∷ docs) entries k h =
        arm_added weight (suc rank) docs _ (and_right (p doc) _ k)
          (contributed (x.share weight rank) doc entries (and_left (p doc) _ k) h)

    inserted :
        (entry : CatalogTool × F) (entries : List (CatalogTool × F))
        → p entry.0 ≡ true
        → Scored entries
        → Scored (insert_scored x entry entries)
    unfolding insert_scored
    inserted entry [] here h = rw here refl
    inserted entry (e ∷ es) here h = elim (Bool-cases (x.less entry.1 e.1)) [
      | inl less ↦ rw (less, and_left (p e.0) _ h) (inserted entry es here (and_right (p e.0) _ h))
      | inr more ↦ rw (more, here) h
    ]

    sorted : (entries : List (CatalogTool × F)) → Scored entries → Scored (sort_scored x entries)
    unfolding sort_scored
    sorted [] h = h
    sorted (e ∷ es) h =
        inserted e (sort_scored x es) (and_left (p e.0) _ h) (sorted es (and_right (p e.0) _ h))

    pub all-fuse_rrf :
        (vector text : List CatalogTool) (vector_weight text_weight : F) (limit : ℤ)
        → all p vector ≡ true
        → all p text ≡ true
        → all p (fuse_rrf x vector text vector_weight text_weight limit) ≡ true
    unfolding fuse_rrf
    all-fuse_rrf vector text vector_weight text_weight limit h k =
        all-sliced limit _
          (sorted _ (arm_added text_weight 1 text _ k (arm_added vector_weight 1 vector [] h refl)))
