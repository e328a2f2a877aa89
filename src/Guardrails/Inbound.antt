-- ===== src/Guardrails/Inbound.antt =====
-- What a request that is not blocked has passed.
use m_gate.Prelude.{
  Bool, Bool-cases, List, Option, Option-cases, String, [], all, any, arith, eq_iff, false, inl,
  inr, is_empty, keep, leb, ltb, map, none, not, refl, some, true, ◌++◌, ◌==◌, ◌∷◌, ◌≡◌, ◌⊎◌,
  string_eq, nat_eq, pair_eq,
}
use m_gate.Guardrails.{
  BlockReason, Breaker, Probe, Signature, blocked_pattern, blocked_semantic, check_inbound,
  guardrail_unavailable, matches_pattern, or_unavailable, prompt_injection_patterns,
  screen_patterns, screen_semantic, screen_span, screen_spans,
}
use m_gate.RateLimit.{hit}
use m_gate.Settings.{Settings}

module _ (settings : Settings) where
  -- The search was made, and what it found lies below the threshold.
  abbrev pub IsBelow : Option (List Signature) → Type 0
  IsBelow none = ⊥
  IsBelow (some docs) =
      all (λ doc. not (leb settings.guardrail_injection_threshold doc.score)) docs ≡ true

  abbrev pub Screened : List (String × Probe) → Type 0
  Screened [] = Unit {0}
  Screened ((span, probe) ∷ spans) =
      ((span ≡ "")
        ⊎ ((any (matches_pattern span) prompt_injection_patterns ≡ false) × IsBelow probe.found))
      × Screened spans

  nothing_kept :
      {A : Type 0} (p : A → Bool) (f : A → BlockReason) (xs : List A)
      → is_empty (map f (keep p xs)) ≡ true
      → (any p xs ≡ false) × (all (λ x. not (p x)) xs ≡ true)
  nothing_kept p f [] h = (refl, refl)
  nothing_kept p f (x ∷ xs) h = elim (Bool-cases (p x)) [
    | inl hit ↦ let bad : is_empty (f x ∷ map f (keep p xs)) ≡ true = rw hit at h in cc
    | inr miss ↦ let (a, b) = nothing_kept p f xs (rw miss at h) in (rw (miss, a), rw (miss, b))
  ]

  empty-append :
      (xs ys : List BlockReason)
      → is_empty (xs ++ ys) ≡ true
      → (is_empty xs ≡ true) × (is_empty ys ≡ true)
  empty-append [] ys h = (refl, h)
  empty-append (x ∷ xs) ys h = cc

  module _ (closed : (settings.guardrail_fail_mode == "closed") ≡ true)
      (with_ml : settings.guardrail_ml_enabled ≡ true) where
    semantic-IsBelow :
        (probe : Probe) (breaker : Breaker)
        → is_empty (or_unavailable settings (screen_semantic settings probe breaker).0) ≡ true
        → IsBelow probe.found
    unfolding screen_semantic
    semantic-IsBelow probe breaker h =
        elim (Bool-cases (ltb probe.started breaker.circuit_open_until)) [
          | inl refusing ↦
              let bad : is_empty (guardrail_unavailable ∷ []) ≡ true = rw (refusing, closed) at h in
              cc
          | inr open_to ↦ elim (Option-cases probe.found) [
            | inl failed ↦
                let bad : is_empty (guardrail_unavailable ∷ []) ≡ true =
                  rw (open_to, failed, screen_semantic, closed) at h in
                cc
            | inr (docs, e) ↦
                rw e
                  (nothing_kept (λ doc. leb settings.guardrail_injection_threshold doc.score)
                    blocked_semantic docs (rw (open_to, e, screen_semantic) at h)).1
          ]
        ]

    spans-Screened :
        (spans : List (String × Probe)) (breaker : Breaker)
        → is_empty (screen_spans settings spans breaker).0 ≡ true
        → Screened spans
    unfolding screen_spans screen_span screen_patterns
    spans-Screened [] breaker h = tt
    spans-Screened ((span, probe) ∷ spans) breaker h = elim (Bool-cases (span == "")) [
      | inl blank ↦ (
        inl ((eq_iff span "").0 blank),
        spans-Screened spans breaker (rw (blank, screen_spans) at h),
      )
      | inr text ↦
          let (own, rest) =
            empty-append (screen_span settings span probe breaker).0 _
              (rw (text, screen_spans) at h) in
          let (patterns, semantic) = empty-append (screen_patterns span) _ (rw with_ml at own) in
          (
            inr (
              (nothing_kept (matches_pattern span) blocked_pattern prompt_injection_patterns
                  patterns).0,
              semantic-IsBelow probe breaker semantic,
            ),
            spans-Screened spans (screen_span settings span probe breaker).1 rest,
          )
    ]

    -- With the semantic detector on and failures closed, a request that is not blocked has had each
    -- of its texts that is not empty matched against every pattern, without success, and searched
    -- for among the signatures, by a call that was made and answered, with every score below the
    -- threshold.
    pub check_inbound-Screened :
        (spans : List (String × Probe)) (breaker : Breaker)
        → (check_inbound settings spans breaker).0 ≡ false
        → Screened spans
    unfolding check_inbound
    check_inbound-Screened spans breaker h = spans-Screened spans breaker (ground arith)
