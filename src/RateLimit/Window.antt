-- ===== src/RateLimit/Window.antt =====
-- How many requests of a client pass in one window.
use native.Mathlib.Nat.{le_of_mul-le-mul_right, le-add_right, le_trans, le-max_left}
use m_gate.Prelude.{
  Bool, Bool-cases, List, Option, String, [], and_left, and_right, ap, arith, clamp, false,
  if◌then◌else◌, inl, inr, lookup, lookup-insert, ltb, negsuc, none, pair_eq, pos, refl, some,
  subst, suc, true, ℕ, ℤ, ◌&&◌, ◌*◌, ◌+◌, ◌<◌, ◌==◌, ◌∙◌, ◌∷◌, ◌≡◌, ◌≤◌, ◌⊎◌, string_eq, nat_eq,
}
use m_gate.RateLimit.{
  Bucket, Buckets, Headers, Verdict, count_in, current_epoch, effective, exceeds, handle, hit,
  is_passed, verdict_of, window_seconds,
}
use m_gate.Settings.{Settings}

-- A request that is not exempt.
pub record Arrival : Type 0 where
  pub tenant : String
  pub ip : String
  pub now : ℕ

abbrev pub data_path : String
data_path = "/rpc"

hit-count : (now expires_at : ℕ) (o : Option Bucket) → (hit now expires_at o).count ≡ count_in o + 1
hit-count now expires_at none = refl
hit-count now expires_at (some bucket) = refl

is_passed-verdict_of :
    (b : Bool) (headers : Headers) → is_passed (verdict_of b headers) ≡ true → b ≡ false
is_passed-verdict_of true headers h = cc
is_passed-verdict_of false headers h = refl

exceeds_le :
    (w estimate : ℕ) (limit : ℤ)
    → exceeds w estimate limit ≡ false
    → estimate ≤ clamp limit * (w * 1000)
unfolding exceeds
exceeds_le w estimate (pos limit) h = le_of_not_ltb (limit * (w * 1000)) estimate h
  where
    le_of_not_ltb : (m n : ℕ) → ltb m n ≡ false → n ≤ m
    le_of_not_ltb m n h = ground arith
exceeds_le w estimate (negsuc n) h = cc

-- The window's own requests are part of the estimate.
effective-le :
    (w epoch now current previous : ℕ)
    → current * (w * 1000) ≤ effective w epoch now current previous
unfolding effective
effective-le w epoch now current previous = le-add_right (current * (w * 1000)) _

window_pos : (settings : Settings) → 0 < window_seconds settings * 1000
window_pos settings = omega (arith, le-max_left 1 (clamp settings.rate_limit_window_seconds))

one_more :
    (rest c c' limit : ℕ)
    → c' ≡ c + 1
    → c + 1 ≤ limit
    → (rest ≡ 0) ⊎ (rest + c' ≤ limit)
    → suc rest + c ≤ limit
one_more rest c c' limit e room (inl none_left) = omega arith
one_more rest c c' limit e room (inr some_left) = omega arith

no_more :
    (rest c c' d limit : ℕ)
    → c' ≡ c + d
    → (rest ≡ 0) ⊎ (rest + c' ≤ limit)
    → (rest ≡ 0) ⊎ (rest + c ≤ limit)
no_more rest c c' d limit e (inl none_left) = inl none_left
no_more rest c c' d limit e (inr some_left) = inr (omega arith)

module _ (settings : Settings) where
  abbrev pub key_of : Arrival → String × (String × ℕ)
  key_of a = (a.tenant, (a.ip, current_epoch (window_seconds settings) a.now))

  unfoldable pub arrive : Buckets → Arrival → Verdict × Buckets
  arrive buckets a = handle settings buckets data_path a.tenant a.ip a.now

  -- How many of the arrivals pass that belong to the client and the window that `key` names.
  unfoldable pub passes : String × (String × ℕ) → List Arrival → Buckets → ℕ
  unfolding arrive
  passes key [] buckets = 0
  passes key (a ∷ arrivals) buckets =
      let rest = passes key arrivals (arrive buckets a).1 in
      if (key_of a == key) && is_passed (arrive buckets a).0 then suc rest else rest

  count-arrive :
      (key : String × (String × ℕ)) (a : Arrival) (buckets : Buckets)
      → count_in (lookup key (arrive buckets a).1)
        ≡ count_in (lookup key buckets) + (if key_of a == key then 1 else 0)
  unfolding arrive handle
  count-arrive key a buckets = elim (Bool-cases (key_of a == key)) [
    | inl e ↦
        let q : key_of a ≡ key =
          ((pair_eq {A = String} {B = String × ℕ}).equals_iff (key_of a) key).0 e in
        rw (lookup-insert, e)
          (hit-count _ _ (lookup (key_of a) buckets) ∙ ap (λ k. count_in (lookup k buckets) + 1) q)
    | inr e ↦ rw (lookup-insert, e) (omega arith)
  ]

  -- A request passes only if its own window has not counted more than the limit.
  passed-le :
      (a : Arrival) (buckets : Buckets)
      → is_passed (arrive buckets a).0 ≡ true
      → count_in (lookup (key_of a) buckets) + 1 ≤ clamp settings.rate_limit_max_requests
  unfolding arrive handle
  passed-le a buckets h =
      let w = window_seconds settings in
      let epoch = current_epoch w a.now in
      let found = lookup (key_of a) buckets in
      let bucket = hit a.now ((epoch + w + w) * 1000) found in
      let inside = exceeds_le w _ settings.rate_limit_max_requests (is_passed-verdict_of _ _ h) in
      let counted : bucket.count ≤ clamp settings.rate_limit_max_requests =
        le_of_mul-le-mul_right (le_trans (effective-le w epoch a.now bucket.count _) inside)
          (window_pos settings) in
      omega (arith, counted, hit-count a.now ((epoch + w + w) * 1000) found)

  passes-bound :
      (key : String × (String × ℕ)) (arrivals : List Arrival) (buckets : Buckets)
      → (passes key arrivals buckets ≡ 0)
        ⊎ (passes key arrivals buckets + count_in (lookup key buckets)
            ≤ clamp settings.rate_limit_max_requests)
  unfolding passes
  passes-bound key [] buckets = inl refl
  passes-bound key (a ∷ arrivals) buckets =
      elim (Bool-cases ((key_of a == key) && is_passed (arrive buckets a).0)) [
        | inl e ↦
            let mine = and_left (key_of a == key) (is_passed (arrive buckets a).0) e in
            let room =
              passed-le a buckets
                (and_right (key_of a == key) (is_passed (arrive buckets a).0) e) in
            let q : key_of a ≡ key =
              ((pair_eq {A = String} {B = String × ℕ}).equals_iff (key_of a) key).0 mine in
            rw e (
              inr (
                one_more (passes key arrivals (arrive buckets a).1) (count_in (lookup key buckets))
                  _ _
                  (count-arrive key a buckets
                    ∙ ap (λ b. count_in (lookup key buckets) + (if b then 1 else 0)) mine)
                  (subst
                    (λ k. count_in (lookup k buckets) + 1 ≤ clamp settings.rate_limit_max_requests)
                    q room)
                  (passes-bound key arrivals (arrive buckets a).1)))
        | inr e ↦ rw e (
            no_more (passes key arrivals (arrive buckets a).1) (count_in (lookup key buckets)) _ _ _
              (count-arrive key a buckets) (passes-bound key arrivals (arrive buckets a).1))
      ]

  -- Whatever requests arrive, in whatever order and from whomever, and whatever the buckets hold at
  -- first: no more requests of one tenant from one address pass in one window than the limit says,
  -- and none under a negative limit.
  pub passes-le-limit :
      (key : String × (String × ℕ)) (arrivals : List Arrival) (buckets : Buckets)
      → passes key arrivals buckets ≤ clamp settings.rate_limit_max_requests
  passes-le-limit key arrivals buckets = elim (passes-bound key arrivals buckets) [
    | inl e ↦ rw e (omega arith)
    | inr h ↦ omega (arith, h)
  ]
