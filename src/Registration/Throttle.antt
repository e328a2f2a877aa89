-- ===== src/Registration/Throttle.antt =====
-- How many sign-ups of one address pass the throttle in one window.
use m_gate.Prelude.{
  Bool, Bool-cases, List, Result, String, [], ap, arith, clamp, err, false, if◌then◌else◌, inl, inr,
  insert, leb, lookup, lookup-insert, ltb, not, ok, pair_beq, pair_beq_iff, refl, true, ℕ, ◌&&◌,
  ◌+◌, ◌==◌, ◌∷◌, ◌≡◌, ◌≤◌, string_eq, nat_eq, pair_eq,
}
use m_gate.RateLimit.Window.{passes}
use m_gate.Registration.{Attempts, RegistrationError, count_of, enforce_ip_throttle, window_epoch}
use m_gate.Settings.{Settings}

-- A sign-up that reaches the throttle.
pub record Attempt : Type 0 where
  pub client_ip : String
  pub wall : ℕ

abbrev is_pass : Result RegistrationError (Unit {0}) → Bool
is_pass (ok a) = true
is_pass (err e) = false

module _ (settings : Settings) (key : String × ℕ) where
  abbrev key_of : Attempt → String × ℕ
  unfolding window_epoch
  key_of a = (a.client_ip, window_epoch settings a.wall)

  -- How many attempts with the key pass.
  unfoldable pub admitted_sign_ups : List Attempt → Attempts → ℕ
  unfolding enforce_ip_throttle key_of
  admitted_sign_ups [] attempts = 0
  admitted_sign_ups (a ∷ rest) attempts =
      let (gate, attempts') = enforce_ip_throttle a.client_ip settings a.wall attempts in
      (if (key_of a == key) && is_pass gate then 1 else 0) + admitted_sign_ups rest attempts'

  abbrev limit : ℕ
  limit = clamp settings.self_registration_max_per_ip

  abbrev capped : ℕ → ℕ
  capped count = if leb count limit then count else limit

  counted :
      (same : Bool) (own before now after : ℕ)
      → now ≡ (if same then own + 1 else before)
      → (same ≡ true → own ≡ before)
      → after + capped now ≤ limit
      → ((if same && not (ltb limit (own + 1)) then 1 else 0) + after) + capped before ≤ limit
  counted true own before now after e own_count h = ground (arith, own_count refl)
  counted false own before now after e own_count h = ground arith

  abbrev own_count : Attempt → Attempts → ℕ
  unfolding window_epoch
  own_count a attempts = count_of (lookup (a.client_ip, window_epoch settings a.wall) attempts)

  now_counted :
      (mine : String × ℕ) (count : ℕ) (attempts : Attempts)
      → count_of (lookup key (insert mine count attempts))
        ≡ (if pair_beq mine key then count else count_of (lookup key attempts))
  now_counted mine count attempts = elim (Bool-cases (pair_beq mine key)) [
    | inl e ↦ rw (lookup-insert mine key count attempts, e)
    | inr e ↦ rw (lookup-insert mine key count attempts, e)
  ]

  is_pass-if :
      (late : Bool) (e : RegistrationError) → is_pass (if late then err e else ok tt) ≡ not late
  is_pass-if true e = refl
  is_pass-if false e = refl

  enforced :
      (a : Attempt) (attempts : Attempts)
      → (limit == 0) ≡ false
      → (is_pass (enforce_ip_throttle a.client_ip settings a.wall attempts).0
          ≡ not (ltb limit (own_count a attempts + 1)))
        × ((enforce_ip_throttle a.client_ip settings a.wall attempts).1
            ≡ insert (key_of a) (own_count a attempts + 1) attempts)
  unfolding enforce_ip_throttle own_count
  enforced a attempts h = (rw h (is_pass-if (ltb limit (own_count a attempts + 1)) _), rw h)

  -- What was counted before takes from the limit.
  budget :
      (arrivals : List Attempt) (attempts : Attempts)
      → (limit == 0) ≡ false
      → admitted_sign_ups arrivals attempts + capped (count_of (lookup key attempts)) ≤ limit
  unfolding admitted_sign_ups
  budget [] attempts h = ground arith
  budget (a ∷ rest) attempts h =
      let (passes, stored) = enforced a attempts h in
      rw (passes, stored)
        (counted (pair_beq (key_of a) key) (own_count a attempts) (count_of (lookup key attempts))
          (count_of (lookup key (insert (key_of a) (own_count a attempts + 1) attempts)))
          (admitted_sign_ups rest (insert (key_of a) (own_count a attempts + 1) attempts))
          (now_counted (key_of a) (own_count a attempts + 1) attempts)
          (λ same. ap (λ k. count_of (lookup k attempts)) ((pair_beq_iff (key_of a) key).0 same))
          (budget rest (insert (key_of a) (own_count a attempts + 1) attempts) h))

  -- Under a limit that is not 0, no more sign-ups from one address pass in one window than the
  -- limit says, in whatever order they and others arrive and whatever was counted before.
  pub admitted_sign_ups-le :
      (arrivals : List Attempt) (attempts : Attempts)
      → (limit == 0) ≡ false
      → admitted_sign_ups arrivals attempts ≤ limit
  admitted_sign_ups-le arrivals attempts h = omega (arith, budget arrivals attempts h)
