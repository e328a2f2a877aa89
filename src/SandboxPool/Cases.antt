-- ===== src/SandboxPool/Cases.antt =====
-- The outcomes of each step, for the proofs about all of them.
use m_gate.Prelude.{
  Bool, Bool-cases, List, [], arith, elem, false, if◌then◌else◌, inl, inr, insert, is_empty, leb,
  length, not, refl, suc, true, zero, ℕ, ◌&&◌, ◌++◌, ◌+◌, ◌==◌, ◌||◌, ◌∷◌, ◌≡◌, string_eq, nat_eq,
  pair_eq,
}
use m_gate.SandboxPool.{
  Lock, Pool, begin_sweep, discard, give_back, jobs_of, reap, refilling, remove_one, start,
  starting, starting_with, sweep, terminate, unlocked,
}

module _ (P : Pool → Type 0) where
  when_free :
      (n : ℕ) (lock : Lock) (p : Pool)
      → p.lock ≡ lock
      → P p
      → (p.lock ≡ unlocked → P (record p { started = true; lock = starting_with n }))
      → P (elim lock [ unlocked ↦ record p { started = true; lock = starting_with n } | other ↦ p ])
  when_free n unlocked p at same begun = begun at
  when_free n (starting m) p at same begun = same
  when_free n refilling p at same begun = same

  pub start-cases :
      (p : Pool)
      → P p
      → (p.started ≡ false
          → p.lock ≡ unlocked
          → P (record p { started = true; lock = starting_with p.size }))
      → P (start p)
  unfolding start
  start-cases p same begun = elim (Bool-cases (p.started || p.closed)) [
    | inl e ↦ rw e same
    | inr e ↦ rw e (when_free p.size p.lock p refl same (begun (fresh p.started p.closed e)))
  ]
    where
      fresh : (a b : Bool) → (a || b) ≡ false → a ≡ false
      fresh a b h = ground arith

  pub branch : (b : Bool) {q r : Pool} → P q → P r → P (if b then q else r)
  branch true met unmet = met
  branch false met unmet = unmet

  by_room :
      (room : Bool) (m : ℕ) (lock : Lock) (p : Pool)
      → p.lock ≡ lock
      → P p
      → P (record p { refills = m })
      → (p.lock ≡ unlocked → room ≡ false → P (record p { refills = m; lock = refilling }))
      → P (elim lock [
        | unlocked ↦
            if room then record p { refills = m } else record p { refills = m; lock = refilling }
        | other ↦ p
      ])
  by_room true m unlocked p at same dropped begun = dropped
  by_room false m unlocked p at same dropped begun = begun at refl
  by_room room m (starting n) p at same dropped begun = same
  by_room room m refilling p at same dropped begun = same

  pub reap-cases :
      (n : ℕ) (p : Pool)
      → P p
      → ((m : ℕ) → n ≡ suc m → P (record p { refills = m }))
      → ((m : ℕ)
          → n ≡ suc m
          → p.lock ≡ unlocked
          → leb p.size (length p.members) ≡ false
          → P (record p { refills = m; lock = refilling }))
      → P (reap n p)
  unfolding reap
  reap-cases zero p same dropped begun = same
  reap-cases (suc n) p same dropped begun =
      branch p.closed (dropped n refl) (
        by_room (leb p.size (length p.members)) n p.lock p refl same (dropped n refl)
          (begun n refl))

  pub give_back-cases :
      (x : ℕ) (succeeded : Bool) (p : Pool)
      → P p
      → (elem x p.leased ≡ true → P (discard x (record p { leased = remove_one x p.leased })))
      → (elem x p.leased ≡ true
          → P (
              discard x (record p {
                leased = remove_one x p.leased;
                jobs = insert x (jobs_of x p + 1) p.jobs;
              })))
      → (elem x p.leased ≡ true
          → (not (p.max_jobs == 0) && leb p.max_jobs (jobs_of x p + 1)) ≡ false
          → P (record p {
            leased = remove_one x p.leased;
            jobs = insert x (jobs_of x p + 1) p.jobs;
            free = p.free ++ x ∷ [];
          }))
      → P (give_back x succeeded p)
  unfolding give_back
  give_back-cases x succeeded p same failed worn good = elim (Bool-cases (elem x p.leased)) [
    | inr away ↦ rw away same
    | inl here ↦ elim (Bool-cases succeeded) [
      | inr wrong ↦ rw (here, wrong) (failed here)
      | inl done ↦ elim (Bool-cases (not (p.max_jobs == 0) && leb p.max_jobs (jobs_of x p + 1))) [
        | inl e ↦ rw (here, done, e) (worn here)
        | inr e ↦ rw (here, done, e) (good here e)
      ]
    ]
  ]

  either :
      (a b c d : Bool) (q r : Pool)
      → P q
      → P r
      → P (if a then r else if b then q else if c then q else if d then q else r)
  either true b c d q r out back = back
  either false true c d q r out back = out
  either false false true d q r out back = out
  either false false false true q r out back = out
  either false false false false q r out back = back

  pub sweep-cases :
      (x : ℕ) (rest : List ℕ) (exited : Bool) (age : ℕ) (pong : Bool) (p : Pool)
      → P (discard x (record p { sweeping = rest }))
      → P (record p { sweeping = rest; free = p.free ++ x ∷ [] })
      → P (sweep (x ∷ rest) exited age pong p)
  unfolding sweep
  sweep-cases x rest exited age pong p out back =
      either p.closed exited (not (p.max_age == 0) && leb p.max_age age) (not pong) _ _ out back

  pub terminate-cases :
      (ws : List ℕ) (p : Pool)
      → P p
      → ((x : ℕ) (rest : List ℕ) → P (record p { terminating = rest; dead = x ∷ p.dead }))
      → P (terminate ws p)
  unfolding terminate
  terminate-cases [] p same one = same
  terminate-cases (x ∷ rest) p same one = one x rest

  pub begin_sweep-cases :
      (p : Pool)
      → P p
      → (is_empty p.sweeping ≡ true → P (record p { free = []; sweeping = p.free }))
      → P (begin_sweep p)
  unfolding begin_sweep
  begin_sweep-cases p same drained = elim (Bool-cases (p.closed || not (is_empty p.sweeping))) [
    | inl e ↦ rw e same
    | inr e ↦ rw e (drained (nothing_left p.closed (is_empty p.sweeping) e))
  ]
    where
      nothing_left : (a b : Bool) → (a || not b) ≡ false → b ≡ true
      nothing_left a b h = ground arith
