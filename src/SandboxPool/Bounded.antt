-- ===== src/SandboxPool/Bounded.antt =====
-- How many workers the pool keeps.
use m_gate.Prelude.{
  Bool, Bool-cases, List, [], ap, arith, elem, false, inl, inr, is_empty, length, not, refl, suc,
  true, zero, ℕ, ◌&&◌, ◌+◌, ◌∷◌, ◌≡◌, ◌≤◌, string_eq, nat_eq, pair_eq,
}
use m_gate.SandboxPool.{
  Event, Lock, Pool, acquire, acquired, add_worker, after_refill_spawn, after_start_spawn,
  cancelled, discard, give_back, job_ended, new_pool, reaped, refill_spawned, refilling, run_events,
  shutdown, shutdown_called, shutdown_drained, shutdown_ended, terminated, drain, end_shutdown,
  start_called, start_spawned, starting, starting_with, step, sweep, sweep_started, swept, unlocked,
}
use m_gate.SandboxPool.Cases.{
  begin_sweep-cases, branch, give_back-cases, reap-cases, start-cases, sweep-cases, terminate-cases,
}
use m_gate.SandboxPool.Counts.{length-of_elem, length-pull-le, length-snoc}

abbrev pub pending : Lock → ℕ
pending unlocked = 0
pending (starting n) = n
pending refilling = 1

-- What a pool has that was never started.
abbrev amount : Pool → ℕ
amount p =
    length p.members
    + length p.free
    + length p.leased
    + length p.sweeping
    + p.refills
    + pending p.lock

pending-starting_with : (n : ℕ) → pending (starting_with n) ≡ n
pending-starting_with zero = refl
pending-starting_with (suc n) = refl

cancelled-le : (lock : Lock) → pending (cancelled lock) ≤ pending lock
cancelled-le unlocked = omega arith
cancelled-le (starting n) = omega arith
cancelled-le refilling = omega arith

module _ (size : ℕ) where
  IsWithin : Pool → Type 0
  IsWithin p =
      p.size ≡ size × length p.members + pending p.lock ≤ size × (p.started ≡ false → amount p ≡ 0)

  discard-IsWithin :
      (x : ℕ) (p : Pool)
      → p.size ≡ size
      → length p.members + pending p.lock ≤ size
      → ¬ (p.started ≡ false)
      → IsWithin (discard x p)
  unfolding discard IsWithin
  discard-IsWithin x p same within begun = elim (Bool-cases (elem x p.dead)) [
    | inl e ↦ rw e (same, within, λ early. absurd (begun early))
    | inr e ↦
        rw e
          (same, omega (arith, length-pull-le x p.members, within), λ early. absurd (begun early))
  ]

  -- A spawn that has ended gives one worker at most, and it was counted before.
  spawned-IsWithin :
      (p : Pool)
      → p.size ≡ size
      → length p.members + pending p.lock + 1 ≤ size
      → ¬ (p.started ≡ false)
      → IsWithin (add_worker p)
  unfolding add_worker IsWithin
  spawned-IsWithin p same within begun =
      (same, omega (arith, within, length-snoc p.next p.members), λ early. absurd (begun early))

  -- A pool that has something was started.
  begun : (p : Pool) → IsWithin p → 1 ≤ amount p → ¬ (p.started ≡ false)
  unfolding IsWithin
  begun p h some_left early = absurd (omega (arith, some_left, h.2 early))

  start_spawn-IsWithin :
      (lock : Lock) (spawned : Bool) (p : Pool)
      → p.lock ≡ lock
      → IsWithin p
      → IsWithin (after_start_spawn lock spawned p)
  unfolding after_start_spawn IsWithin
  start_spawn-IsWithin unlocked spawned p at h = h
  start_spawn-IsWithin (starting zero) spawned p at h = h
  start_spawn-IsWithin (starting (suc n)) true p at h =
      spawned-IsWithin (record p { lock = starting_with n }) h.0
        (omega (arith, h.1, ap pending at, pending-starting_with n))
        (begun p h (omega (arith, ap pending at)))
  start_spawn-IsWithin (starting (suc n)) false p at h = (
    h.0,
    omega (arith, h.1, ap pending at, pending-starting_with n),
    λ early. absurd (begun p h (omega (arith, ap pending at)) early),
  )
  start_spawn-IsWithin refilling spawned p at h = h

  refill_spawn-IsWithin :
      (lock : Lock) (spawned : Bool) (p : Pool)
      → p.lock ≡ lock
      → IsWithin p
      → IsWithin (after_refill_spawn lock spawned p)
  unfolding after_refill_spawn IsWithin
  refill_spawn-IsWithin unlocked spawned p at h = h
  refill_spawn-IsWithin (starting n) spawned p at h = h
  refill_spawn-IsWithin refilling spawned p at h =
      let after = begun p h (omega (arith, ap pending at)) in
      branch IsWithin (spawned && not p.closed)
        (spawned-IsWithin (record p { lock = unlocked }) h.0 (omega (arith, h.1, ap pending at))
          after)
        (h.0, omega (arith, h.1, ap pending at), λ early. absurd (after early))

  acquire-IsWithin :
      (queue : List ℕ) (exited : Bool) (p : Pool)
      → p.free ≡ queue
      → IsWithin p
      → IsWithin (acquire queue exited p)
  unfolding acquire IsWithin
  acquire-IsWithin [] exited p e h = h
  acquire-IsWithin (x ∷ rest) true p e h =
      discard-IsWithin x (record p { free = rest }) h.0 h.1
        (begun p h (omega (arith, ap (λ l. length l) e)))
  acquire-IsWithin (x ∷ rest) false p e h =
      (h.0, h.1, λ early. absurd (begun p h (omega (arith, ap (λ l. length l) e)) early))

  give_back-IsWithin :
      (x : ℕ) (succeeded : Bool) (p : Pool) → IsWithin p → IsWithin (give_back x succeeded p)
  unfolding IsWithin
  give_back-IsWithin x succeeded p h =
      give_back-cases IsWithin x succeeded p h
        (λ here.
          discard-IsWithin x _ h.0 h.1 (begun p h (omega (arith, length-of_elem x p.leased here))))
        (λ here.
          discard-IsWithin x _ h.0 h.1 (begun p h (omega (arith, length-of_elem x p.leased here))))
        (λ here good. (
          h.0,
          h.1,
          λ early. absurd (begun p h (omega (arith, length-of_elem x p.leased here)) early),
        ))

  sweep-IsWithin :
      (drained : List ℕ) (exited : Bool) (age : ℕ) (pong : Bool) (p : Pool)
      → p.sweeping ≡ drained
      → IsWithin p
      → IsWithin (sweep drained exited age pong p)
  unfolding sweep IsWithin
  sweep-IsWithin [] exited age pong p e h = h
  sweep-IsWithin (x ∷ rest) exited age pong p e h =
      let after = begun p h (omega (arith, ap (λ l. length l) e)) in
      sweep-cases IsWithin x rest exited age pong p
        (discard-IsWithin x (record p { sweeping = rest }) h.0 h.1 after)
        (h.0, h.1, λ early. absurd (after early))

  step-IsWithin : (e : Event) (p : Pool) → IsWithin p → IsWithin (step e p)
  unfolding step shutdown drain end_shutdown IsWithin
  step-IsWithin start_called p h = start-cases IsWithin p h (λ early idle.
      (h.0, omega (arith, h.0, h.2 early, pending-starting_with p.size), λ early. cc))
  step-IsWithin (start_spawned spawned) p h = start_spawn-IsWithin p.lock spawned p refl h
  step-IsWithin (acquired exited) p h = acquire-IsWithin p.free exited p refl h
  step-IsWithin (job_ended x succeeded) p h = give_back-IsWithin x succeeded p h
  step-IsWithin reaped p h =
      reap-cases IsWithin p.refills p h
        (λ m e. (h.0, h.1, λ early. absurd (begun p h (omega (arith, e)) early)))
        (λ m e free room.
          (h.0, ground (arith, h.0, room), λ early. absurd (begun p h (omega (arith, e)) early)))
  step-IsWithin (refill_spawned spawned) p h = refill_spawn-IsWithin p.lock spawned p refl h
  step-IsWithin sweep_started p h =
      begin_sweep-cases IsWithin p h (λ finished. (h.0, h.1, λ early. omega (arith, h.2 early)))
  step-IsWithin (swept exited age pong) p h = sweep-IsWithin p.sweeping exited age pong p refl h
  step-IsWithin shutdown_called p h = (h.0, h.1, λ early. omega (arith, h.2 early))
  step-IsWithin shutdown_drained p h =
      branch IsWithin p.closed (h.0, omega (arith, h.1), λ early. omega (arith, h.2 early)) h
  step-IsWithin terminated p h = terminate-cases IsWithin p.terminating p h (λ x rest. h)
  step-IsWithin shutdown_ended p h =
      branch IsWithin (p.drained && is_empty p.terminating)
        (
          h.0,
          omega (arith, h.1, cancelled-le p.lock),
          λ early. omega (arith, h.2 early, cancelled-le p.lock),
        )
        h

  history-IsWithin : (events : List Event) (p : Pool) → IsWithin p → IsWithin (run_events events p)
  unfolding run_events
  history-IsWithin [] p h = h
  history-IsWithin (e ∷ es) p h = history-IsWithin es (step e p) (step-IsWithin e p h)

-- After any steps, in any order, the pool has at most as many workers as its size says, the spawns
-- included that `start` or a refill still has to do.
pub run_events-size-le :
    (size max_jobs max_age : ℕ) (events : List Event)
    → let p = run_events events (new_pool size max_jobs max_age) in
      length p.members + pending p.lock ≤ size
unfolding IsWithin
run_events-size-le size max_jobs max_age events =
    (history-IsWithin size events (new_pool size max_jobs max_age)
      (refl, omega arith, λ early. refl)).1
