-- ===== src/SandboxPool/Worked.antt =====
-- How many jobs a worker gets before it is replaced.
use m_gate.Prelude.{
  Bool, Bool-cases, List, [], ap, arith, elem, false, inl, inr, insert, is_empty, leb, lookup,
  lookup-insert, ltb, nat_beq_iff, not, refl, subst, suc, true, zero, ℕ, ◌&&◌, ◌++◌, ◌+◌, ◌==◌, ◌∙◌,
  ◌∷◌, ◌≡◌, ◌≤◌, string_eq, nat_eq, pair_eq,
}
use m_gate.SandboxPool.{
  Event, Lock, Pool, acquire, acquired, add_worker, after_refill_spawn, after_start_spawn, discard,
  give_back, job_ended, jobs_of, new_pool, or_zero, reaped, refill_spawned, refilling, shutdown,
  shutdown_called, shutdown_drained, shutdown_ended, terminated, drain, end_shutdown, start_called,
  start_spawned, starting, starting_with, step, sweep, sweep_started, swept, unlocked,
}
use m_gate.SandboxPool.Cases.{
  begin_sweep-cases, branch, give_back-cases, reap-cases, start-cases, sweep-cases, terminate-cases,
}
use m_gate.SandboxPool.Counts.{count, count-remove_one, count-snoc, one_if}
use m_gate.SandboxPool.Exclusive.{IsPlaced, step-IsPlaced}

-- The step hands the worker to a `submit`, with the queue as it is.
abbrev pub handed : ℕ → Event → List ℕ → ℕ
handed w (acquired false) (x ∷ queue) = one_if (w == x)
handed w _ queue = 0

-- How many jobs a worker is given in the course of the steps, whether they succeed or not.
unfoldable pub jobs_given : ℕ → List Event → Pool → ℕ
jobs_given w [] p = 0
jobs_given w (e ∷ es) p = handed w e p.free + jobs_given w es (step e p)

module _ (w limit : ℕ) where
  -- The worker was given so many jobs. It may still get one if it is in the queue, or with a sweep;
  -- each job was counted, but for one that it has now and one that it failed.
  IsWorked : ℕ → Pool → Type 0
  IsWorked given p =
      p.max_jobs ≡ suc limit
      × given + count w p.free + count w p.sweeping ≤ p.max_jobs
      × given ≤ jobs_of w p + count w p.leased + count w p.retired
      × (ltb w p.next ≡ false → given ≡ 0)

  jobs_of-insert :
      (x n : ℕ) (p : Pool)
      → n ≡ jobs_of x p + 1
      → jobs_of w (record p { jobs = insert x n p.jobs }) ≡ jobs_of w p + one_if (w == x)
  jobs_of-insert x n p next = ap or_zero (lookup-insert x w n p.jobs) ∙ elim (Bool-cases (x == w)) [
    | inl e ↦ rw e (ground (arith, next, e, ap (λ k. jobs_of k p) ((nat_beq_iff x w).0 e)))
    | inr e ↦ rw e (ground (arith, e))
  ]

  discard-IsWorked :
      (given x : ℕ) (p : Pool)
      → p.max_jobs ≡ suc limit
      → given + count w p.free + count w p.sweeping ≤ p.max_jobs
      → given ≤ jobs_of w p + count w p.leased + count w p.retired + one_if (w == x)
      → (ltb w p.next ≡ false → given ≡ 0)
      → IsWorked given (discard x p)
  unfolding discard IsWorked count
  discard-IsWorked given x p same room counted late =
      branch (IsWorked given) (elem x p.dead) (same, room, omega (arith, counted), late)
        (same, room, omega (arith, counted), late)

  spawned-IsWorked :
      (given : ℕ) (p : Pool) → IsPlaced w p → IsWorked given p → IsWorked given (add_worker p)
  unfolding add_worker IsWorked
  spawned-IsWorked given p placed (same, room, counted, late) = elim (Bool-cases (w == p.next)) [
    | inl new ↦ (
      same,
      ground (arith, same, late (ground (arith, new)), new, placed, count-snoc w p.next p.free),
      counted,
      λ after. late (ground (arith, after)),
    )
    | inr other ↦ (
      same,
      ground (arith, room, other, count-snoc w p.next p.free),
      counted,
      λ after. late (ground (arith, after)),
    )
  ]

  good_worker :
      (given x : ℕ) (p : Pool)
      → IsPlaced w p
      → IsWorked given p
      → elem x p.leased ≡ true
      → (not (p.max_jobs == 0) && leb p.max_jobs (jobs_of x p + 1)) ≡ false
      → given + count w (p.free ++ x ∷ []) + count w p.sweeping ≤ p.max_jobs
  unfolding IsWorked
  good_worker given x p placed (same, room, counted, late) here good =
      let taken = count-remove_one w x p.leased here in
      let queued = count-snoc w x p.free in
      elim (Bool-cases (w == x)) [
        | inl e ↦ ground (
          arith,
          same,
          good,
          placed,
          counted,
          taken,
          queued,
          e,
          ap (λ k. jobs_of k p) ((nat_beq_iff w x).0 e),
        )
        | inr e ↦ omega (arith, room, queued, ap one_if e)
      ]

  give_back-IsWorked :
      (given x : ℕ) (succeeded : Bool) (p : Pool)
      → IsPlaced w p
      → IsWorked given p
      → IsWorked given (give_back x succeeded p)
  unfolding IsWorked
  give_back-IsWorked given x succeeded p placed h =
      let (same, room, counted, late) = h in
      give_back-cases (IsWorked given) x succeeded p h
        (λ here.
          discard-IsWorked given x _ same room
            (omega (arith, counted, count-remove_one w x p.leased here)) late)
        (λ here.
          discard-IsWorked given x _ same room
            (omega (arith, counted, count-remove_one w x p.leased here, jobs_of-insert x _ p refl))
            late)
        (λ here good. (
          same,
          good_worker given x p placed h here good,
          omega (arith, counted, count-remove_one w x p.leased here, jobs_of-insert x _ p refl),
          late,
        ))

  start_spawn-IsWorked :
      (given : ℕ) (lock : Lock) (spawned : Bool) (p : Pool)
      → IsPlaced w p
      → IsWorked given p
      → IsWorked given (after_start_spawn lock spawned p)
  unfolding after_start_spawn IsWorked
  start_spawn-IsWorked given unlocked spawned p placed h = h
  start_spawn-IsWorked given (starting zero) spawned p placed h = h
  start_spawn-IsWorked given (starting (suc n)) spawned p placed h =
      branch (IsWorked given) spawned
        (spawned-IsWorked given (record p { lock = starting_with n }) placed h) h
  start_spawn-IsWorked given refilling spawned p placed h = h

  refill_spawn-IsWorked :
      (given : ℕ) (lock : Lock) (spawned : Bool) (p : Pool)
      → IsPlaced w p
      → IsWorked given p
      → IsWorked given (after_refill_spawn lock spawned p)
  unfolding after_refill_spawn IsWorked
  refill_spawn-IsWorked given unlocked spawned p placed h = h
  refill_spawn-IsWorked given (starting n) spawned p placed h = h
  refill_spawn-IsWorked given refilling spawned p placed h =
      branch (IsWorked given) (spawned && not p.closed)
        (spawned-IsWorked given (record p { lock = unlocked }) placed h) h

  none_more : (given : ℕ) (q : Pool) → IsWorked given q → IsWorked (0 + given) q
  none_more given q h = subst (λ n. IsWorked n q) (omega arith) h

  acquire-IsWorked :
      (given : ℕ) (queue : List ℕ) (exited : Bool) (p : Pool)
      → p.free ≡ queue
      → IsPlaced w p
      → IsWorked given p
      → IsWorked (handed w (acquired exited) queue + given) (acquire queue exited p)
  unfolding acquire IsWorked count
  acquire-IsWorked given [] true p e placed h = none_more given p h
  acquire-IsWorked given [] false p e placed h = none_more given p h
  acquire-IsWorked given (x ∷ rest) true p e placed (same, room, counted, late) =
      none_more given (discard x (record p { free = rest })) (
        discard-IsWorked given x (record p { free = rest }) same
          (omega (arith, room, ap (count w) e)) (omega (arith, counted)) late)
  acquire-IsWorked given (x ∷ rest) false p e placed (same, room, counted, late) = (
    same,
    omega (arith, room, ap (count w) e),
    omega (arith, counted),
    λ after. let none_yet = late after in ground (arith, none_yet, after, placed, ap (count w) e),
  )

  sweep-IsWorked :
      (given : ℕ) (drained : List ℕ) (exited : Bool) (age : ℕ) (pong : Bool) (p : Pool)
      → p.sweeping ≡ drained
      → IsWorked given p
      → IsWorked given (sweep drained exited age pong p)
  unfolding sweep IsWorked count
  sweep-IsWorked given [] exited age pong p e h = h
  sweep-IsWorked given (x ∷ rest) exited age pong p e (same, room, counted, late) =
      sweep-cases (IsWorked given) x rest exited age pong p
        (discard-IsWorked given x (record p { sweeping = rest }) same
          (omega (arith, room, ap (count w) e)) (omega (arith, counted)) late)
        (same, omega (arith, room, ap (count w) e, count-snoc w x p.free), counted, late)

  step-IsWorked :
      (given : ℕ) (e : Event) (p : Pool)
      → IsPlaced w p
      → IsWorked given p
      → IsWorked (handed w e p.free + given) (step e p)
  unfolding step shutdown drain end_shutdown count IsWorked
  step-IsWorked given start_called p placed h =
      none_more given (step start_called p) (start-cases (IsWorked given) p h (λ early idle. h))
  step-IsWorked given (start_spawned spawned) p placed h =
      none_more given (step (start_spawned spawned) p)
        (start_spawn-IsWorked given p.lock spawned p placed h)
  step-IsWorked given (acquired exited) p placed h =
      acquire-IsWorked given p.free exited p refl placed h
  step-IsWorked given (job_ended x succeeded) p placed h =
      none_more given (step (job_ended x succeeded) p)
        (give_back-IsWorked given x succeeded p placed h)
  step-IsWorked given reaped p placed h =
      none_more given (step reaped p)
        (reap-cases (IsWorked given) p.refills p h (λ m e. h) (λ m e free room. h))
  step-IsWorked given (refill_spawned spawned) p placed h =
      none_more given (step (refill_spawned spawned) p)
        (refill_spawn-IsWorked given p.lock spawned p placed h)
  step-IsWorked given sweep_started p placed h =
      none_more given (step sweep_started p)
        (begin_sweep-cases (IsWorked given) p h (λ finished. (h.0, omega (arith, h.1), h.2, h.3)))
  step-IsWorked given (swept exited age pong) p placed h =
      none_more given (step (swept exited age pong) p)
        (sweep-IsWorked given p.sweeping exited age pong p refl h)
  step-IsWorked given shutdown_called p placed h =
      none_more given (step shutdown_called p) ((h.0, omega (arith, h.1), h.2, h.3))
  step-IsWorked given shutdown_drained p placed h =
      none_more given (step shutdown_drained p)
        (branch (IsWorked given) p.closed (h.0, omega (arith, h.1), h.2, h.3) h)
  step-IsWorked given terminated p placed h =
      none_more given (step terminated p)
        (terminate-cases (IsWorked given) p.terminating p h (λ x rest. h))
  step-IsWorked given shutdown_ended p placed h =
      none_more given (step shutdown_ended p)
        (branch (IsWorked given) (p.drained && is_empty p.terminating) h h)

  history-IsWorked :
      (given : ℕ) (events : List Event) (p : Pool)
      → IsPlaced w p
      → IsWorked given p
      → given + jobs_given w events p ≤ suc limit
  unfolding jobs_given IsWorked
  history-IsWorked given [] p placed h = omega (arith, h.0, h.1)
  history-IsWorked given (e ∷ es) p placed h = omega (
    arith,
    history-IsWorked (handed w e p.free + given) es (step e p) (step-IsPlaced w e p placed)
        (step-IsWorked given e p placed h),
  )

-- When the pool has a limit, a worker is given at most that many jobs in all, those that fail
-- included, in the course of any steps in any order.
pub run_events-jobs_given-le :
    (w size limit max_age : ℕ) (events : List Event)
    → jobs_given w events (new_pool size (suc limit) max_age) ≤ suc limit
unfolding count IsWorked lookup
run_events-jobs_given-le w size limit max_age events = omega (
  arith,
  history-IsWorked w limit 0 events (new_pool size (suc limit) max_age) (omega arith)
      (refl, omega arith, omega arith, λ late. refl),
)
