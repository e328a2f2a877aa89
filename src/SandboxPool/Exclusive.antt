-- ===== src/SandboxPool/Exclusive.antt =====
-- Each worker is in one place at a time.
use m_gate.Prelude.{
  Bool, Bool-cases, List, [], ap, arith, false, inl, inr, is_empty, ltb, not, refl, suc, true, zero,
  ℕ, ◌&&◌, ◌+◌, ◌==◌, ◌∙◌, ◌∷◌, ◌≡◌, ◌≤◌, string_eq, nat_eq, pair_eq,
}
use m_gate.SandboxPool.{
  Event, Lock, Pool, acquire, acquired, add_worker, after_refill_spawn, after_start_spawn, discard,
  give_back, job_ended, new_pool, reaped, refill_spawned, refilling, run_events, shutdown_called,
  shutdown_drained, shutdown_ended, terminated, drain, end_shutdown, start_called, start_spawned,
  starting, starting_with, step, sweep, sweep_started, swept, unlocked,
}
use m_gate.SandboxPool.Cases.{
  begin_sweep-cases, branch, give_back-cases, reap-cases, start-cases, sweep-cases, terminate-cases,
}
use m_gate.SandboxPool.Counts.{count, count-remove_one, count-snoc, one_if}

module _ (w : ℕ) where
  -- The places where a worker may be, and how often it is in one.
  abbrev pub held : Pool → ℕ
  held p = count w p.free + count w p.leased + count w p.sweeping + count w p.retired

  -- A worker that was spawned is in at most one place, and any other in none.
  abbrev pub IsPlaced : Pool → Type 0
  IsPlaced p = held p ≤ one_if (ltb w p.next)

  discard-held : (x : ℕ) (p : Pool) → held (discard x p) ≡ held p + one_if (w == x)
  unfolding discard count
  discard-held x p = ground arith

  discard-next : (x : ℕ) (p : Pool) → (discard x p).next ≡ p.next
  unfolding discard
  discard-next x p = ground arith

  -- A step that takes a worker from its place and discards it.
  moved_out :
      (x : ℕ) (p q : Pool)
      → IsPlaced p
      → held q + one_if (w == x) ≤ held p
      → q.next ≡ p.next
      → IsPlaced (discard x q)
  moved_out x p q h less same =
      omega (arith, discard-held x q, ap (λ n. one_if (ltb w n)) (discard-next x q ∙ same))

  add_worker-IsPlaced : (p : Pool) → IsPlaced p → IsPlaced (add_worker p)
  unfolding add_worker
  add_worker-IsPlaced p h = ground (arith, count-snoc w p.next p.free)

  start_spawn-IsPlaced :
      (lock : Lock) (spawned : Bool) (p : Pool)
      → IsPlaced p
      → IsPlaced (after_start_spawn lock spawned p)
  unfolding after_start_spawn
  start_spawn-IsPlaced unlocked spawned p h = h
  start_spawn-IsPlaced (starting zero) spawned p h = h
  start_spawn-IsPlaced (starting (suc n)) true p h =
      add_worker-IsPlaced (record p { lock = starting_with n }) h
  start_spawn-IsPlaced (starting (suc n)) false p h = h
  start_spawn-IsPlaced refilling spawned p h = h

  refill_spawn-IsPlaced :
      (lock : Lock) (spawned : Bool) (p : Pool)
      → IsPlaced p
      → IsPlaced (after_refill_spawn lock spawned p)
  unfolding after_refill_spawn
  refill_spawn-IsPlaced unlocked spawned p h = h
  refill_spawn-IsPlaced (starting n) spawned p h = h
  refill_spawn-IsPlaced refilling spawned p h = elim (Bool-cases (spawned && not p.closed)) [
    | inl e ↦ rw e (add_worker-IsPlaced (record p { lock = unlocked }) h)
    | inr e ↦ rw e h
  ]

  acquire-IsPlaced :
      (queue : List ℕ) (exited : Bool) (p : Pool)
      → p.free ≡ queue
      → IsPlaced p
      → IsPlaced (acquire queue exited p)
  unfolding acquire count
  acquire-IsPlaced [] exited p e h = h
  acquire-IsPlaced (x ∷ rest) true p e h =
      moved_out x p (record p { free = rest }) h (omega (arith, ap (count w) e)) refl
  acquire-IsPlaced (x ∷ rest) false p e h = omega (arith, ap (count w) e)

  give_back-IsPlaced :
      (x : ℕ) (succeeded : Bool) (p : Pool) → IsPlaced p → IsPlaced (give_back x succeeded p)
  give_back-IsPlaced x succeeded p h =
      give_back-cases IsPlaced x succeeded p h
        (λ here. moved_out x p _ h (omega (arith, count-remove_one w x p.leased here)) refl)
        (λ here. moved_out x p _ h (omega (arith, count-remove_one w x p.leased here)) refl)
        (λ here good. omega (arith, count-remove_one w x p.leased here, count-snoc w x p.free))

  sweep-IsPlaced :
      (drained : List ℕ) (exited : Bool) (age : ℕ) (pong : Bool) (p : Pool)
      → p.sweeping ≡ drained
      → IsPlaced p
      → IsPlaced (sweep drained exited age pong p)
  unfolding sweep count
  sweep-IsPlaced [] exited age pong p e h = h
  sweep-IsPlaced (x ∷ rest) exited age pong p e h =
      sweep-cases IsPlaced x rest exited age pong p
        (moved_out x p (record p { sweeping = rest }) h (omega (arith, ap (count w) e)) refl)
        (omega (arith, ap (count w) e, count-snoc w x p.free))

  swept_all : (xs : List ℕ) → is_empty xs ≡ true → count w xs ≡ 0
  unfolding count
  swept_all [] h = refl
  swept_all (x ∷ xs) h = cc

  pub step-IsPlaced : (e : Event) (p : Pool) → IsPlaced p → IsPlaced (step e p)
  unfolding step count drain end_shutdown
  step-IsPlaced start_called p h = start-cases IsPlaced p h (λ early idle. h)
  step-IsPlaced (start_spawned spawned) p h = start_spawn-IsPlaced p.lock spawned p h
  step-IsPlaced (acquired exited) p h = acquire-IsPlaced p.free exited p refl h
  step-IsPlaced (job_ended x succeeded) p h = give_back-IsPlaced x succeeded p h
  step-IsPlaced reaped p h = reap-cases IsPlaced p.refills p h (λ m e. h) (λ m e free room. h)
  step-IsPlaced (refill_spawned spawned) p h = refill_spawn-IsPlaced p.lock spawned p h
  step-IsPlaced sweep_started p h =
      begin_sweep-cases IsPlaced p h (λ finished. omega (arith, swept_all p.sweeping finished))
  step-IsPlaced (swept exited age pong) p h = sweep-IsPlaced p.sweeping exited age pong p refl h
  step-IsPlaced shutdown_called p h = omega arith
  step-IsPlaced shutdown_drained p h = branch IsPlaced p.closed (omega arith) h
  step-IsPlaced terminated p h = terminate-cases IsPlaced p.terminating p h (λ x rest. h)
  step-IsPlaced shutdown_ended p h = branch IsPlaced (p.drained && is_empty p.terminating) h h

  history-IsPlaced : (events : List Event) (p : Pool) → IsPlaced p → IsPlaced (run_events events p)
  unfolding run_events
  history-IsPlaced [] p h = h
  history-IsPlaced (e ∷ es) p h = history-IsPlaced es (step e p) (step-IsPlaced e p h)

-- After any steps, in any order, a worker that was spawned stands at most once in the queue, among
-- the leased, among those that a sweep has drained and among the discarded, all together: it has one
-- holder, and a discarded worker is neither in the queue nor leased again. A number that no worker
-- has yet stands nowhere.
pub run_events-IsPlaced :
    (w size max_jobs max_age : ℕ) (events : List Event)
    → IsPlaced w (run_events events (new_pool size max_jobs max_age))
unfolding count
run_events-IsPlaced w size max_jobs max_age events =
    history-IsPlaced w events (new_pool size max_jobs max_age) (omega arith)
