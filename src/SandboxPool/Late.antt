-- ===== src/SandboxPool/Late.antt =====
-- A `shutdown` that comes while `start` waits for a spawn.
use m_gate.Prelude.{
  Bool, List, [], ap, arith, elem, false, if◌then◌else◌, is_empty, not, pull, refl, subst, suc, sym,
  true, zero, ℕ, ◌&&◌, ◌++◌, ◌==◌, ◌||◌, ◌∷◌, ◌≡◌, string_eq, nat_eq, pair_eq,
}
use m_gate.SandboxPool.{
  Event, Lock, Pool, acquire, acquired, add_worker, after_refill_spawn, after_start_spawn,
  cancelled, discard, drain, end_shutdown, job_ended, reap, reaped, refill_spawned, refilling,
  run_events, shutdown, shutdown_called, shutdown_drained, shutdown_ended, start, start_called,
  start_spawned, starting, step, sweep, sweep_started, swept, terminate, terminated, unlocked,
}
use m_gate.SandboxPool.Cases.{
  begin_sweep-cases, branch, give_back-cases, reap-cases, sweep-cases, terminate-cases,
}

-- So many terminations.
abbrev pub terminations : ℕ → List Event
terminations zero = []
terminations (suc k) = terminated ∷ terminations k

-- A closed pool with one worker, which is in the queue and alive.
abbrev pub HasLeft : ℕ → Pool → Type 0
HasLeft w p = p.closed ≡ true × p.members ≡ w ∷ [] × p.free ≡ w ∷ [] × elem w p.dead ≡ false

-- The worker is none of those that are to be terminated.
Spares : ℕ → Pool → Type 0
Spares w p = HasLeft w p × elem w p.terminating ≡ false

terminate-Spares :
    (w : ℕ) (ws : List ℕ) (p : Pool) → p.terminating ≡ ws → Spares w p → Spares w (terminate ws p)
unfolding terminate Spares
terminate-Spares w [] p at h = h
terminate-Spares w (x ∷ rest) p at ((closed, members, free, alive), spared) =
    let both : ((w == x) || elem w rest) ≡ false = rw at at spared in
    ((closed, members, free, ground (arith, both, alive)), ground (arith, both))

terminations-Spares :
    (w k : ℕ) (after : List Event) (p : Pool)
    → ((q : Pool) → Spares w q → HasLeft w (run_events after q))
    → Spares w p
    → HasLeft w (run_events (terminations k ++ after) p)
unfolding run_events step
terminations-Spares w zero after p finish h = finish p h
terminations-Spares w (suc k) after p finish h =
    terminations-Spares w k after (terminate p.terminating p) finish
      (terminate-Spares w p.terminating p refl h)

elem-append :
    (w : ℕ) (xs ys : List ℕ) → elem w xs ≡ false → elem w ys ≡ false → elem w (xs ++ ys) ≡ false
elem-append w [] ys h k = k
elem-append w (x ∷ xs) ys h k = ground (arith, h, elem-append w xs ys (ground (arith, h)) k)

-- `start` waits for a spawn that succeeds, of a worker that is new. When a `shutdown` closes and
-- empties the pool meanwhile, then after the shutdown, however many workers it terminates, the worker
-- is the one member of the closed pool, stands in the queue, and is alive.
pub start_spawned-after_shutdown :
    (n k : ℕ) (p : Pool)
    → p.lock ≡ starting (suc n)
    → elem p.next p.dead ≡ false
    → elem p.next p.members ≡ false
    → elem p.next p.terminating ≡ false
    → HasLeft p.next (
        run_events
          (shutdown_called ∷ shutdown_drained ∷ start_spawned true ∷ terminations k
            ++ shutdown_ended ∷ [])
          p)
unfolding run_events step shutdown drain after_start_spawn add_worker end_shutdown Spares
start_spawned-after_shutdown n k p at alive new spared = rw at (
    terminations-Spares p.next k (shutdown_ended ∷ []) _
      (λ q h. branch (HasLeft p.next) (q.drained && is_empty q.terminating) h.0 h.0)
      ((refl, refl, refl, alive), elem-append p.next p.terminating p.members spared new))

-- The spawns that `start` still has to do.
abbrev pub spawns : Lock → ℕ
spawns (starting n) = n
spawns lock = 0

-- A pool that is closed while `start` has no spawn to do; it has no member, once they are gone.
IsShut : Bool → Pool → Type 0
IsShut gone p = p.closed ≡ true × (gone ≡ true → p.members ≡ []) × spawns p.lock ≡ 0

taken : (P : Pool → Type 0) (b : Bool) (q r : Pool) → b ≡ true → P q → P (if b then q else r)
taken P true q r e h = h
taken P false q r e h = cc

not_taken : (P : Pool → Type 0) (b : Bool) (q r : Pool) → b ≡ false → P r → P (if b then q else r)
not_taken P false q r e h = h
not_taken P true q r e h = cc

spawns-cancelled : (lock : Lock) → spawns lock ≡ 0 → spawns (cancelled lock) ≡ 0
spawns-cancelled unlocked h = h
spawns-cancelled (starting n) h = h
spawns-cancelled refilling h = refl

module _ (gone : Bool) where
  discard-IsShut : (x : ℕ) (p : Pool) → IsShut gone p → IsShut gone (discard x p)
  unfolding discard IsShut pull
  discard-IsShut x p h = branch (IsShut gone) (elem x p.dead) h (h.0, λ all. rw (h.1 all) refl, h.2)

  start_spawn-IsShut :
      (lock : Lock) (spawned : Bool) (p : Pool)
      → p.lock ≡ lock
      → IsShut gone p
      → IsShut gone (after_start_spawn lock spawned p)
  unfolding after_start_spawn IsShut
  start_spawn-IsShut unlocked spawned p at h = h
  start_spawn-IsShut (starting zero) spawned p at h = h
  start_spawn-IsShut (starting (suc n)) spawned p at h = absurd (omega (arith, h.2, ap spawns at))
  start_spawn-IsShut refilling spawned p at h = h

  refill_spawn-IsShut :
      (lock : Lock) (spawned : Bool) (p : Pool)
      → IsShut gone p
      → IsShut gone (after_refill_spawn lock spawned p)
  unfolding after_refill_spawn IsShut
  refill_spawn-IsShut unlocked spawned p h = h
  refill_spawn-IsShut (starting n) spawned p h = h
  refill_spawn-IsShut refilling true p h =
      not_taken (IsShut gone) (not p.closed) _ _ (ground (arith, h.0)) (h.0, h.1, refl)
  refill_spawn-IsShut refilling false p h = (h.0, h.1, refl)

  acquire-IsShut :
      (queue : List ℕ) (exited : Bool) (p : Pool)
      → IsShut gone p
      → IsShut gone (acquire queue exited p)
  unfolding acquire IsShut
  acquire-IsShut [] exited p h = h
  acquire-IsShut (x ∷ rest) true p h = discard-IsShut x (record p { free = rest }) h
  acquire-IsShut (x ∷ rest) false p h = h

  sweep-IsShut :
      (drained : List ℕ) (exited : Bool) (age : ℕ) (pong : Bool) (p : Pool)
      → IsShut gone p
      → IsShut gone (sweep drained exited age pong p)
  unfolding sweep IsShut
  sweep-IsShut [] exited age pong p h = h
  sweep-IsShut (x ∷ rest) exited age pong p h =
      sweep-cases (IsShut gone) x rest exited age pong p
        (discard-IsShut x (record p { sweeping = rest }) h) h

  step-IsShut : (e : Event) (p : Pool) → IsShut gone p → IsShut gone (step e p)
  unfolding step start reap shutdown drain end_shutdown IsShut
  step-IsShut start_called p h =
      taken (IsShut gone) (p.started || p.closed) _ _ (ground (arith, h.0)) h
  step-IsShut (start_spawned spawned) p h = start_spawn-IsShut p.lock spawned p refl h
  step-IsShut (acquired exited) p h = acquire-IsShut p.free exited p h
  step-IsShut (job_ended x succeeded) p h =
      give_back-cases (IsShut gone) x succeeded p h (λ here. discard-IsShut x _ h)
        (λ here. discard-IsShut x _ h) (λ here good. h)
  step-IsShut reaped p h =
      reap-cases (IsShut gone) p.refills p h (λ m e. h) (λ m e free room. (h.0, h.1, refl))
  step-IsShut (refill_spawned spawned) p h = refill_spawn-IsShut p.lock spawned p h
  step-IsShut sweep_started p h = begin_sweep-cases (IsShut gone) p h (λ finished. h)
  step-IsShut (swept exited age pong) p h = sweep-IsShut p.sweeping exited age pong p h
  step-IsShut shutdown_called p h = (refl, h.1, h.2)
  step-IsShut shutdown_drained p h = branch (IsShut gone) p.closed (h.0, λ all. refl, h.2) h
  step-IsShut terminated p h = terminate-cases (IsShut gone) p.terminating p h (λ x rest. h)
  step-IsShut shutdown_ended p h =
      branch (IsShut gone) (p.drained && is_empty p.terminating)
        (h.0, h.1, spawns-cancelled p.lock h.2) h

  history-IsShut :
      (events : List Event) (p : Pool) → IsShut gone p → IsShut gone (run_events events p)
  unfolding run_events
  history-IsShut [] p h = h
  history-IsShut (e ∷ es) p h = history-IsShut es (step e p) (step-IsShut e p h)

run_events-append :
    (es fs : List Event) (p : Pool) → run_events (es ++ fs) p ≡ run_events fs (run_events es p)
unfolding run_events
run_events-append [] fs p = refl
run_events-append (e ∷ es) fs p = run_events-append es fs (step e p)

drain-IsShut : (p : Pool) → IsShut false p → IsShut true (drain p)
unfolding drain IsShut
drain-IsShut p h = taken (IsShut true) p.closed _ _ h.0 (h.0, λ all. refl, h.2)

-- No spawn of `start` is under way when a `shutdown` closes the pool. Whatever steps come before it
-- has emptied the pool, and whatever steps follow, spawns of refills among them: the pool stays closed
-- and has no worker among its members.
pub run_events-shutdown :
    (before after : List Event) (p : Pool)
    → spawns p.lock ≡ 0
    → let q = run_events (shutdown_called ∷ before ++ shutdown_drained ∷ after) p in
      q.closed ≡ true × q.members ≡ []
unfolding run_events step shutdown IsShut
run_events-shutdown before after p h =
    let closing = history-IsShut false before (shutdown p) (refl, λ none_yet. cc, h) in
    let shut =
      history-IsShut true after (drain (run_events before (shutdown p))) (drain-IsShut _ closing) in
    subst (λ q. q.closed ≡ true × q.members ≡ [])
      (sym (run_events-append before (shutdown_drained ∷ after) (shutdown p))) (shut.0, shut.1 refl)
