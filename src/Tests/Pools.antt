-- ===== src/Tests/Pools.antt =====
-- The pool at concrete inputs.
use m_gate.Prelude.{List, [], false, length, refl, true, ◌++◌, ◌+◌, ◌∷◌, ◌≡◌, ◌≤◌}
use m_gate.SandboxPool.{
  Event, Pool, acquired, job_ended, new_pool, reaped, refill_spawned, refilling, run_events,
  shutdown_called, shutdown_drained, shutdown_ended, start_called, start_spawned, starting,
  sweep_started, swept,
}
use m_gate.SandboxPool.Bounded.{pending, run_events-size-le}
use m_gate.SandboxPool.Exclusive.{IsPlaced, run_events-IsPlaced}
use m_gate.SandboxPool.Late.{
  HasLeft, run_events-shutdown, start_spawned-after_shutdown, terminations,
}
use m_gate.SandboxPool.Worked.{jobs_given, run_events-jobs_given-le}

-- Two workers, of which one serves a job and is worn out, and the other has exited.
abbrev events : List Event
events =
    start_called
    ∷ start_spawned true
    ∷ start_spawned true
    ∷ acquired false
    ∷ job_ended 0 true
    ∷ acquired true
    ∷ reaped
    ∷ refill_spawned true
    ∷ sweep_started
    ∷ swept false 7 true
    ∷ []

run_events-IsPlaced_example : IsPlaced 0 (run_events events (new_pool 2 1 60))
run_events-IsPlaced_example = run_events-IsPlaced 0 2 1 60 events

run_events-size-le_example :
    let p = run_events events (new_pool 2 1 60) in length p.members + pending p.lock ≤ 2
run_events-size-le_example = run_events-size-le 2 1 60 events

run_events-jobs_given-le_example : jobs_given 0 events (new_pool 2 1 60) ≤ 1
run_events-jobs_given-le_example = run_events-jobs_given-le 0 2 0 60 events

-- A refill waits for its spawn when the pool is shut down, and the spawn succeeds after that.
abbrev refilled : Pool
refilled = record (new_pool 1 0 0) { started = true; lock = refilling; refills = 1; next = 1 }

run_events-shutdown_example :
    let q =
      run_events
        (shutdown_called ∷ (start_called ∷ [])
          ++ shutdown_drained ∷ refill_spawned true ∷ shutdown_ended ∷ [])
        refilled in
    q.closed ≡ true × q.members ≡ []
run_events-shutdown_example =
    run_events-shutdown (start_called ∷ []) (refill_spawned true ∷ shutdown_ended ∷ []) refilled
      refl

-- One worker is there, and `start` waits for the next.
abbrev half_started : Pool
half_started = record (new_pool 2 1 60) {
  started = true;
  lock = starting 1;
  members = 0 ∷ [];
  free = 0 ∷ [];
  next = 1;
}

start_spawned-after_shutdown_example : HasLeft 1 (
    run_events
      (shutdown_called ∷ shutdown_drained ∷ start_spawned true ∷ terminations 1
        ++ shutdown_ended ∷ [])
      half_started)
start_spawned-after_shutdown_example =
    start_spawned-after_shutdown 0 1 half_started refl refl refl refl

-- Two workers are in the hands of a sweep. Between its looks a job ends; the second has exited.
abbrev swept_pool : Pool
swept_pool = record (new_pool 3 0 60) {
  members = 0 ∷ 1 ∷ 2 ∷ [];
  leased = 2 ∷ [];
  sweeping = 0 ∷ 1 ∷ [];
  next = 3;
}

abbrev looked : List Event
looked = swept false 10 true ∷ job_ended 2 false ∷ reaped ∷ swept true 10 true ∷ []
