-- ===== src/SandboxPool.antt =====
-- services/sandbox_pool.py: the pool of warm workers. Its coroutines run on one thread and change the
-- pool between two awaits, so a history is a sequence of such steps, in any order that the loop may
-- choose. A worker is a number. What the processes do, whether a spawn succeeds, a job fails, a
-- worker exits or answers a ping, and how old it is, comes with the step.
pub mod Bounded
pub mod Cases
pub mod Counts
pub mod Exclusive
pub mod Late
pub mod Sweeping
pub mod Worked
use m_gate.Prelude.{
  Bool, Dict, List, Option, [], elem, false, if◌then◌else◌, insert, is_empty, leb, length, lookup,
  none, not, pull, some, suc, true, zero, ℕ, ◌&&◌, ◌++◌, ◌+◌, ◌==◌, ◌||◌, ◌∷◌, string_eq, nat_eq,
  pair_eq,
}

-- Who holds the pool's lock: nobody, `start` with the spawns that are left, or a refill.
pub data Lock : Type 0 where
  unlocked : Lock
  starting : ℕ → Lock
  refilling : Lock

abbrev pub starting_with : ℕ → Lock
starting_with zero = unlocked
starting_with (suc n) = starting (suc n)

pub record Pool : Type 0 where
  pub size : ℕ
  pub max_jobs : ℕ
  pub max_age : ℕ
  -- `_all` and `_free`
  pub members : List ℕ
  pub free : List ℕ
  -- The workers that a `submit` holds, and those that a sweep has drained.
  pub leased : List ℕ
  pub sweeping : List ℕ
  -- The workers that `_discard` was called for, and those whose `alive` is false.
  pub retired : List ℕ
  pub dead : List ℕ
  pub jobs : Dict ℕ ℕ
  -- The tasks of `_reap_and_refill` that have not got the lock.
  pub refills : ℕ
  pub lock : Lock
  pub started : Bool
  pub closed : Bool
  -- Whether a `shutdown` has emptied the pool, and the workers that it still has to terminate.
  pub drained : Bool
  pub terminating : List ℕ
  -- The worker that is spawned next.
  pub next : ℕ

abbrev pub new_pool : ℕ → ℕ → ℕ → Pool
new_pool size max_jobs max_age = record {
  size = size;
  max_jobs = max_jobs;
  max_age = max_age;
  members = [];
  free = [];
  leased = [];
  sweeping = [];
  retired = [];
  dead = [];
  jobs = [];
  refills = 0;
  lock = unlocked;
  started = false;
  closed = false;
  drained = false;
  terminating = [];
  next = 0;
}

-- What happens next to the pool.
pub data Event : Type 0 where
  start_called : Event
  -- A spawn of `start` has come to an end, with a worker or without.
  start_spawned : Bool → Event
  -- A `submit` gets the head of the queue, which has exited or not.
  acquired : Bool → Event
  -- The job on a worker has returned a frame, or has raised.
  job_ended : ℕ → Bool → Event
  -- A refill goes on after the wait for the process that was killed.
  reaped : Event
  refill_spawned : Bool → Event
  sweep_started : Event
  -- The sweep looks at a worker: whether it has exited, its age, and whether it answers a ping.
  swept : Bool → ℕ → Bool → Event
  -- A `shutdown` up to its first wait, then up to the wait for the first worker, the start of one
  -- more termination, and the end. More than one may be under way.
  shutdown_called : Event
  shutdown_drained : Event
  terminated : Event
  shutdown_ended : Event

abbrev pub or_zero : Option ℕ → ℕ
or_zero none = 0
or_zero (some n) = n

abbrev pub jobs_of : ℕ → Pool → ℕ
jobs_of w p = or_zero (lookup w p.jobs)

-- One occurrence less.
unfoldable pub remove_one : ℕ → List ℕ → List ℕ
remove_one w [] = []
remove_one w (x ∷ xs) = if w == x then xs else x ∷ remove_one w xs

unfoldable pub discard : ℕ → Pool → Pool
discard w p =
    let q = record p { retired = w ∷ p.retired } in
    if elem w p.dead
    then q
    else record q { dead = w ∷ p.dead; members = pull w p.members; refills = suc p.refills }

-- `self._all.add(worker)` and `self._free.put_nowait(worker)`, for a worker that was spawned.
unfoldable pub add_worker : Pool → Pool
add_worker p = record p {
  next = suc p.next;
  members = p.members ++ p.next ∷ [];
  free = p.free ++ p.next ∷ [];
}

unfoldable pub start : Pool → Pool
start p = if p.started || p.closed then p else elim p.lock [
  | unlocked ↦ record p { started = true; lock = starting_with p.size }
  | other ↦ p
]

unfoldable pub after_start_spawn : Lock → Bool → Pool → Pool
unfolding add_worker
after_start_spawn (starting (suc n)) spawned p =
    let q = record p { lock = starting_with n } in if spawned then add_worker q else q
after_start_spawn lock spawned p = p

unfoldable pub acquire : List ℕ → Bool → Pool → Pool
unfolding discard
acquire [] exited p = p
acquire (w ∷ rest) exited p =
    let q = record p { free = rest } in
    if exited then discard w q else record q { leased = w ∷ p.leased }

-- What `submit` does after its job.
unfoldable pub give_back : ℕ → Bool → Pool → Pool
unfolding discard remove_one
give_back w succeeded p =
    let q = record p { leased = remove_one w p.leased } in
    let n = jobs_of w p + 1 in
    let served = record q { jobs = insert w n p.jobs } in
    if not (elem w p.leased)
    then p
    else if not succeeded
    then discard w q
    else if not (p.max_jobs == 0) && leb p.max_jobs n
    then discard w served
    else record served { free = p.free ++ w ∷ [] }

unfoldable pub reap : ℕ → Pool → Pool
reap zero p = p
reap (suc n) p = if p.closed then record p { refills = n } else elim p.lock [
  | unlocked ↦
      if leb p.size (length p.members)
      then record p { refills = n }
      else record p { refills = n; lock = refilling }
  | other ↦ p
]

-- A replacement that comes after the shutdown is terminated.
unfoldable pub after_refill_spawn : Lock → Bool → Pool → Pool
unfolding add_worker
after_refill_spawn refilling spawned p =
    let q = record p { lock = unlocked } in if spawned && not p.closed then add_worker q else q
after_refill_spawn lock spawned p = p

-- A sweep drains the queue; the next one starts after it has ended.
unfoldable pub begin_sweep : Pool → Pool
begin_sweep p =
    if p.closed || not (is_empty p.sweeping) then p else record p { free = []; sweeping = p.free }

unfoldable pub sweep : List ℕ → Bool → ℕ → Bool → Pool → Pool
unfolding discard
sweep [] exited age pong p = p
sweep (w ∷ rest) exited age pong p =
    let q = record p { sweeping = rest } in
    let requeued = record q { free = p.free ++ w ∷ [] } in
    if p.closed
    then requeued
    else if exited
    then discard w q
    else if not (p.max_age == 0) && leb p.max_age age
    then discard w q
    else if not pong
    then discard w q
    else requeued

abbrev pub cancelled : Lock → Lock
cancelled refilling = unlocked
cancelled lock = lock

-- `shutdown` closes the pool and cancels the sweep, which does nothing after that.
unfoldable pub shutdown : Pool → Pool
shutdown p = record p { closed = true; sweeping = [] }

-- Once the sweep has ended it takes over the members and empties the queue.
unfoldable pub drain : Pool → Pool
drain p =
    if p.closed
    then record p {
      drained = true;
      members = [];
      free = [];
      terminating = p.terminating ++ p.members;
    }
    else p

-- `_terminate` for the next of them.
unfoldable pub terminate : List ℕ → Pool → Pool
terminate [] p = p
terminate (w ∷ rest) p = record p { terminating = rest; dead = w ∷ p.dead }

-- At last it cancels the refills.
unfoldable pub end_shutdown : Pool → Pool
end_shutdown p =
    if p.drained && is_empty p.terminating
    then record p { refills = 0; lock = cancelled p.lock }
    else p

unfoldable pub step : Event → Pool → Pool
unfolding start after_start_spawn acquire give_back reap after_refill_spawn begin_sweep sweep
    shutdown drain terminate end_shutdown
step start_called p = start p
step (start_spawned spawned) p = after_start_spawn p.lock spawned p
step (acquired exited) p = acquire p.free exited p
step (job_ended w succeeded) p = give_back w succeeded p
step reaped p = reap p.refills p
step (refill_spawned spawned) p = after_refill_spawn p.lock spawned p
step sweep_started p = begin_sweep p
step (swept exited age pong) p = sweep p.sweeping exited age pong p
step shutdown_called p = shutdown p
step shutdown_drained p = drain p
step terminated p = terminate p.terminating p
step shutdown_ended p = end_shutdown p

unfoldable pub run_events : List Event → Pool → Pool
unfolding step
run_events [] p = p
run_events (e ∷ es) p = run_events es (step e p)
