-- ===== src/Server/Pool.antt =====
-- internal/server/pool.go: the worker pool as a machine whose steps are the channel operations. A
-- connection is a number. A step that the code would block in is `blocked`, and one that panics is
-- `panics`.
pub mod Steps
pub mod Runs
pub mod Drains
use redis_course.Base.{
  ℕ, zero, suc, ◌<◌, ◌≡◌, Bool, true, false, Option, none, some, List, [], ◌∷◌, ◌++◌, ltb, ◌==◌,
  if◌then◌else◌, length, get_elem?, set, replicate,
}

-- A worker: the job that it has received and that waits for a slot, and the connections that its
-- goroutines handle, each of which occupies a slot.
pub record Worker : Type 0 where
  pub held : Option ℕ
  pub running : List ℕ

-- The pool: the connections in the channel `jobs`, whether it is closed, the workers, and the
-- connections whose handler has returned.
pub record WorkerPool : Type 0 where
  pub jobs : List ℕ
  pub closed : Bool
  pub workers : List Worker
  pub handled : List ℕ

-- The arguments of `NewWorkerPool`.
pub record PoolConfig : Type 0 where
  pub worker_count : ℕ
  pub connections_per_worker : ℕ
  pub queue_size : ℕ

unfoldable pub new_worker_pool : PoolConfig → WorkerPool
new_worker_pool g = record {
  jobs = [];
  closed = false;
  workers = replicate g.worker_count (record { held = none; running = [] });
  handled = [];
}

pub data Outcome : Type 0 where
  moves : WorkerPool → Outcome
  blocked : Outcome
  panics : Outcome

-- `submit` sends into the buffer of the channel, and `hand` to a worker that waits at an empty one;
-- `receive` is the worker's range over the channel; `start` takes a slot and starts the goroutine,
-- and `finish` is its end, which frees the slot.
pub data Event : Type 0 where
  submit : ℕ → Event
  hand : ℕ → ℕ → Event
  close : Event
  receive : ℕ → Event
  start : ℕ → Event
  finish : ℕ → ℕ → Event

pub remove_one : ℕ → List ℕ → Option (List ℕ)
remove_one c [] = none
remove_one c (d ∷ ds) =
    let rest = remove_one c ds in
    if c == d then some ds else elim rest [ none ↦ none | some es ↦ some (d ∷ es) ]

unfoldable pub set_worker : ℕ → Worker → WorkerPool → WorkerPool
set_worker i w p = record p { workers = set p.workers i w }

module _ (g : PoolConfig) where
  -- `Submit` where the buffer has room.
  unfoldable pub submit_job : ℕ → WorkerPool → Outcome
  submit_job c p =
      if p.closed
      then panics
      else if ltb (length p.jobs) g.queue_size
      then moves (record p { jobs = p.jobs ++ (c ∷ []) })
      else blocked

  take_job : ℕ → Worker → ℕ → WorkerPool → Outcome
  unfolding set_worker
  take_job i w c p = elim w.held [
    | none ↦ moves (set_worker i (record w { held = some c }) p)
    | some d ↦ blocked
  ]

  unfoldable pub hand_job : ℕ → ℕ → WorkerPool → Outcome
  unfolding take_job
  hand_job c i p = elim (get_elem? p.workers i) [
    | none ↦ blocked
    | some w ↦ if p.closed then panics else if length p.jobs == 0 then take_job i w c p else blocked
  ]

  unfoldable pub receive_job : ℕ → WorkerPool → Outcome
  unfolding take_job
  receive_job i p = elim (get_elem? p.workers i) [
    | none ↦ blocked
    | some w ↦ elim p.jobs [ [] ↦ blocked | c ∷ cs ↦ take_job i w c (record p { jobs = cs }) ]
  ]

  unfoldable pub start_job : ℕ → WorkerPool → Outcome
  unfolding set_worker
  start_job i p = elim (get_elem? p.workers i) [
    | none ↦ blocked
    | some w ↦ elim w.held [
      | none ↦ blocked
      | some c ↦
          if ltb (length w.running) g.connections_per_worker
          then moves (set_worker i (record { held = none; running = c ∷ w.running }) p)
          else blocked
    ]
  ]

  unfoldable pub finish_job : ℕ → ℕ → WorkerPool → Outcome
  unfolding set_worker remove_one
  finish_job i c p = elim (get_elem? p.workers i) [
    | none ↦ blocked
    | some w ↦ elim (remove_one c w.running) [
      | none ↦ blocked
      | some rest ↦
          moves (set_worker i (record w { running = rest }) (record p { handled = c ∷ p.handled }))
    ]
  ]

  unfoldable pub close_jobs : WorkerPool → Outcome
  close_jobs p = if p.closed then panics else moves (record p { closed = true })

  unfoldable pub step : Event → WorkerPool → Outcome
  unfolding submit_job hand_job receive_job start_job finish_job close_jobs
  step (submit c) p = submit_job c p
  step (hand c i) p = hand_job c i p
  step close p = close_jobs p
  step (receive i) p = receive_job i p
  step (start i) p = start_job i p
  step (finish i c) p = finish_job i c p

  -- The pools that events lead to.
  pub data Reaches (p : WorkerPool) : List Event → WorkerPool → Type 0 where
    here : Reaches p [] p
    next :
        {es : List Event} {q r : WorkerPool} (e : Event)
        → Reaches p es q
        → step e q ≡ moves r
        → Reaches p (e ∷ es) r
