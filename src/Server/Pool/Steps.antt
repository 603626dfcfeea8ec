-- ===== src/Server/Pool/Steps.antt =====
-- The steps of the worker pool of internal/server/pool.go as a relation.
use redis_course.Base.{
  ℕ, ◌<◌, ◌⊎◌, ◌≡◌, refl, inl, inr, Bool, true, false, none, some, List, [], ◌∷◌, ◌++◌, ltb, ltb→lt,
  ◌==◌, if◌then◌else◌, length, get_elem?, Bool-cases, Option-cases,
}
use redis_course.Server.Pool.{
  Worker, WorkerPool, PoolConfig, Outcome, moves, blocked, panics, Event, submit, hand, close,
  receive, start, finish, remove_one, set_worker, submit_job, take_job, hand_job, receive_job,
  start_job, finish_job, close_jobs, step,
}

moves-injective : (p q : WorkerPool) → moves p ≡ moves q → q ≡ p
moves-injective p q e = cc

pub List-cases : (cs : List ℕ) → (cs ≡ []) ⊎ ((c : ℕ) × (ds : List ℕ) × (cs ≡ c ∷ ds))
List-cases [] = inl refl
List-cases (c ∷ ds) = inr (c, ds, refl)

if_panics-inv :
    (q : WorkerPool) (b : Bool) (o : Outcome) → (if b then panics else o) ≡ moves q → o ≡ moves q
if_panics-inv q true o h = cc
if_panics-inv q false o h = h

if_blocked-inv :
    (q : WorkerPool) (b : Bool) (o : Outcome)
    → (if b then o else blocked) ≡ moves q
    → (b ≡ true) × (o ≡ moves q)
if_blocked-inv q true o h = (refl, h)
if_blocked-inv q false o h = cc

module _ (g : PoolConfig) (p q : WorkerPool) where
  -- What an event does where it moves the pool.
  pub data Effect : Event → Type 0 where
    submitted :
        (c : ℕ)
        → length p.jobs < g.queue_size
        → q ≡ record p { jobs = p.jobs ++ (c ∷ []) }
        → Effect (submit c)
    handed :
        (c i : ℕ) (w : Worker)
        → get_elem? p.workers i ≡ some w
        → w.held ≡ none
        → q ≡ set_worker i (record w { held = some c }) p
        → Effect (hand c i)
    closes : q ≡ record p { closed = true } → Effect close
    received :
        (c i : ℕ) (w : Worker) (cs : List ℕ)
        → get_elem? p.workers i ≡ some w
        → w.held ≡ none
        → p.jobs ≡ c ∷ cs
        → q ≡ set_worker i (record w { held = some c }) (record p { jobs = cs })
        → Effect (receive i)
    started :
        (c i : ℕ) (w : Worker)
        → get_elem? p.workers i ≡ some w
        → w.held ≡ some c
        → length w.running < g.connections_per_worker
        → q ≡ set_worker i (record { held = none; running = c ∷ w.running }) p
        → Effect (start i)
    finished :
        (c i : ℕ) (w : Worker) (rest : List ℕ)
        → get_elem? p.workers i ≡ some w
        → remove_one c w.running ≡ some rest
        → q ≡ set_worker i (record w { running = rest }) (record p { handled = c ∷ p.handled })
        → Effect (finish i c)

  pub step-Effect : (e : Event) → step g e p ≡ moves q → Effect e
  unfolding step submit_job hand_job receive_job start_job finish_job close_jobs take_job
  step-Effect (submit c) h =
      let (l, m) = if_blocked-inv q _ _ (if_panics-inv q p.closed _ h) in
      submitted c (ltb→lt _ _ l) (moves-injective _ q m)
  step-Effect (hand c i) h = elim (Option-cases (get_elem? p.workers i)) [
    | inl e ↦ cc (rw (e, hand_job) at h)
    | inr (w, e) ↦
        let (l, m) =
          if_blocked-inv q (length p.jobs == 0) (take_job g i w c p)
            (if_panics-inv q p.closed _ (rw (e, hand_job) at h)) in
        elim (Option-cases w.held) [
          | inr (d, n) ↦ cc (rw (n, take_job) at m)
          | inl n ↦ handed c i w e n (moves-injective _ q (rw (n, take_job) at m))
        ]
  ]
  step-Effect close h = closes (moves-injective _ q (if_panics-inv q p.closed _ h))
  step-Effect (receive i) h = elim (Option-cases (get_elem? p.workers i)) [
    | inl e ↦ cc (rw (e, receive_job) at h)
    | inr (w, e) ↦ elim (List-cases p.jobs) [
      | inl j ↦ cc (rw j at (rw (e, receive_job) at h))
      | inr (d, ds, j) ↦ elim (Option-cases w.held) [
        | inr (c, n) ↦ cc (rw n at (rw j at (rw (e, receive_job) at h)))
        | inl n ↦
            received d i w ds e n j
              (moves-injective _ q (rw n at (rw j at (rw (e, receive_job) at h))))
      ]
    ]
  ]
  step-Effect (start i) h = elim (Option-cases (get_elem? p.workers i)) [
    | inl e ↦ cc (rw (e, start_job) at h)
    | inr (w, e) ↦ elim (Option-cases w.held) [
      | inl n ↦ cc (rw n at (rw (e, start_job) at h))
      | inr (c, n) ↦ elim (Bool-cases (ltb (length w.running) g.connections_per_worker)) [
        | inl l ↦
            started c i w e n (ltb→lt _ _ l)
              (moves-injective _ q (rw l at (rw n at (rw (e, start_job) at h))))
        | inr l ↦ cc (rw l at (rw n at (rw (e, start_job) at h)))
      ]
    ]
  ]
  step-Effect (finish i c) h = elim (Option-cases (get_elem? p.workers i)) [
    | inl e ↦ cc (rw (e, finish_job) at h)
    | inr (w, e) ↦ elim (Option-cases (remove_one c w.running)) [
      | inl n ↦ cc (rw n at (rw (e, finish_job) at h))
      | inr (rest, n) ↦
          finished c i w rest e n (moves-injective _ q (rw n at (rw (e, finish_job) at h)))
    ]
  ]
