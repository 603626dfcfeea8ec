-- ===== src/Server/Pool/Drains.antt =====
-- The worker pool of internal/server/pool.go comes to an end of its work.
use redis_course.Base.{
  ℕ, suc, ◌+◌, ◌*◌, ◌≤◌, ◌⊎◌, ◌≡◌, refl, ◌∙◌, arith, inl, inr, true, Option, none, some, List, [],
  ◌∷◌, lt→ltb, ◌==◌, length, get_elem?, All, Bool-cases, Option-cases, length-set,
}
use redis_course.Server.Pool.{
  Worker, WorkerPool, PoolConfig, moves, Event, submit, hand, close, receive, start, finish,
  remove_one, set_worker, take_job, receive_job, start_job, finish_job, step, Reaches, here, next,
}
use redis_course.Server.Pool.Steps.{
  Effect, submitted, handed, closes, received, started, finished, step-Effect, List-cases,
}
use redis_course.Server.Pool.Runs.{sum_of, sum_of-set, length-remove_one}

-- The events of the workers.
abbrev pub IsWork : Event → Type 0
IsWork (submit c) = ⊥
IsWork (hand c i) = ⊥
IsWork close = ⊥
IsWork (receive i) = Unit
IsWork (start i) = Unit
IsWork (finish i c) = Unit

abbrev steps_in_hand : Option ℕ → ℕ
steps_in_hand none = 0
steps_in_hand (some c) = 2

abbrev steps_at : Worker → ℕ
steps_at w = steps_in_hand w.held + length w.running

-- The steps that are left: three for a connection in the channel, two for one that waits for a slot,
-- and one for one that is handled.
abbrev pub work_left : WorkerPool → ℕ
work_left p = 3 * length p.jobs + sum_of steps_at p.workers

module _ (g : PoolConfig) where
  work-Effect :
      (p q : WorkerPool) (e : Event)
      → IsWork e
      → Effect g p q e
      → (suc (work_left q) ≡ work_left p) × (length q.workers ≡ length p.workers)
  unfolding set_worker
  work-Effect p q _ k (submitted d l h) = absurd k
  work-Effect p q _ k (handed d i w e n h) = absurd k
  work-Effect p q _ k (closes h) = absurd k
  work-Effect p q _ k (received d i w cs e n j h) =
      let a = sum_of-set steps_at p.workers i (record w { held = some d }) w e in
      let z : steps_in_hand w.held ≡ 0 = rw n refl in
      let m : length p.jobs ≡ suc (length cs) = rw j refl in
      rw h (omega arith, length-set p.workers i _)
  work-Effect p q _ k (started d i w e n l h) =
      let a =
        sum_of-set steps_at p.workers i (record { held = none; running = d ∷ w.running }) w e in
      let z : steps_in_hand w.held ≡ 2 = rw n refl in rw h (omega arith, length-set p.workers i _)
  work-Effect p q _ k (finished d i w rest e r h) =
      let a = sum_of-set steps_at p.workers i (record w { running = rest }) w e in
      let b = length-remove_one d w.running rest r in rw h (omega arith, length-set p.workers i _)

  -- A worker with something to do, or none.
  find_busy :
      (ws : List Worker)
      → (sum_of steps_at ws ≡ 0)
        ⊎ ((i : ℕ) × (w : Worker) × (get_elem? ws i ≡ some w) × (1 ≤ steps_at w))
  find_busy [] = inl refl
  find_busy (w ∷ ws) = elim (Bool-cases (steps_at w == 0)) [
    | inr b ↦ inr (0, w, refl, ground arith)
    | inl b ↦ elim (find_busy ws) [
      | inl e ↦ inl (ground arith)
      | inr (i, v, e, h) ↦ inr (suc i, v, e, h)
    ]
  ]

  abbrev Moves : WorkerPool → Type 0
  Moves p = (e : Event) × (q : WorkerPool) × IsWork e × (step g e p ≡ moves q)

  finish-Moves :
      (p : WorkerPool) (i c : ℕ) (w : Worker) (cs : List ℕ)
      → get_elem? p.workers i ≡ some w
      → w.running ≡ c ∷ cs
      → Moves p
  unfolding step finish_job remove_one
  finish-Moves p i c w cs e r =
      let s : (c == c) ≡ true = ground arith in
      let m : remove_one c w.running ≡ some cs = rw r (rw s refl) in
      (
        finish i c,
        set_worker i (record w { running = cs }) (record p { handled = c ∷ p.handled }),
        tt,
        rw (e, finish_job) (rw m refl),
      )

  busy-Moves :
      (p : WorkerPool) (i : ℕ) (w : Worker)
      → 1 ≤ g.connections_per_worker
      → get_elem? p.workers i ≡ some w
      → 1 ≤ steps_at w
      → Moves p
  unfolding step start_job
  busy-Moves p i w k e h = elim (List-cases w.running) [
    | inr (c, cs, r) ↦ finish-Moves p i c w cs e r
    | inl r ↦ elim (Option-cases w.held) [
      | inl n ↦ absurd (
          let a : steps_in_hand w.held ≡ 0 = rw n refl in
          let b : length w.running ≡ 0 = rw r refl in omega arith)
      | inr (c, n) ↦
          let b : length w.running ≡ 0 = rw r refl in
          let l = lt→ltb (length w.running) g.connections_per_worker (omega arith) in
          (
            start i,
            set_worker i (record { held = none; running = c ∷ w.running }) p,
            tt,
            rw (e, start_job) (rw n (rw l refl)),
          )
    ]
  ]

  idle-Moves :
      (p : WorkerPool) (c : ℕ) (cs : List ℕ)
      → 1 ≤ length p.workers
      → sum_of steps_at p.workers ≡ 0
      → p.jobs ≡ c ∷ cs
      → Moves p
  unfolding step receive_job take_job
  idle-Moves p c cs k z j = elim (Option-cases (get_elem? p.workers 0)) [
    | inl e ↦ absurd (none_first p.workers k e)
    | inr (w, e) ↦ elim (Option-cases w.held) [
      | inl n ↦ (
        receive 0,
        set_worker 0 (record w { held = some c }) (record p { jobs = cs }),
        tt,
        rw (e, receive_job) (rw j (rw n refl)),
      )
      | inr (d, n) ↦ absurd (held_first p.workers w d e n z)
    ]
  ]
    where
      none_first : (ws : List Worker) → 1 ≤ length ws → get_elem? ws 0 ≡ none → ⊥
      none_first [] h e = absurd (omega arith)
      none_first (w ∷ ws) h e = cc

      held_first :
          (ws : List Worker) (w : Worker) (d : ℕ)
          → get_elem? ws 0 ≡ some w
          → w.held ≡ some d
          → sum_of steps_at ws ≡ 0
          → ⊥
      held_first [] w d e n z = cc
      held_first (u ∷ ws) w d e n z =
          let f : u.held ≡ some d = cc in
          let a : steps_in_hand u.held ≡ 2 = rw f refl in omega arith

  work-Moves :
      (p : WorkerPool)
      → 1 ≤ g.connections_per_worker
      → 1 ≤ length p.workers
      → (work_left p ≡ 0) ⊎ Moves p
  work-Moves p k l = elim (find_busy p.workers) [
    | inr (i, w, e, h) ↦ inr (busy-Moves p i w k e h)
    | inl z ↦ elim (List-cases p.jobs) [
      | inl j ↦ let a : length p.jobs ≡ 0 = rw j refl in inl (omega arith)
      | inr (c, cs, j) ↦ inr (idle-Moves p c cs l z j)
    ]
  ]

  -- With at least one worker and one slot, the workers never stop before their work is done, whether
  -- or not the channel is closed: while a connection is in the channel or at a worker, a worker can
  -- take a step, and every step of a worker leaves one step less, so that no run of the workers has
  -- more steps than are left at its beginning.
  pub workers-progress :
      (p q : WorkerPool) (es : List Event)
      → 1 ≤ g.connections_per_worker
      → 1 ≤ length p.workers
      → Reaches g p es q
      → All IsWork es
      → (length es + work_left q ≡ work_left p)
        × (length q.workers ≡ length p.workers)
        × ((work_left q ≡ 0) ⊎ ((e : Event) × (r : WorkerPool) × IsWork e × (step g e q ≡ moves r)))
  workers-progress p _ _ k l here w = (omega arith, refl, work-Moves p k l)
  workers-progress p q _ k l (next {es = es} {q = o} e r h) (w, ws) =
      let (a, b, c) = workers-progress p o es k l r ws in
      let (d, f) = work-Effect o q e w (step-Effect g o q e h) in
      (omega arith, f ∙ b, work-Moves q k (omega arith))
