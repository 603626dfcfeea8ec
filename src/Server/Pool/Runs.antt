-- ===== src/Server/Pool/Runs.antt =====
-- Runs of the worker pool of internal/server/pool.go: where the connections are, and how many.
use redis_course.Base.{
  ℕ, zero, suc, ◌+◌, ◌≤◌, ◌≡◌, refl, arith, inl, inr, Option, none, some, List, [], ◌∷◌, ◌++◌, ◌==◌,
  if◌then◌else◌, length, get_elem?, set, replicate, All, Bool-cases, Option-cases, length-append,
}
use mathlib.Core.Path.{subst}
use redis_course.Server.Pool.{
  Worker, WorkerPool, PoolConfig, new_worker_pool, Event, submit, hand, close, receive, start,
  finish, remove_one, set_worker, Reaches, here, next,
}
use redis_course.Server.Pool.Steps.{
  Effect, submitted, handed, closes, received, started, finished, step-Effect,
}

-- The sum of a number over the workers.
abbrev pub sum_of : (Worker → ℕ) → List Worker → ℕ
sum_of f [] = 0
sum_of f (w ∷ ws) = f w + sum_of f ws

pub sum_of-set :
    (f : Worker → ℕ) (ws : List Worker) (i : ℕ) (v w : Worker)
    → get_elem? ws i ≡ some w
    → sum_of f (set ws i v) + f w ≡ sum_of f ws + f v
sum_of-set f [] i v w h = cc
sum_of-set f (u ∷ ws) zero v w h = let e : u ≡ w = cc in rw e (omega arith)
sum_of-set f (u ∷ ws) (suc i) v w h = omega (arith, sum_of-set f ws i v w h)

sum_of-replicate : (f : Worker → ℕ) (n : ℕ) (w : Worker) → f w ≡ 0 → sum_of f (replicate n w) ≡ 0
sum_of-replicate f zero w h = refl
sum_of-replicate f (suc n) w h = omega (arith, h, sum_of-replicate f n w h)

-- How often a connection stands in a list.
abbrev pub count : ℕ → List ℕ → ℕ
count c [] = 0
count c (d ∷ ds) = (if c == d then 1 else 0) + count c ds

count-append : (c : ℕ) (ds bs : List ℕ) → count c (ds ++ bs) ≡ count c ds + count c bs
count-append c [] bs = omega arith
count-append c (d ∷ ds) bs = omega (arith, count-append c ds bs)

count-remove_one :
    (c d : ℕ) (ds es : List ℕ)
    → remove_one d ds ≡ some es
    → count c ds ≡ (if c == d then 1 else 0) + count c es
unfolding remove_one
count-remove_one c d [] es h = cc
count-remove_one c d (e ∷ ds) es h = elim (Bool-cases (d == e)) [
  | inl b ↦ let r = rw b at h in ground arith
  | inr b ↦ elim (Option-cases (remove_one d ds)) [
    | inl n ↦ cc (rw n at (rw b at h))
    | inr (fs, n) ↦
        let r = rw n at (rw b at h) in let i = count-remove_one c d ds fs n in ground arith
  ]
]

abbrev in_hand : ℕ → Option ℕ → ℕ
in_hand c none = 0
in_hand c (some d) = if c == d then 1 else 0

abbrev at_worker : ℕ → Worker → ℕ
at_worker c w = in_hand c w.held + count c w.running

-- The places where a connection is: in the channel, at a worker, or handled.
abbrev pub places : ℕ → WorkerPool → ℕ
places c p = count c p.jobs + sum_of (at_worker c) p.workers + count c p.handled

abbrev pub submissions : ℕ → List Event → ℕ
submissions c [] = 0
submissions c (submit d ∷ es) = (if c == d then 1 else 0) + submissions c es
submissions c (hand d i ∷ es) = (if c == d then 1 else 0) + submissions c es
submissions c (_ ∷ es) = submissions c es

-- Within the limits of the channels.
abbrev pub InBounds : PoolConfig → WorkerPool → Type 0
InBounds g p =
    (length p.jobs ≤ g.queue_size)
    × All (λ w. length w.running ≤ g.connections_per_worker) p.workers

pub length-remove_one :
    (c : ℕ) (ds es : List ℕ) → remove_one c ds ≡ some es → length ds ≡ suc (length es)
unfolding remove_one
length-remove_one c [] es h = cc
length-remove_one c (d ∷ ds) es h = elim (Bool-cases (c == d)) [
  | inl b ↦ let r : ds ≡ es = cc (rw b at h) in rw r refl
  | inr b ↦ elim (Option-cases (remove_one c ds)) [
    | inl n ↦ cc (rw n at (rw b at h))
    | inr (fs, n) ↦
        let r : d ∷ fs ≡ es = cc (rw n at (rw b at h)) in
        let i = length-remove_one c ds fs n in rw (← r) (omega arith)
  ]
]

set-All :
    (Q : Worker → Type 0) (ws : List Worker) (i : ℕ) (w : Worker)
    → Q w
    → All Q ws
    → All Q (set ws i w)
set-All Q [] i w h hs = tt
set-All Q (u ∷ ws) zero w h (k, ks) = (h, ks)
set-All Q (u ∷ ws) (suc i) w h (k, ks) = (k, set-All Q ws i w h ks)

get-All :
    (Q : Worker → Type 0) (ws : List Worker) (i : ℕ) (w : Worker)
    → All Q ws
    → get_elem? ws i ≡ some w
    → Q w
get-All Q [] i w hs e = cc
get-All Q (u ∷ ws) zero w (k, ks) e = let d : u ≡ w = cc in subst Q d k
get-All Q (u ∷ ws) (suc i) w (k, ks) e = get-All Q ws i w ks e

replicate-All : (Q : Worker → Type 0) (n : ℕ) (w : Worker) → Q w → All Q (replicate n w)
replicate-All Q zero w h = tt
replicate-All Q (suc n) w h = (h, replicate-All Q n w h)

submissions-cons :
    (c : ℕ) (e : Event) (es : List Event)
    → submissions c (e ∷ es) ≡ submissions c (e ∷ []) + submissions c es
submissions-cons c (submit d) es = omega arith
submissions-cons c (hand d i) es = omega arith
submissions-cons c close es = omega arith
submissions-cons c (receive i) es = omega arith
submissions-cons c (start i) es = omega arith
submissions-cons c (finish i d) es = omega arith

module _ (g : PoolConfig) where
  Effect-places :
      (c : ℕ) (p q : WorkerPool) (e : Event)
      → Effect g p q e
      → places c q ≡ places c p + submissions c (e ∷ [])
  unfolding set_worker
  Effect-places c p q _ (submitted d l h) =
      let a = count-append c p.jobs (d ∷ []) in rw h (omega arith)
  Effect-places c p q _ (handed d i w e n h) =
      let a = sum_of-set (at_worker c) p.workers i (record w { held = some d }) w e in
      let z : in_hand c w.held ≡ 0 = rw n refl in rw h (omega arith)
  Effect-places c p q _ (closes h) = rw h (omega arith)
  Effect-places c p q _ (received d i w cs e n j h) =
      let a = sum_of-set (at_worker c) p.workers i (record w { held = some d }) w e in
      let z : in_hand c w.held ≡ 0 = rw n refl in
      let k : count c p.jobs ≡ (if c == d then 1 else 0) + count c cs = rw j refl in
      rw h (omega arith)
  Effect-places c p q _ (started d i w e n l h) =
      let a =
        sum_of-set (at_worker c) p.workers i (record { held = none; running = d ∷ w.running }) w
          e in
      let z : in_hand c w.held ≡ (if c == d then 1 else 0) = rw n refl in rw h (omega arith)
  Effect-places c p q _ (finished d i w rest e r h) =
      let a = sum_of-set (at_worker c) p.workers i (record w { running = rest }) w e in
      let b = count-remove_one c d w.running rest r in rw h (omega arith)

  -- No connection is lost and none is handled twice: in every pool that events lead to, a connection
  -- stands in the channel, at a worker or among the handled ones as often as it was submitted.
  pub places-submissions :
      (es : List Event) (q : WorkerPool) (c : ℕ)
      → Reaches g (new_worker_pool g) es q
      → places c q ≡ submissions c es
  unfolding new_worker_pool
  places-submissions _ _ c here = omega (
    arith,
    sum_of-replicate (at_worker c) g.worker_count (record { held = none; running = [] }) refl,
  )
  places-submissions _ q c (next {es = es} {q = p} e r h) =
      let a = places-submissions es p c r in
      let b = Effect-places c p q e (step-Effect g p q e h) in
      let d = submissions-cons c e es in omega arith

  Effect-InBounds : (p q : WorkerPool) (e : Event) → Effect g p q e → InBounds g p → InBounds g q
  unfolding set_worker
  Effect-InBounds p q _ (submitted d l h) (b, bs) =
      let a = length-append p.jobs (d ∷ []) in rw h (omega arith, bs)
  Effect-InBounds p q _ (handed d i w e n h) (b, bs) =
      rw h (b, set-All _ p.workers i (record w { held = some d }) (get-All _ p.workers i w bs e) bs)
  Effect-InBounds p q _ (closes h) (b, bs) = rw h (b, bs)
  Effect-InBounds p q _ (received d i w cs e n j h) (b, bs) =
      let k : length p.jobs ≡ suc (length cs) = rw j refl in
      rw h (
        omega arith,
        set-All _ p.workers i (record w { held = some d }) (get-All _ p.workers i w bs e) bs,
      )
  Effect-InBounds p q _ (started d i w e n l h) (b, bs) =
      rw h (
        b,
        set-All _ p.workers i (record { held = none; running = d ∷ w.running }) (omega arith) bs,
      )
  Effect-InBounds p q _ (finished d i w rest e r h) (b, bs) =
      let k : length w.running ≤ g.connections_per_worker = get-All _ p.workers i w bs e in
      let m = length-remove_one d w.running rest r in
      rw h (b, set-All _ p.workers i (record w { running = rest }) (omega arith) bs)

  -- In every pool that events lead to, the channel holds at most as many connections as its buffer
  -- has room for, and every worker handles at most as many at a time as it has slots.
  pub Reaches-InBounds :
      (es : List Event) (q : WorkerPool) → Reaches g (new_worker_pool g) es q → InBounds g q
  unfolding new_worker_pool
  Reaches-InBounds _ _ here = (omega arith, replicate-All _ g.worker_count _ (omega arith))
  Reaches-InBounds _ q (next {es = es} {q = p} e r h) =
      Effect-InBounds p q e (step-Effect g p q e h) (Reaches-InBounds es p r)
