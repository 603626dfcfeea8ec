-- ===== src/Server/Drain.antt =====
-- The shutdown of internal/server/server.go: `connSet` and its `drain`. A connection is a number. In
-- a round of the loop, handlers may have ended, the flags are what `isBusy` reads, and the clock is
-- what `time.Now` reads.
use redis_course.Base.{
  ℕ, zero, suc, ◌+◌, ◌*◌, ◌≤◌, ◌<◌, ◌⊎◌, ◌≡◌, refl, ap, arith, inl, inr, Bool, true, false, List,
  [], ◌∷◌, ◌++◌, ltb, ltb→lt, ◌==◌, if◌then◌else◌, length, All, All-append, Bool-cases,
}
use mathlib.Core.Path.{subst}

-- The tracked connections.
pub record ConnSet : Type 0 where
  pub conns : List ℕ

unfoldable pub new_conn_set : ConnSet
new_conn_set = record { conns = [] }

pub without : ℕ → List ℕ → List ℕ
without c [] = []
without c (d ∷ ds) = let rest = without c ds in if c == d then rest else d ∷ rest

-- `cs.conns[conn] = struct{}{}` and `delete(cs.conns, conn)`.
unfoldable pub add : ℕ → ConnSet → ConnSet
unfolding without
add c s = record s { conns = c ∷ without c s.conns }

unfoldable pub remove : ℕ → ConnSet → ConnSet
unfolding without
remove c s = record s { conns = without c s.conns }

pub busy_ones : (ℕ → Bool) → List ℕ → List ℕ
busy_ones busy [] = []
busy_ones busy (c ∷ cs) = let rest = busy_ones busy cs in if busy c then c ∷ rest else rest

pub idle_ones : (ℕ → Bool) → List ℕ → List ℕ
idle_ones busy [] = []
idle_ones busy (c ∷ cs) = let rest = idle_ones busy cs in if busy c then rest else c ∷ rest

-- The set, and the connections that `Close` is called for.
unfoldable pub close_idle : (ℕ → Bool) → ConnSet → ConnSet × List ℕ
unfolding busy_ones idle_ones
close_idle busy s = (record { conns = busy_ones busy s.conns }, idle_ones busy s.conns)

unfoldable pub close_all : ConnSet → ConnSet × List ℕ
close_all s = (record { conns = [] }, s.conns)

-- A round of the loop: the handlers that have called `remove` since the last one, the flags and the
-- time.
pub record Round : Type 0 where
  pub ended : List ℕ
  pub busy : ℕ → Bool
  pub now : ℕ

pub remove_all : List ℕ → ConnSet → ConnSet
unfolding remove
remove_all [] s = s
remove_all (c ∷ cs) s = remove_all cs (remove c s)

-- The calls of `Close`: a connection, with the round that it is called in.
abbrev pub Closes : Type 0
Closes = List (ℕ × ℕ)

pub called_in : ℕ → List ℕ → Closes
called_in i [] = []
called_in i (c ∷ cs) = (c, i) ∷ called_in i cs

pub data Drained : Type 0 where
  done : ConnSet → Closes → Drained
  out_of_fuel : Drained

module _ (deadline : ℕ) (rounds : ℕ → Round) where
  -- The loop from its round `i`, where `calls` are the calls of `Close` that it has made.
  pub drain_loop : ℕ → ℕ → ConnSet → Closes → Drained
  unfolding remove_all close_idle close_all called_in
  drain_loop zero i s calls = out_of_fuel
  drain_loop (suc f) i s calls =
      let r = rounds i in
      let (t, idle) = close_idle r.busy (remove_all r.ended s) in
      let so_far = called_in i idle ++ calls in
      let (empty, rest) = close_all t in
      let later = drain_loop f (suc i) t so_far in
      if length t.conns == 0
      then done t so_far
      else if ltb r.now deadline
      then later
      else done empty (called_in i rest ++ so_far)

-- `drain`, where `start` is the first reading of the clock, on fuel.
unfoldable pub drain : ℕ → ℕ → (ℕ → Round) → ℕ → ConnSet → Drained
unfolding drain_loop
drain start timeout rounds fuel s = drain_loop (start + timeout) rounds fuel 0 s []

length-nil : (cs : List ℕ) → (length cs == 0) ≡ true → cs ≡ []
length-nil [] h = refl
length-nil (c ∷ cs) h = absurd (ground arith)

add_shift : (i f : ℕ) → i + suc f ≡ suc i + f
add_shift i f = omega arith

module _ (start timeout interval : ℕ) (rounds : ℕ → Round) where
  -- The clock moves on by at least the poll interval in each round.
  abbrev pub Ticks : Type 0
  Ticks = (j : ℕ) → start + j * interval ≤ (rounds j).now

  abbrev Empties : Drained → Type 0
  Empties o = (t : ConnSet) × (calls : Closes) × (o ≡ done t calls) × (t.conns ≡ [])

  -- A round, over the rest of the loop.
  round-Empties :
      (f i : ℕ) (s : ConnSet) (calls : Closes)
      → ((rounds i).now < start + timeout
          → (t : ConnSet) (more : Closes)
          → Empties (drain_loop (start + timeout) rounds f (suc i) t more))
      → Empties (drain_loop (start + timeout) rounds (suc f) i s calls)
  unfolding drain_loop close_all close_idle
  round-Empties f i s calls again =
      let r = rounds i in
      let u = remove_all r.ended s in
      let t = (close_idle r.busy u).0 in
      let idle = called_in i (idle_ones r.busy u.conns) ++ calls in
      elim (Bool-cases (length t.conns == 0)) [
        | inl e ↦ rw (e, drain_loop) (t, idle, refl, length-nil t.conns e)
        | inr e ↦ elim (Bool-cases (ltb r.now (start + timeout))) [
          | inr l ↦
              rw (e, drain_loop) (rw l ((close_all t).0, called_in i t.conns ++ idle, refl, refl))
          | inl l ↦ rw (e, drain_loop) (rw l (again (ltb→lt _ _ l) t idle))
        ]
      ]

  loop-Empties :
      (f i : ℕ) (s : ConnSet) (calls : Closes)
      → Ticks
      → timeout ≤ (i + f) * interval
      → Empties (drain_loop (start + timeout) rounds (suc f) i s calls)
  loop-Empties zero i s calls k h = round-Empties zero i s calls λ l t more.
      let a = k i in
      let b : (i + 0) * interval ≡ i * interval = ap (λ (n : ℕ). n * interval) (omega arith) in
      absurd (omega arith)
  loop-Empties (suc f) i s calls k h =
      round-Empties (suc f) i s calls
        λ l t more. loop-Empties f (suc i) t more k (rw (← add_shift i f) h)

  -- `drain` ends with no connection left in the set, whatever the handlers do: if each round takes at
  -- least the poll interval, it ends within the rounds that the timeout has room for, and one more.
  pub drain-empties :
      (f : ℕ) (s : ConnSet)
      → Ticks
      → timeout ≤ f * interval
      → (t : ConnSet) × (calls : Closes) × (drain start timeout rounds (suc f) s ≡ done t calls)
        × (t.conns ≡ [])
  unfolding drain
  drain-empties f s k h = let e : 0 + f ≡ f = omega arith in loop-Empties f 0 s [] k (rw e h)

module _ (start timeout : ℕ) (rounds : ℕ → Round) where
  -- A call of `Close` is allowed: in the round that it is made in, the connection's flag is down, or
  -- the clock is past the deadline.
  abbrev pub Allowed : ℕ × ℕ → Type 0
  Allowed (c, j) = ((rounds j).busy c ≡ false) ⊎ (start + timeout ≤ (rounds j).now)

  idle-Allowed : (j : ℕ) (cs : List ℕ) → All Allowed (called_in j (idle_ones (rounds j).busy cs))
  unfolding idle_ones called_in
  idle-Allowed j [] = tt
  idle-Allowed j (c ∷ cs) = elim (Bool-cases ((rounds j).busy c)) [
    | inl b ↦ rw b (idle-Allowed j cs)
    | inr b ↦ rw b (inl b, idle-Allowed j cs)
  ]

  late-Allowed :
      (j : ℕ) (cs : List ℕ) → start + timeout ≤ (rounds j).now → All Allowed (called_in j cs)
  unfolding called_in
  late-Allowed j [] h = tt
  late-Allowed j (c ∷ cs) h = (inr h, late-Allowed j cs h)

  Spares : Drained → Type 0
  Spares (done t calls) = All Allowed calls
  Spares out_of_fuel = Unit

  loop-Spares :
      (f i : ℕ) (s : ConnSet) (calls : Closes)
      → All Allowed calls
      → Spares (drain_loop (start + timeout) rounds f i s calls)
  unfolding drain_loop close_all close_idle Spares
  loop-Spares zero i s calls h = tt
  loop-Spares (suc f) i s calls h =
      let r = rounds i in
      let u = remove_all r.ended s in
      let t = (close_idle r.busy u).0 in
      let idle = called_in i (idle_ones r.busy u.conns) ++ calls in
      let c : All Allowed idle =
        All-append Allowed (called_in i (idle_ones r.busy u.conns)) calls (idle-Allowed i u.conns)
          h in
      elim (Bool-cases (length t.conns == 0)) [
        | inl e ↦ rw (e, drain_loop) c
        | inr e ↦ elim (Bool-cases (ltb r.now (start + timeout))) [
          | inr l ↦
              rw (e, drain_loop)
                (rw l (
                  All-append Allowed (called_in i t.conns) idle
                    (late-Allowed i t.conns (ground arith)) c))
          | inl l ↦ rw (e, drain_loop) (rw l (loop-Spares f (suc i) t idle c))
        ]
      ]

  -- `drain` calls `Close` for a connection only in a round in which the connection's flag, as
  -- `isBusy` reads it there, is down, or in which the clock is past the deadline. (The flag may go up
  -- again between the reading and the call.)
  pub drain-spares :
      (f : ℕ) (s t : ConnSet) (calls : Closes)
      → drain start timeout rounds f s ≡ done t calls
      → All Allowed calls
  unfolding drain Spares
  drain-spares f s t calls e = subst Spares e (loop-Spares f 0 s [] tt)
