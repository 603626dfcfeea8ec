-- ===== src/Server/Chunks.antt =====
-- How the bytes of a connection are cut into reads does not matter to internal/server/server.go.
use redis_course.Base.{
  ℕ, zero, suc, ◌≤◌, ◌<◌, ◌≡◌, ◌≢◌, ◌⊎◌, inl, inr, refl, sym, ap, ◌∙◌, List, [], ◌∷◌, ◌++◌, arith,
  Bytes, length, drop, append_assoc, append-nil, length-append, length-drop, drop_within,
}
use redis_course.Protocol.Resp.{
  Command, Result, ok, err, panic, unfinished, incomplete, parse_command, decode_one,
}
use redis_course.Protocol.Resp.Bounds.{InMemory}
use redis_course.Protocol.Resp.Commands.{parse_command-extend, parse_command-bounds}
use redis_course.Server.{
  Handled, Handled-cases, after_reply, Status, waiting, parse_failed, write_failed, panicked,
  out_of_fuel, Outcome, status_of, process_round, process_fuel, process_resp_buffer, if_waiting,
  after_read, handle_connection,
}

abbrev pub concat : List Bytes → Bytes
concat [] = []
concat (b ∷ bs) = b ++ concat bs

module _ {S : Type 0} (unicode : Bytes → Bytes) (on_command : Command → S → S × Handled) where
  abbrev round : (Bytes → S → Outcome S) → Bytes → S → Result (Command × ℕ) → Outcome S
  round = process_round unicode on_command

  round-cong :
      (g h : Bytes → S → Outcome S) (pending : Bytes) (s : S) (r : Result (Command × ℕ))
      → ((c : Command) (n : ℕ)
          → r ≡ ok (c, n)
          → (s' : S) → g (drop n pending) s' ≡ h (drop n pending) s')
      → round g pending s r ≡ round h pending s r
  unfolding process_round after_reply
  round-cong g h pending s (ok (c, n)) e = rw (e c n refl (on_command c s).0)
  round-cong g h pending s (err x) e = refl
  round-cong g h pending s panic e = refl
  round-cong g h pending s unfinished e = refl

  pub process_fuel-enough :
      (f g : ℕ) (pending : Bytes) (s : S)
      → InMemory pending
      → length pending < f
      → length pending < g
      → process_fuel unicode on_command f pending s ≡ process_fuel unicode on_command g pending s
  unfolding process_fuel
  process_fuel-enough zero g pending s m h k = elim h [ ]
  process_fuel-enough (suc f) zero pending s m h k = elim k [ ]
  process_fuel-enough (suc f) (suc g) pending s m h k =
      round-cong (process_fuel unicode on_command f) (process_fuel unicode on_command g) pending s
        (parse_command unicode pending)
        λ c n e s'.
          let b = parse_command-bounds unicode pending c n m e in
          let l = length-drop n pending in
          process_fuel-enough f g (drop n pending) s' (omega arith) (omega arith) (omega arith)

  -- What a later buffer does to an outcome: only a loop that waits takes it up.
  resume : Bytes → Outcome S → Outcome S
  unfolding if_waiting
  resume more o =
      if_waiting o.status (process_resp_buffer unicode on_command (o.pending ++ more) o.state)
        (record o { pending = o.pending ++ more })

  round-resume :
      (again : Bytes → S → Outcome S) (pending more : Bytes) (s : S) (r : Result (Command × ℕ))
      → (r ≢ err incomplete → parse_command unicode (pending ++ more) ≡ r)
      → ((c : Command) (n : ℕ)
          → r ≡ ok (c, n)
          → (n ≤ length pending)
            × ((s' : S)
                → process_fuel unicode on_command
                    (length (pending ++ more))
                    (drop n pending ++ more)
                    s'
                  ≡ resume more (again (drop n pending) s')))
      → process_resp_buffer unicode on_command (pending ++ more) s
        ≡ resume more (round again pending s r)
  unfolding process_resp_buffer process_round after_reply resume status_of
  round-resume again pending more s (err incomplete) same h = refl
  round-resume again pending more s (err e) same h = rw (same (cc))
  round-resume again pending more s panic same h = rw (same (cc))
  round-resume again pending more s unfinished same h = rw (same (cc))
  round-resume again pending more s (ok (c, n)) same h =
      let (fits, later) = h c n refl in
      elim (Handled-cases (on_command c s).1) [
        | inl e ↦ rw (same (cc), e, drop_within n pending more fits) (later (on_command c s).0)
        | inr (inl e) ↦ rw (same (cc), e)
        | inr (inr e) ↦ rw (same (cc), e)
      ]

  pub process_lem :
      (pending : Bytes) (s : S)
      → process_resp_buffer unicode on_command pending s
        ≡ process_fuel unicode on_command (suc (length pending)) pending s
  unfolding process_resp_buffer
  process_lem pending s = refl

  process_append :
      (f : ℕ) (pending more : Bytes) (s : S)
      → InMemory (pending ++ more)
      → length pending < f
      → process_resp_buffer unicode on_command (pending ++ more) s
        ≡ resume more (process_fuel unicode on_command f pending s)
  unfolding process_fuel
  process_append zero pending more s m h = elim h [ ]
  process_append (suc f) pending more s m h =
      let l = length-append pending more in
      round-resume (process_fuel unicode on_command f) pending more s
        (parse_command unicode pending) (parse_command-extend unicode pending more m)
        λ c n e.
          let b = parse_command-bounds unicode pending c n (omega arith) e in
          let l₁ = length-drop n pending in
          let l₂ = length-append (drop n pending) more in
          (
            b.1,
            λ s'.
                process_fuel-enough (length (pending ++ more))
                  (suc (length (drop n pending ++ more))) (drop n pending ++ more) s' (omega arith)
                  (omega arith) (omega arith)
                ∙ sym (process_lem (drop n pending ++ more) s')
                ∙ process_append f (drop n pending) more s' (omega arith) (omega arith),
          )

  -- Bytes that arrive later are processed as if they had been in the buffer at once.
  process-append :
      (pending more : Bytes) (s : S)
      → InMemory (pending ++ more)
      → process_resp_buffer unicode on_command (pending ++ more) s
        ≡ resume more (process_resp_buffer unicode on_command pending s)
  process-append pending more s m =
      rw (process_lem pending s)
        (process_append (suc (length pending)) pending more s m (omega arith))

  -- A loop that waits has nothing left that it could do.
  abbrev Settled : Bytes → S → Type 0
  Settled pending s =
      process_resp_buffer unicode on_command pending s
      ≡ record { pending = pending; state = s; status = waiting }

  resume-waiting :
      (more pending : Bytes) (s : S) (st : Status)
      → st ≡ waiting
      → resume more (record { pending = pending; state = s; status = st })
        ≡ process_resp_buffer unicode on_command (pending ++ more) s
  unfolding resume if_waiting
  resume-waiting more pending s st w = rw w

  outcome_eq :
      (pending : Bytes) (s : S) (st : Status)
      → st ≡ waiting
      → ◌≡◌ {A = Outcome S}
          (record { pending = pending; state = s; status = st })
          (record { pending = pending; state = s; status = waiting })
  outcome_eq pending s st w = rw w

  -- What the loop leaves when it waits, it has nothing more to do with.
  waiting-Settled :
      (pending : Bytes) (s : S) (o : Outcome S)
      → InMemory pending
      → process_resp_buffer unicode on_command pending s ≡ o
      → o.status ≡ waiting
      → Settled o.pending o.state
  waiting-Settled pending s o m e w =
      sym (
        ap (λ (p : Bytes). process_resp_buffer unicode on_command p o.state) (append-nil o.pending))
      ∙ sym (resume-waiting [] o.pending o.state o.status w)
      ∙ sym (ap (resume []) e)
      ∙ sym (process-append pending [] s (rw append-nil m))
      ∙ ap (λ (p : Bytes). process_resp_buffer unicode on_command p s) (append-nil pending)
      ∙ e
      ∙ outcome_eq o.pending o.state o.status w

  abbrev SameEnd : Outcome S → Outcome S → Type 0
  SameEnd a b = (a.state ≡ b.state) × (a.status ≡ b.status)

  resume-SameEnd :
      (more pending : Bytes) (s : S) (st : Status)
      → st ≢ waiting
      → SameEnd
          (record { pending = pending; state = s; status = st })
          (resume more (record { pending = pending; state = s; status = st }))
  unfolding resume if_waiting
  resume-SameEnd more pending s waiting h = absurd (h refl)
  resume-SameEnd more pending s st h = (refl, refl)

  Status-cases : (st : Status) → (st ≡ waiting) ⊎ (st ≢ waiting)
  Status-cases waiting = inl refl
  Status-cases (parse_failed e) = inr (cc)
  Status-cases write_failed = inr (cc)
  Status-cases panicked = inr (cc)
  Status-cases out_of_fuel = inr (cc)

  after_read-waiting :
      (g : Bytes → S → Outcome S) (pending : Bytes) (s : S) (st : Status)
      → st ≡ waiting
      → after_read unicode on_command g (record { pending = pending; state = s; status = st })
        ≡ g pending s
  unfolding after_read if_waiting
  after_read-waiting g pending s st w = rw w

  after_read-ended :
      (g : Bytes → S → Outcome S) (pending : Bytes) (s : S) (st : Status)
      → st ≢ waiting
      → after_read unicode on_command g (record { pending = pending; state = s; status = st })
        ≡ record { pending = pending; state = s; status = st }
  unfolding after_read if_waiting
  after_read-ended g pending s waiting h = absurd (h refl)
  after_read-ended g pending s st h = refl

  round-le :
      (again : Bytes → S → Outcome S) (pending : Bytes) (s : S) (r : Result (Command × ℕ))
      → ((n : ℕ) (s' : S) → length (again (drop n pending) s').pending ≤ length pending)
      → length (round again pending s r).pending ≤ length pending
  unfolding process_round after_reply
  round-le again pending s (ok (c, n)) h = elim (Handled-cases (on_command c s).1) [
    | inl e ↦ rw e (h n (on_command c s).0)
    | inr (inl e) ↦ rw e (omega arith)
    | inr (inr e) ↦ rw e (omega arith)
  ]
  round-le again pending s (err e) h = omega arith
  round-le again pending s panic h = omega arith
  round-le again pending s unfinished h = omega arith

  -- The buffer only shrinks.
  process_fuel-le :
      (f : ℕ) (pending : Bytes) (s : S)
      → length (process_fuel unicode on_command f pending s).pending ≤ length pending
  unfolding process_fuel
  process_fuel-le zero pending s = omega arith
  process_fuel-le (suc f) pending s =
      round-le (process_fuel unicode on_command f) pending s (parse_command unicode pending)
        λ n s'. omega (arith, process_fuel-le f (drop n pending) s', length-drop n pending)

  handle-Settled :
      (buffers : List Bytes) (pending : Bytes) (s : S)
      → InMemory (pending ++ concat buffers)
      → Settled pending s
      → SameEnd
          (handle_connection unicode on_command buffers pending s)
          (process_resp_buffer unicode on_command (pending ++ concat buffers) s)
  unfolding handle_connection
  handle-Settled [] pending s m h = rw (append-nil pending, h) (refl, refl)
  handle-Settled (b ∷ bs) pending s m h =
      let o = process_resp_buffer unicode on_command (pending ++ b) s in
      let a = append_assoc pending b (concat bs) in
      let m' : InMemory ((pending ++ b) ++ concat bs) = rw a m in
      let l = length-append (pending ++ b) (concat bs) in
      let whole = process-append (pending ++ b) (concat bs) s m' in
      let l' = length-append o.pending (concat bs) in
      let le : length o.pending ≤ length (pending ++ b) =
        rw (process_lem (pending ++ b) s)
          (process_fuel-le (suc (length (pending ++ b))) (pending ++ b) s) in
      rw (← a) (
        rw whole (elim (Status-cases o.status) [
          | inl w ↦
              rw
                (after_read-waiting (handle_connection unicode on_command bs) o.pending o.state
                  o.status w)
                (rw (resume-waiting (concat bs) o.pending o.state o.status w) (
                  handle-Settled bs o.pending o.state (omega arith)
                    (waiting-Settled (pending ++ b) s o (omega arith) refl w)))
          | inr n ↦
              rw
                (after_read-ended (handle_connection unicode on_command bs) o.pending o.state
                  o.status n)
                (resume-SameEnd (concat bs) o.pending o.state o.status n)
        ]))

  nothing-Settled : (s : S) → Settled [] s
  unfolding process_resp_buffer parse_command decode_one
  nothing-Settled s = refl

  -- The state that a connection leaves and the way in which its loop ends depend on the bytes that
  -- were received, fewer than 2^48, and not on how the reads cut them.
  pub handle_connection-concat :
      (buffers : List Bytes) (s : S)
      → InMemory (concat buffers)
      → ((handle_connection unicode on_command buffers [] s).state
          ≡ (process_resp_buffer unicode on_command (concat buffers) s).state)
        × ((handle_connection unicode on_command buffers [] s).status
            ≡ (process_resp_buffer unicode on_command (concat buffers) s).status)
  handle_connection-concat buffers s m = handle-Settled buffers [] s m (nothing-Settled s)
