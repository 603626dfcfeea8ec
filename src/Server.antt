-- ===== src/Server.antt =====
-- internal/server/server.go: the loop that turns a connection's buffer into commands. The handler
-- of a command is a function on a state: it returns the new state, and what became of the
-- reply. `unicode` is what strings.ToUpper makes of a
-- string that is not all ASCII.
pub mod Chunks
pub mod Pipeline
pub mod Commands
pub mod Pool
pub mod Drain
pub mod LineProtocol
use redis_course.Base.{
  ◌≡◌, ◌⊎◌, inl, inr, refl, ℕ, zero, suc, Bool, true, false, List, [], ◌∷◌, ◌++◌, Bytes, ◌==◌,
  if◌then◌else◌, length, drop,
}
use redis_course.Protocol.Resp.{
  Command, Error, Result, ok, err, panic, unfinished, incomplete, parse_command,
}

-- How `processRESPBuffer` ends: it waits for more bytes (it returned nil), it returned a parse
-- error or a write error, or it panicked. `out_of_fuel` is the model's own.
pub data Status : Type 0 where
  waiting : Status
  parse_failed : Error → Status
  write_failed : Status
  panicked : Status
  out_of_fuel : Status

-- What becomes of a command: its reply is written, or the write fails, or the handler panics.
pub data Handled : Type 0 where
  written : Handled
  unwritten : Handled
  crashed : Handled

-- The buffer, the state behind the handler, and how the loop ended.
pub record Outcome (S : Type 0) : Type 0 where
  pub pending : Bytes
  pub state : S
  pub status : Status

-- An incomplete message is not an error.
status_of : Error → Status
status_of incomplete = waiting
status_of e = parse_failed e

if_waiting {ℓ} : {A : Type ℓ} → Status → A → A → A
if_waiting waiting a b = a
if_waiting s a b = b

pub Handled-cases : (h : Handled) → (h ≡ written) ⊎ ((h ≡ unwritten) ⊎ (h ≡ crashed))
Handled-cases written = inl refl
Handled-cases unwritten = inr (inl refl)
Handled-cases crashed = inr (inr refl)

-- What the loop makes of it, over the rest of the loop.
after_reply : {S : Type 0} → Handled → Outcome S → Bytes → S → Outcome S
after_reply written rest pending s = rest
after_reply unwritten rest pending s = record {
  pending = pending;
  state = s;
  status = write_failed;
}
after_reply crashed rest pending s = record { pending = pending; state = s; status = panicked }

module _ {S : Type 0} (unicode : Bytes → Bytes) (on_command : Command → S → S × Handled) where
  -- A round of the loop, over the rest of it.
  process_round : (Bytes → S → Outcome S) → Bytes → S → Result (Command × ℕ) → Outcome S
  unfolding status_of after_reply
  process_round again pending s (err e) = record {
    pending = pending;
    state = s;
    status = status_of e;
  }
  process_round again pending s panic = record { pending = pending; state = s; status = panicked }
  process_round again pending s unfinished = record {
    pending = pending;
    state = s;
    status = out_of_fuel;
  }
  process_round again pending s (ok (cmd, consumed)) =
      let (s', handled) = on_command cmd s in
      let rest = again (drop consumed pending) s' in after_reply handled rest pending s'

  pub process_fuel : ℕ → Bytes → S → Outcome S
  unfolding process_round
  process_fuel zero pending s = record { pending = pending; state = s; status = out_of_fuel }
  process_fuel (suc f) pending s =
      process_round (process_fuel f) pending s (parse_command unicode pending)

  -- With more fuel than there are bytes.
  unfoldable pub process_resp_buffer : Bytes → S → Outcome S
  unfolding process_fuel
  process_resp_buffer pending s = process_fuel (suc (length pending)) pending s

  -- What the connection does with the outcome: it reads on, or returns.
  after_read : (Bytes → S → Outcome S) → Outcome S → Outcome S
  unfolding if_waiting
  after_read read_on o = let next = read_on o.pending o.state in if_waiting o.status next o

  -- The RESP part of `handleConnection`, over the buffers that its reads return.
  unfoldable pub handle_connection : List Bytes → Bytes → S → Outcome S
  unfolding after_read process_resp_buffer
  handle_connection [] pending s = record { pending = pending; state = s; status = waiting }
  handle_connection (buffer ∷ buffers) pending s =
      let read_on = handle_connection buffers in
      after_read read_on (process_resp_buffer (pending ++ buffer) s)
