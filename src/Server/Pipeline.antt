-- ===== src/Server/Pipeline.antt =====
-- Pipelined requests through `processRESPBuffer` of internal/server/server.go.
use redis_course.Base.{
  ℕ, zero, suc, ◌<◌, ◌≡◌, ◌≢◌, refl, sym, inl, inr, ◌∙◌, List, [], ◌∷◌, ◌++◌, arith, Bytes, length,
  drop, append_assoc, length-append, length-drop, drop-append, All,
}
use redis_course.Protocol.Resp.{
  Command, Result, ok, err, panic, unfinished, incomplete, parse_command, to_upper,
  encode_array_bulk_strings, max_capacity,
}
use redis_course.Protocol.Resp.Bounds.{InMemory}
use redis_course.Protocol.Resp.Commands.{
  parse_command-bounds, parse_command-encode, parse_command-Finishes,
}
use redis_course.Server.{
  Handled, Handled-cases, after_reply, written, waiting, out_of_fuel, Outcome, status_of,
  process_round, process_fuel, process_resp_buffer,
}
use redis_course.Server.Chunks.{process_lem, process_fuel-enough}

-- A request: the command's name and its arguments.
abbrev pub Request : Type 0
Request = Bytes × List Bytes

abbrev pub encode_request : Request → Bytes
encode_request (name, args) = encode_array_bulk_strings (name ∷ args)

abbrev pub command_for : (Bytes → Bytes) → Request → Command
command_for unicode (name, args) = record { cmd = to_upper unicode name; args = args }

abbrev pub wire : List Request → Bytes
wire [] = []
wire (r ∷ rs) = encode_request r ++ wire rs

module _ {S : Type 0} (unicode : Bytes → Bytes) (on_command : Command → S → S × Handled) where
  -- The handler run on the requests one after the other.
  abbrev pub run_all : List Request → S → S
  run_all [] s = s
  run_all (r ∷ rs) s = run_all rs (on_command (command_for unicode r) s).0

  -- In this run every reply is written.
  abbrev pub Writes : List Request → S → Type 0
  Writes [] s = Unit
  Writes (r ∷ rs) s =
      ((on_command (command_for unicode r) s).1 ≡ written)
      × Writes rs (on_command (command_for unicode r) s).0

  process_fuel_step :
      (f : ℕ) (pending : Bytes) (s : S) (c : Command) (n : ℕ)
      → (on_command c s).1 ≡ written
      → parse_command unicode pending ≡ ok (c, n)
      → process_fuel unicode on_command (suc f) pending s
        ≡ process_fuel unicode on_command f (drop n pending) (on_command c s).0
  unfolding process_fuel process_round after_reply
  process_fuel_step f pending s c n w e = rw (e, process_round) (rw w)

  process_step :
      (pending : Bytes) (s : S) (c : Command) (n : ℕ)
      → InMemory pending
      → (on_command c s).1 ≡ written
      → parse_command unicode pending ≡ ok (c, n)
      → process_resp_buffer unicode on_command pending s
        ≡ process_resp_buffer unicode on_command (drop n pending) (on_command c s).0
  process_step pending s c n m w e =
      let b = parse_command-bounds unicode pending c n m e in
      let l = length-drop n pending in
      process_lem unicode on_command pending s
      ∙ process_fuel_step (length pending) pending s c n w e
      ∙ process_fuel-enough unicode on_command (length pending) (suc (length (drop n pending)))
          (drop n pending) (on_command c s).0 (omega arith) (omega arith) (omega arith)
      ∙ sym (process_lem unicode on_command (drop n pending) (on_command c s).0)

  process_waits :
      (pending : Bytes) (s : S)
      → parse_command unicode pending ≡ err incomplete
      → process_resp_buffer unicode on_command pending s
        ≡ record { pending = pending; state = s; status = waiting }
  unfolding process_resp_buffer
  process_waits pending s e = rw e

  -- Any number of requests sent back to back are all handled, in the order in which they were sent,
  -- each once; a request cut off at the end stays in the buffer untouched.
  pub pipeline :
      (rs : List Request) (rest : Bytes) (s : S)
      → Writes rs s
      → All (λ r. length r.1 < max_capacity) rs
      → InMemory (wire rs ++ rest)
      → parse_command unicode rest ≡ err incomplete
      → process_resp_buffer unicode on_command (wire rs ++ rest) s
        ≡ record { pending = rest; state = run_all rs s; status = waiting }
  pipeline [] rest s w h m e = process_waits rest s e
  pipeline ((name, args) ∷ rs) rest s w h m e =
      let enc = encode_request (name, args) in
      let a = append_assoc enc (wire rs) rest in
      let m' : InMemory (enc ++ (wire rs ++ rest)) = rw (← a) m in
      let l = length-append enc (wire rs ++ rest) in
      rw a (
        process_step (enc ++ (wire rs ++ rest)) s (command_for unicode (name, args)) (length enc) m'
          w.0 (parse_command-encode unicode name args (wire rs ++ rest) h.0 m')
        ∙ rw (drop-append enc (wire rs ++ rest)) (
            pipeline rs rest (on_command (command_for unicode (name, args)) s).0 w.1 h.1
              (omega arith) e))

  Ended : Outcome S → Type 0
  Ended o = o.status ≢ out_of_fuel

  round-Ended :
      (again : Bytes → S → Outcome S) (pending : Bytes) (s : S) (r : Result (Command × ℕ))
      → r ≢ unfinished
      → ((c : Command) (n : ℕ) → r ≡ ok (c, n) → (s' : S) → Ended (again (drop n pending) s'))
      → Ended (process_round unicode on_command again pending s r)
  unfolding process_round after_reply Ended status_of
  round-Ended again pending s (ok (c, n)) f h = elim (Handled-cases (on_command c s).1) [
    | inl e ↦ rw e (h c n refl (on_command c s).0)
    | inr (inl e) ↦ rw e (cc)
    | inr (inr e) ↦ rw e (cc)
  ]
  round-Ended again pending s (err incomplete) f h = cc
  round-Ended again pending s (err e) f h = cc
  round-Ended again pending s panic f h = cc
  round-Ended again pending s unfinished f h = absurd (f refl)

  process_fuel-Ended :
      (f : ℕ) (pending : Bytes) (s : S)
      → InMemory pending
      → length pending < f
      → Ended (process_fuel unicode on_command f pending s)
  unfolding process_fuel
  process_fuel-Ended zero pending s m h = elim h [ ]
  process_fuel-Ended (suc f) pending s m h =
      round-Ended (process_fuel unicode on_command f) pending s (parse_command unicode pending)
        (parse_command-Finishes unicode pending)
        λ c n e s'.
          let b = parse_command-bounds unicode pending c n m e in
          let l = length-drop n pending in
          process_fuel-Ended f (drop n pending) s' (omega arith) (omega arith)

  -- The loop ends on every buffer shorter than 2^48 bytes: the fuel is never used up.
  pub process_resp_buffer-total :
      (pending : Bytes) (s : S)
      → InMemory pending
      → (process_resp_buffer unicode on_command pending s).status ≢ out_of_fuel
  process_resp_buffer-total pending s m =
      rw (process_lem unicode on_command pending s)
        (unfold Ended in process_fuel-Ended (suc (length pending)) pending s m (omega arith))
