-- ===== src/Server/Commands.antt =====
-- A connection of internal/server/server.go over the commands of internal/protocol: the callback of
-- `handleConnection` dispatches a command (`buildRESPReply`) and writes its reply.
use redis_course.Base.{
  ◌≢◌, Option, none, some, take, map, inl, inr, ℕ, suc, ◌<◌, ◌≡◌, refl, sym, ap, ◌∙◌, List, [], ◌∷◌,
  ◌++◌, append-nil, append_assoc, Bytes, length, All,
}
use mathlib.Core.Path.{subst}
use redis_course.Protocol.Resp.{Command, parse_command, decode_one, write_elements, max_capacity}
use redis_course.Protocol.Resp.Bounds.{InMemory}
use redis_course.Storage.Eviction.{EvictionPolicy}
use redis_course.Storage.Store.{SortedSets, Store}
use redis_course.Protocol.Handlers.{Env, Answer, replies, panics, Answer-cases}
use redis_course.Protocol.Dispatch.{dispatch_command, run_commands}
use redis_course.Server.{
  Handled, written, unwritten, crashed, waiting, handle_connection, process_resp_buffer,
}
use redis_course.Server.Chunks.{concat, handle_connection-concat}
use redis_course.Server.Pipeline.{Request, command_for, wire, run_all, Writes, pipeline}

-- The shared store and what has been written to the connection, with the number of the commands
-- served.
pub record Session (P : EvictionPolicy) (Z : SortedSets) : Type 0 where
  pub served : ℕ
  pub store : Store P Z
  pub output : Bytes

abbrev pub new_session : {P : EvictionPolicy} {Z : SortedSets} → Store P Z → Session P Z
new_session s = record { served = 0; store = s; output = [] }

-- The requests as commands, each with its environment.
abbrev pub schedule : (Bytes → Bytes) → (ℕ → Env) → ℕ → List Request → List (Env × Command)
schedule unicode envs n [] = []
schedule unicode envs n (r ∷ rs) =
    (envs n, command_for unicode r) ∷ schedule unicode envs (suc n) rs

-- The session after a command: `failure` is none where the write succeeds, and the number of bytes
-- that went out where it does not. A panic ends the program.
after_answer :
    {P : EvictionPolicy} {Z : SortedSets} → Answer → Option ℕ → Session P Z → Session P Z × Handled
after_answer panics failure s = (s, crashed)
after_answer (replies reply) none s = (record s { output = s.output ++ reply }, written)
after_answer (replies reply) (some n) s =
    (record s { output = s.output ++ take n reply }, unwritten)

replies-injective :
    (b c : Bytes) (more cs : List Answer)
    → replies b ∷ more ≡ replies c ∷ cs
    → (b ≡ c) × (more ≡ cs)
replies-injective b c more cs h = (cc, cc)

no_panic : (bs : List Bytes) → panics ∷ [] ≢ map replies bs
no_panic [] h = cc
no_panic (b ∷ bs) h = cc

first_reply :
    (b : Bytes) (more : List Answer) (bs : List Bytes)
    → replies b ∷ more ≡ map replies bs
    → (cs : List Bytes) × (bs ≡ b ∷ cs) × (more ≡ map replies cs)
first_reply b more [] h = cc
first_reply b more (c ∷ cs) h =
    let (e, d) = replies-injective b c more (map replies cs) h in (cs, rw e refl, d)

module _ {P : EvictionPolicy} {Z : SortedSets} (env : Env) (c : Command)
    (cs : List (Env × Command)) where
  run_commands-panics :
      (s : Store P Z)
      → (dispatch_command env c s).1 ≡ panics
      → (run_commands ((env, c) ∷ cs) s).1 ≡ panics ∷ []
  unfolding run_commands
  run_commands-panics s e = rw (e, run_commands) refl

  run_commands-replies :
      (s : Store P Z) (reply : Bytes)
      → (dispatch_command env c s).1 ≡ replies reply
      → run_commands ((env, c) ∷ cs) s ≡ (
        (run_commands cs (dispatch_command env c s).0).0,
        replies reply ∷ (run_commands cs (dispatch_command env c s).0).1,
      )
  unfolding run_commands
  run_commands-replies s reply e = rw (e, run_commands) refl

run_commands_nil :
    {P : EvictionPolicy} {Z : SortedSets} (s : Store P Z) → run_commands [] s ≡ (s, [])
unfolding run_commands
run_commands_nil s = refl

module _ {P : EvictionPolicy} {Z : SortedSets} (unicode : Bytes → Bytes) (envs : ℕ → Env)
    (failures : ℕ → Option ℕ) where
  -- The callback. The environment of a command and the fate of its reply go by its number.
  unfoldable pub answer : Command → Session P Z → Session P Z × Handled
  unfolding dispatch_command after_answer
  answer c s =
      let (t, reply) = dispatch_command (envs s.served) c s.store in
      after_answer reply (failures s.served) (record s { served = suc s.served; store = t })

  -- The session after a reply that is written.
  abbrev served : Command → Session P Z → Bytes → Session P Z
  served c s reply = record {
    served = suc s.served;
    store = (dispatch_command (envs s.served) c s.store).0;
    output = s.output ++ reply;
  }

  answer-replies :
      (c : Command) (s : Session P Z) (reply : Bytes)
      → failures s.served ≡ none
      → (dispatch_command (envs s.served) c s.store).1 ≡ replies reply
      → answer c s ≡ (served c s reply, written)
  unfolding answer after_answer
  answer-replies c s reply f e = rw (e, answer) (rw f refl)

  -- The run of the requests, when every write succeeds and no command panics.
  abbrev Served : List Request → List Bytes → Session P Z → Type 0
  Served rs bs s =
      Writes unicode answer rs s
      × ((run_all unicode answer rs s).store
          ≡ (run_commands (schedule unicode envs s.served rs) s.store).0)
      × ((run_all unicode answer rs s).output ≡ s.output ++ write_elements bs)

  run_all-Served :
      (rs : List Request) (bs : List Bytes) (s : Session P Z)
      → ((n : ℕ) → failures n ≡ none)
      → (run_commands (schedule unicode envs s.served rs) s.store).1 ≡ map replies bs
      → Served rs bs s
  unfolding write_elements
  run_all-Served [] [] s f h = (tt, rw (run_commands_nil s.store) refl, sym (append-nil s.output))
  run_all-Served [] (b ∷ bs) s f h = absurd (cc (rw (run_commands_nil s.store) at h))
  run_all-Served (r ∷ rs) bs s f h =
      let c = command_for unicode r in
      let rest = schedule unicode envs (suc s.served) rs in
      elim (Answer-cases (dispatch_command (envs s.served) c s.store).1) [
        | inl e ↦
            absurd (no_panic bs (sym (run_commands-panics (envs s.served) c rest s.store e) ∙ h))
        | inr (reply, e) ↦
            let t = served c s reply in
            let step = run_commands-replies (envs s.served) c rest s.store reply e in
            let k = answer-replies c s reply (f s.served) e in
            let (cs, d, i) = first_reply reply _ bs (sym (ap (λ p. p.1) step) ∙ h) in
            let (w, x, y) = run_all-Served rs cs t f i in
            let all = ap (λ p. run_all unicode answer rs p.0) k in
            rw (step, d)
              (
                rw k (refl, w),
                ap (λ u. u.store) all ∙ x,
                ap (λ u. u.output) all ∙ (y ∙ append_assoc s.output reply (write_elements cs)),
              )
      ]

  piped :
      (rs : List Request) (s : Session P Z)
      → All (λ r. length r.1 < max_capacity) rs
      → InMemory (wire rs)
      → Writes unicode answer rs s
      → process_resp_buffer unicode answer (wire rs) s
        ≡ record { pending = []; state = run_all unicode answer rs s; status = waiting }
  unfolding parse_command decode_one
  piped rs s h m w =
      let n = append-nil (wire rs) in
      ap (λ bs. process_resp_buffer unicode answer bs s) (sym n)
      ∙ pipeline unicode answer rs [] s w h (subst InMemory (sym n) m) refl

  -- Requests that arrive on a connection in whatever pieces are answered as if each had been
  -- dispatched on its own, in the order in which they were sent: the replies are written one after
  -- the other and the store is what the commands make of it; the connection then waits for more. This
  -- holds when no command panics and every write succeeds, for requests of fewer than 2^44
  -- arguments each and fewer than 2^48 bytes in all.
  pub handle_connection-replies :
      (rs : List Request) (bs : List Bytes) (buffers : List Bytes) (s : Store P Z)
      → All (λ r. length r.1 < max_capacity) rs
      → InMemory (wire rs)
      → concat buffers ≡ wire rs
      → ((n : ℕ) → failures n ≡ none)
      → (run_commands (schedule unicode envs 0 rs) s).1 ≡ map replies bs
      → ((handle_connection unicode answer buffers [] (new_session s)).state.store
          ≡ (run_commands (schedule unicode envs 0 rs) s).0)
        × ((handle_connection unicode answer buffers [] (new_session s)).state.output
            ≡ write_elements bs)
        × ((handle_connection unicode answer buffers [] (new_session s)).status ≡ waiting)
  handle_connection-replies rs bs buffers s h m e f g =
      let (a, b) =
        handle_connection-concat unicode answer buffers (new_session s)
          (subst InMemory (sym e) m) in
      let (w, x, y) = run_all-Served rs bs (new_session s) f g in
      let p = piped rs (new_session s) h m w in
      let q = ap (λ bs. process_resp_buffer unicode answer bs (new_session s)) e ∙ p in
      (
        ap (λ t. t.store) (a ∙ ap (λ o. o.state) q) ∙ x,
        ap (λ t. t.output) (a ∙ ap (λ o. o.state) q) ∙ y,
        b ∙ ap (λ o. o.status) q,
      )
