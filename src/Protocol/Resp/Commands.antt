-- ===== src/Protocol/Resp/Commands.antt =====
-- `ParseCommand` of internal/protocol/resp.go: what it makes of a client's request, and of a
-- buffer that grows.
use redis_course.Base.{
  ℕ, suc, ◌≤◌, ◌<◌, ◌≡◌, ◌≢◌, refl, false, true, Bool, List, [], ◌∷◌, ◌++◌, arith, Bytes, length,
}
use redis_course.Protocol.Resp.{
  Value, Values, string, integer, null, resp_error, array, nil, cons, Command, ok, err, unfinished,
  incomplete, max_capacity, decode_one, token_to_string, tokens_to_strings, to_upper, command_of,
  parse_command, encode_array_bulk_strings,
}
use redis_course.Protocol.Resp.Lines.{bind-extend, bind-ok}
use redis_course.Protocol.Resp.Bounds.{InMemory, decode_one-bounds, pair_end}
use redis_course.Protocol.Resp.Extend.{decode_one-extend}
use redis_course.Protocol.Resp.Fuel.{decode_one-total, Finishes, bind-Finishes, ok-Finishes}
use redis_course.Protocol.Resp.RoundTrip.{strings, encode_array_bulk_strings-Encodes}

tokens_to_strings-strings : (ss : List Bytes) → tokens_to_strings (strings ss) ≡ ok ss
unfolding tokens_to_strings token_to_string
tokens_to_strings-strings [] = refl
tokens_to_strings-strings (s ∷ ss) = rw (tokens_to_strings-strings ss)

-- A request written as an array of bulk strings is parsed to its command, the name as
-- `strings.ToUpper` makes it, whatever that makes of names that are not all ASCII; and exactly its bytes are consumed, whatever follows, if it has fewer than 2^44 arguments and all
-- of it is shorter than 2^48 bytes.
pub parse_command-encode :
    (unicode : Bytes → Bytes) (name : Bytes) (args : List Bytes) (rest : Bytes)
    → length args < max_capacity
    → InMemory (encode_array_bulk_strings (name ∷ args) ++ rest)
    → parse_command unicode (encode_array_bulk_strings (name ∷ args) ++ rest)
      ≡ ok (
        record { cmd = to_upper unicode name; args = args },
        length (encode_array_bulk_strings (name ∷ args)),
      )
unfolding parse_command command_of token_to_string
parse_command-encode unicode name args rest h m =
    rw (encode_array_bulk_strings-Encodes (name ∷ args) (omega arith) rest m)
      (rw (tokens_to_strings-strings args))

-- What `ParseCommand` says of a buffer, other than "incomplete", stays the same when more bytes
-- follow, as long as all of it is shorter than 2^48 bytes.
pub parse_command-extend :
    (unicode : Bytes → Bytes) (bytes more : Bytes)
    → InMemory (bytes ++ more)
    → parse_command unicode bytes ≢ err incomplete
    → parse_command unicode (bytes ++ more) ≡ parse_command unicode bytes
unfolding parse_command
parse_command-extend unicode bytes more m h =
    bind-extend (decode_one bytes) (decode_one (bytes ++ more)) _ (decode_one-extend bytes more m) h

-- A command parsed from a buffer shorter than 2^48 bytes takes at least three bytes, and no more than
-- there are.
pub parse_command-bounds :
    (unicode : Bytes → Bytes) (bytes : Bytes) (c : Command) (n : ℕ)
    → InMemory bytes
    → parse_command unicode bytes ≡ ok (c, n)
    → (3 ≤ n) × (n ≤ length bytes)
unfolding parse_command
parse_command-bounds unicode bytes c n m h =
    let ((v, k), e, q) = bind-ok (decode_one bytes) _ h in
    let (c', e', q') = bind-ok (command_of unicode v) _ q in
    let s : k ≡ n = pair_end q' in
    let b = decode_one-bounds bytes v k m e in (omega arith, omega arith)

token_to_string-Finishes : (v : Value) (b : Bool) → Finishes (token_to_string v b)
unfolding token_to_string
token_to_string-Finishes (string s) b = cc
token_to_string-Finishes (integer z) true = cc
token_to_string-Finishes (integer z) false = cc
token_to_string-Finishes null b = cc
token_to_string-Finishes (resp_error s) b = cc
token_to_string-Finishes (array vs) b = cc

tokens_to_strings-Finishes : (vs : Values) → Finishes (tokens_to_strings vs)
unfolding tokens_to_strings
tokens_to_strings-Finishes nil = cc
tokens_to_strings-Finishes (cons v vs) =
    bind-Finishes (token_to_string v true) _ (token_to_string-Finishes v true) λ s _.
      bind-Finishes (tokens_to_strings vs) _ (tokens_to_strings-Finishes vs) λ ss _. ok-Finishes _

command_of-Finishes : (unicode : Bytes → Bytes) (v : Value) → Finishes (command_of unicode v)
unfolding command_of
command_of-Finishes unicode (array nil) = cc
command_of-Finishes unicode (array (cons v vs)) =
    bind-Finishes (token_to_string v false) _ (token_to_string-Finishes v false) λ s _.
      bind-Finishes (tokens_to_strings vs) _ (tokens_to_strings-Finishes vs) λ ss _. ok-Finishes _
command_of-Finishes unicode v = cc

-- `ParseCommand` ends on every buffer: the fuel of the model is never used up.
pub parse_command-Finishes :
    (unicode : Bytes → Bytes) (bytes : Bytes) → parse_command unicode bytes ≢ unfinished
unfolding parse_command
parse_command-Finishes unicode bytes =
    bind-Finishes (decode_one bytes) _ (decode_one-total bytes (suc (length bytes)) (omega arith)).0
      λ p _.
        bind-Finishes (command_of unicode p.0) _ (command_of-Finishes unicode p.0)
          λ c _. ok-Finishes _
