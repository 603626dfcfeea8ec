-- ===== src/Examples/Commands.antt =====
-- The theorems on the commands of internal/protocol and on sorted sets, at concrete inputs.
use redis_course.Base.{
  map, ℕ, ◌≡◌, ◌≢◌, refl, false, none, some, List, [], ◌∷◌, arith, Bytes, codes, same,
}
use redis_course.Base.Decimal.{parse_uint, format_nat}
use redis_course.Base.Int.{pos}
use redis_course.Base.GoMap.{lookup, insert}
use redis_course.Protocol.Resp.{
  to_upper, Command, encode_bulk_string, encode_array, encode_array_bulk_strings, write_elements,
}
use redis_course.Protocol.Resp.Bounds.{InMemory}
use redis_course.Protocol.Handlers.{Env, replies, replying}
use redis_course.Protocol.Dispatch.{dispatch_command, run_commands, handlers}
use redis_course.Protocol.Dispatch.Keeps.{run_commands-IsValid}
use redis_course.Protocol.Dispatch.Replies.{
  set_command, get_command, set_ex_command, set-get_reply, set_ex-overflow,
}
use redis_course.Server.{waiting, handle_connection}
use redis_course.Server.Chunks.{concat}
use redis_course.Server.Pipeline.{Request, wire}
use redis_course.Server.Commands.{answer, new_session, schedule, handle_connection-replies}
use redis_course.Storage.Eviction.Lru.{new_lru, touch}
use redis_course.Storage.Eviction.Lru.Policy.{lru, lru-Laws}
use redis_course.Storage.Float64.{Float64}
use redis_course.Storage.SortedSet.{untrusted}
use redis_course.Storage.SortedSet.Sorted.{sorted_lists, sorted_lists-Laws}
use redis_course.Storage.Store.{Store, skip_list}
use redis_course.Storage.Store.Valid.{IsValid}
use redis_course.Storage.Store.Capacity.{new_store}
use redis_course.Storage.Store.Capacity.Sweeps.{new_store-IsValid}
use redis_course.Storage.Store.Strings.{store_set}
use redis_course.Storage.Store.Zsets.{store_zadd}

abbrev float : ℕ → Float64
float n = record { negative = false; magnitude = n }

abbrev env : Env
env = record {
  now = λ n. 100;
  draws = λ n. 0;
  order = λ n. 0;
  float_math = record {
    bloom_bits = λ rate capacity. 64;
    bloom_hashes = λ bits capacity. 2;
    sketch_width = λ rate. 4;
    sketch_depth = λ probability. 2;
  };
  parse_float = λ text. elim (parse_uint text) [ none ↦ none | some n ↦ some (float n) ];
  format_float = λ x. codes "1";
  unicode_upper = λ s. s;
  unicode_lower = λ s. s;
}

abbrev Shop : Type 0
Shop = Store lru sorted_lists

abbrev empty_shop : Shop
empty_shop = new_store skip_list (pos 2) (pos 0) (some new_lru)

empty_shop-IsValid : IsValid lru-Laws sorted_lists-Laws empty_shop
empty_shop-IsValid = new_store-IsValid lru-Laws sorted_lists-Laws skip_list (pos 2) (pos 0)

abbrev zadd : Command
zadd = record { cmd = codes "ZADD"; args = codes "z" ∷ codes "7" ∷ codes "m" ∷ [] }

abbrev sadd : Command
sadd = record { cmd = codes "SADD"; args = codes "s" ∷ codes "m" ∷ codes "n" ∷ [] }

abbrev history : List (Env × Command)
history =
    (env, sadd) ∷ (env, set_command (codes "a") (codes "1")) ∷ (env, get_command (codes "z")) ∷ []

run_commands-IsValid_example :
    IsValid lru-Laws
      (untrusted sorted_lists)
      (run_commands history (new_store skip_list (pos 2) (pos 0) (some new_lru))).0
unfolding same
run_commands-IsValid_example =
    run_commands-IsValid lru-Laws sorted_lists skip_list (pos 2) (pos 0) history
      (refl, (refl, (refl, tt)))

abbrev ranked_history : List (Env × Command)
ranked_history =
    (env, zadd) ∷ (env, set_command (codes "a") (codes "1")) ∷ (env, get_command (codes "z")) ∷ []

-- What the three commands reply.
history_replies :
    (run_commands ranked_history empty_shop).1
    ≡ replies (codes ":1\r\n") ∷ replies (codes "+OK\r\n") ∷ replies (codes "$-1\r\n") ∷ []
unfolding run_commands dispatch_command handlers replying lookup same new_store new_lru touch insert
    store_zadd store_set
history_replies = refl

a_stored :
    lookup
      (codes "a")
      (dispatch_command env (set_command (codes "a") (codes "1")) empty_shop).0.records
    ≢ none
unfolding dispatch_command handlers replying lookup same new_store new_lru touch insert store_set
a_stored = cc

set-get_reply_example :
    (dispatch_command env
      (get_command (codes "a"))
      (dispatch_command env (set_command (codes "a") (codes "1")) empty_shop).0).1
    ≡ replies (encode_bulk_string (codes "1"))
set-get_reply_example =
    set-get_reply lru-Laws sorted_lists-Laws env env (codes "a") (codes "1") empty_shop
      empty_shop-IsValid a_stored

set_ex-overflow_example :
    dispatch_command env (set_ex_command (codes "a") (codes "1") 9999999999) empty_shop
    ≡ dispatch_command env (set_command (codes "a") (codes "1")) empty_shop
set_ex-overflow_example =
    set_ex-overflow env (codes "a") (codes "1") 9999999999 empty_shop (omega arith) (omega arith)

abbrev requests : List Request
requests = (codes "set", codes "a" ∷ codes "1" ∷ []) ∷ (codes "GET", codes "a" ∷ []) ∷ []

abbrev pieces : List Bytes
pieces =
    codes "*3\r\n$3\r\nset\r\n$1\r\na\r\n$1\r" ∷ codes "\n1\r\n*2\r\n$3\r\nGET\r\n$1\r\na\r\n" ∷ []

wire-InMemory : InMemory (wire requests)
unfolding encode_array_bulk_strings encode_array encode_bulk_string write_elements format_nat
wire-InMemory = omega arith

pieces-wire : concat pieces ≡ wire requests
unfolding encode_array_bulk_strings encode_array encode_bulk_string write_elements format_nat
pieces-wire = refl

abbrev request_replies : List Bytes
request_replies = codes "+OK\r\n" ∷ codes "$1\r\n1\r\n" ∷ []

requests_reply :
    (run_commands (schedule (λ s. s) (λ n. env) 0 requests) empty_shop).1
    ≡ map replies request_replies
unfolding run_commands dispatch_command handlers replying lookup same new_store new_lru touch insert
    store_set encode_bulk_string format_nat to_upper
requests_reply = refl

handle_connection-replies_example :
    ((handle_connection
        (λ s. s)
        (answer (λ s. s) (λ n. env) (λ n. none))
        pieces
        []
        (new_session empty_shop)).state.store
      ≡ (run_commands (schedule (λ s. s) (λ n. env) 0 requests) empty_shop).0)
    × ((handle_connection
          (λ s. s)
          (answer (λ s. s) (λ n. env) (λ n. none))
          pieces
          []
          (new_session empty_shop)).state.output
        ≡ write_elements request_replies)
    × ((handle_connection
          (λ s. s)
          (answer (λ s. s) (λ n. env) (λ n. none))
          pieces
          []
          (new_session empty_shop)).status
        ≡ waiting)
handle_connection-replies_example =
    handle_connection-replies (λ s. s) (λ n. env) (λ n. none) requests request_replies pieces
      empty_shop (omega arith, (omega arith, tt)) wire-InMemory pieces-wire (λ n. refl)
      requests_reply
