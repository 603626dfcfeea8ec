-- ===== src/Protocol/Dispatch/Replies.antt =====
-- What the commands reply, from the dispatch to the bytes.
use redis_course.Base.{
  ℕ, ◌-◌, ◌*◌, ◌^◌, ◌≤◌, arith, ◌≡◌, ◌≢◌, refl, ap, none, [], ◌∷◌, Bytes, codes, true, same,
}
use redis_course.Base.Int.{pos, negsuc, ltb_ℤ}
use redis_course.Base.Decimal.{format_nat, format_int}
use redis_course.Base.Decimal.RoundTrip.{parse_int-format_int}
use redis_course.Base.GoMap.{lookup}
use redis_course.Protocol.Resp.{Command, to_upper, is_ascii, encode_bulk_string}
use redis_course.Storage.Eviction.{EvictionPolicy, Laws}
use redis_course.Storage.SortedSet.{SetLaws}
use redis_course.Storage.Store.{SortedSets, Store, expired_at}
use redis_course.Storage.Store.Valid.{IsValid}
use redis_course.Storage.Store.Strings.{deadline, to_word, store_set}
use redis_course.Storage.Store.Strings.Lookup.{get-after_set}
use redis_course.Protocol.Handlers.{Env, replies, replying, found_or_null}
use redis_course.Protocol.Handlers.Strings.{handle_set, handle_get, set_with, set_ex, in_seconds}
use redis_course.Protocol.Dispatch.{handlers, dispatch_command}

abbrev pub set_command : Bytes → Bytes → Command
set_command key value = record { cmd = codes "SET"; args = key ∷ value ∷ [] }

abbrev pub get_command : Bytes → Command
get_command key = record { cmd = codes "GET"; args = key ∷ [] }

module _ {P : EvictionPolicy} {Z : SortedSets} (L : Laws P) (K : SetLaws Z) where
  -- On a valid store, SET of a key and a value that is not evicted at once, followed by GET of the
  -- key, replies the value as a bulk string, whatever its bytes and whatever the two clocks read.
  pub set-get_reply :
      (first second : Env) (key value : Bytes) (s : Store P Z)
      → IsValid L K s
      → lookup key (dispatch_command first (set_command key value) s).0.records ≢ none
      → (dispatch_command second
          (get_command key)
          (dispatch_command first (set_command key value) s).0).1
        ≡ replies (encode_bulk_string value)
  unfolding dispatch_command handlers lookup same replying handle_set handle_get set_with
      found_or_null deadline expired_at
  set-get_reply first second key value s v h =
      ap (λ r. replies (found_or_null encode_bulk_string r))
        (get-after_set L K (first.now 0) (first.now 1) (second.now 0) (second.now 1) first.draws key
          value (pos 0) s v h refl)

abbrev pub set_ex_command : Bytes → Bytes → ℕ → Command
set_ex_command key value seconds = record {
  cmd = codes "SET";
  args = key ∷ value ∷ codes "EX" ∷ format_int (pos seconds) ∷ [];
}

in_seconds_negative :
    (n : ℕ) → 9223372037 ≤ n → n ≤ 18446744073 → (k : ℕ) × (in_seconds (pos n) ≡ negsuc k)
unfolding in_seconds to_word
in_seconds_negative n h k = (2 ^ 64 - 1 - n * 1000000000, ground arith)

module _ {P : EvictionPolicy} {Z : SortedSets} where
  -- SET with EX and a number of seconds from 9223372037 to 18446744073, whose nanoseconds do not fit
  -- in an int64, does what SET without EX does: the key is stored without a deadline.
  pub set_ex-overflow :
      (env : Env) (key value : Bytes) (n : ℕ) (s : Store P Z)
      → 9223372037 ≤ n
      → n ≤ 18446744073
      → dispatch_command env (set_ex_command key value n) s
        ≡ dispatch_command env (set_command key value) s
  unfolding dispatch_command handlers lookup same replying handle_set set_ex set_with to_upper
      is_ascii store_set deadline
  set_ex-overflow env key value n s h k =
      let p = parse_int-format_int (pos n) (omega arith, omega arith) in
      let (j, w) = in_seconds_negative n h k in
      let positive : ltb_ℤ (pos 0) (pos n) ≡ true = ground arith in rw p (rw positive (rw w refl))

abbrev pub init_by_dim_command : Bytes → ℕ → ℕ → Command
init_by_dim_command key width depth = record {
  cmd = codes "CMS.INITBYDIM";
  args = key ∷ format_nat width ∷ format_nat depth ∷ [];
}
