-- ===== src/Protocol/Handlers/Strings.antt =====
-- command_ping.go, command_set.go, command_get.go, command_expire.go, command_ttl.go, command_del.go,
-- command_exists.go and command_incr.go.
pub mod Keeps
use redis_course.Base.{
  ℕ, zero, suc, ◌+◌, ◌*◌, Bool, true, false, not, Option, none, some, List, [], ◌∷◌, Bytes, codes,
  same, if◌then◌else◌,
}
use redis_course.Base.Int.{ℤ, pos, negsuc, wrap, ltb_ℤ}
use redis_course.Base.Decimal.{parse_int}
use redis_course.Protocol.Resp.{
  to_upper, encode_simple_string, encode_bulk_string, encode_null_bulk_string, encode_integer,
  encode_error,
}
use redis_course.Storage.Eviction.{EvictionPolicy}
use redis_course.Storage.Store.{SortedSets, Store}
use redis_course.Storage.Store.Strings.{
  Reply, ok, err, to_word, store_set, store_get, store_delete, store_expire, store_ttl,
  store_exists, store_incr,
}
use redis_course.Protocol.Handlers.{
  Env, Handler, encode_wrong_arity, encode_not_integer, encode_bool, found_or_null,
}

-- `time.Duration(seconds) * time.Second`, an int64 product.
unfoldable pub in_seconds : ℤ → ℤ
unfolding to_word
in_seconds seconds = wrap (to_word seconds * 1000000000)

-- The two clock readings for each key of EXISTS.
pub with_clock : (ℕ → ℕ) → ℕ → List Bytes → List (ℕ × ℕ × Bytes)
with_clock now i [] = []
with_clock now i (key ∷ keys) = (now i, now (i + 1), key) ∷ with_clock now (i + 2) keys

incr_reply : Reply ℤ → Bytes
unfolding encode_integer encode_not_integer
incr_reply (ok next) = encode_integer next
incr_reply (err e) = encode_not_integer

module _ {P : EvictionPolicy} {Z : SortedSets} where
  unfoldable pub handle_ping : Handler P Z
  unfolding encode_simple_string encode_wrong_arity
  handle_ping env [] s = (s, encode_simple_string (codes "PONG"))
  handle_ping env (text ∷ []) s = (s, encode_simple_string text)
  handle_ping env (a ∷ b ∷ args) s = (s, encode_wrong_arity (codes "ping"))

  unfoldable pub set_with : Env → Bytes → Bytes → ℤ → Store P Z → Store P Z × Bytes
  unfolding store_set encode_simple_string
  set_with env key value ttl s = (
    store_set (env.now 0) (env.now 1) env.draws key value ttl s,
    encode_simple_string (codes "OK"),
  )

  -- The option EX and its seconds.
  unfoldable pub set_ex : Env → Bytes → Bytes → Bytes → Bytes → Store P Z → Store P Z × Bytes
  unfolding to_upper parse_int encode_error in_seconds set_with
  set_ex env key value option text s =
      if not (same (to_upper env.unicode_upper option) (codes "EX"))
      then (s, encode_error (codes "ERR syntax error"))
      else elim (parse_int text) [
        | none ↦ (s, encode_error (codes "ERR invalid expire time in 'set' command"))
        | some seconds ↦
            if ltb_ℤ (pos 0) seconds
            then set_with env key value (in_seconds seconds) s
            else (s, encode_error (codes "ERR invalid expire time in 'set' command"))
      ]

  unfoldable pub handle_set : Handler P Z
  unfolding set_with set_ex encode_wrong_arity
  handle_set env (key ∷ value ∷ []) s = set_with env key value (pos 0) s
  handle_set env (key ∷ value ∷ option ∷ text ∷ []) s = set_ex env key value option text s
  handle_set env args s = (s, encode_wrong_arity (codes "set"))

  unfoldable pub handle_get : Handler P Z
  unfolding store_get found_or_null encode_bulk_string encode_wrong_arity
  handle_get env (key ∷ []) s =
      let (t, value) = store_get (env.now 0) (env.now 1) key s in
      (t, found_or_null encode_bulk_string value)
  handle_get env args s = (s, encode_wrong_arity (codes "get"))

  unfoldable pub handle_expire : Handler P Z
  unfolding parse_int in_seconds store_expire encode_bool encode_wrong_arity encode_not_integer
  handle_expire env (key ∷ text ∷ []) s = elim (parse_int text) [
    | none ↦ (s, encode_not_integer)
    | some seconds ↦
        let (t, found) = store_expire (env.now 0) (env.now 1) key (in_seconds seconds) s in
        (t, encode_bool found)
  ]
  handle_expire env args s = (s, encode_wrong_arity (codes "expire"))

  unfoldable pub handle_ttl : Handler P Z
  unfolding store_ttl encode_integer encode_wrong_arity
  handle_ttl env (key ∷ []) s =
      let (t, seconds) = store_ttl (env.now 0) (env.now 1) (env.now 2) key s in
      (t, encode_integer seconds)
  handle_ttl env args s = (s, encode_wrong_arity (codes "ttl"))

  unfoldable pub handle_del : Handler P Z
  unfolding store_delete encode_integer encode_wrong_arity
  handle_del env [] s = (s, encode_wrong_arity (codes "del"))
  handle_del env (key ∷ keys) s =
      let (t, n) = store_delete (key ∷ keys) s in (t, encode_integer (pos n))

  unfoldable pub handle_exists : Handler P Z
  unfolding store_exists with_clock encode_integer encode_wrong_arity
  handle_exists env [] s = (s, encode_wrong_arity (codes "exists"))
  handle_exists env (key ∷ keys) s =
      let (t, n) = store_exists (with_clock env.now 0 (key ∷ keys)) s in (t, encode_integer (pos n))

  unfoldable pub handle_incr : Handler P Z
  unfolding store_incr incr_reply encode_wrong_arity
  handle_incr env (key ∷ []) s =
      let (t, reply) = store_incr (env.now 0) env.draws key s in (t, incr_reply reply)
  handle_incr env args s = (s, encode_wrong_arity (codes "incr"))
