-- ===== src/Protocol/Handlers/Zsets.antt =====
-- command_zadd.go, command_zscore.go, command_zrank.go, command_zrange.go and command_zrem.go.
pub mod Keeps
use redis_course.Base.{
  ℕ, zero, suc, ◌%◌, Bool, true, false, ◌||◌, Option, none, some, List, [], ◌∷◌, Bytes, codes, ltb,
  ◌==◌, length, if◌then◌else◌,
}
use redis_course.Base.Int.{pos}
use redis_course.Base.Decimal.{parse_int}
use redis_course.Base.GoMap.{GoMap, insert}
use redis_course.Protocol.Resp.{
  encode_integer, encode_bulk_string, encode_array_bulk_strings, encode_error,
}
use redis_course.Storage.Float64.{Float64, is_nan}
use redis_course.Storage.Eviction.{EvictionPolicy}
use redis_course.Storage.Store.{SortedSets, Store}
use redis_course.Storage.Store.Zsets.{
  store_zadd, store_zrem, store_zscore, store_zrank, store_zrange,
}
use redis_course.Protocol.Handlers.{
  Env, Handler, encode_wrong_arity, encode_not_integer, store_reply, found_or_null, in_order,
}

-- The loop of `HandleZADD`: each pair of a score and a member goes into the map.
unfoldable pub parse_scores : Env → List Bytes → GoMap Float64 → Option (GoMap Float64)
unfolding is_nan
parse_scores env (text ∷ member ∷ rest) scores = elim (env.parse_float text) [
  | none ↦ none
  | some score ↦
      let more = parse_scores env rest (insert member score scores) in
      if is_nan score then none else more
]
parse_scores env rest scores = some scores

module _ {P : EvictionPolicy} {Z : SortedSets} where
  zadd_scores : Env → Bytes → GoMap Float64 → Store P Z → Store P Z × Bytes
  unfolding store_zadd store_reply encode_integer in_order
  zadd_scores env key scores s =
      let (t, reply) = store_zadd (env.now 0) env.draws key (in_order env.order scores) s in
      (t, store_reply (λ n. encode_integer (pos n)) reply)

  unfoldable pub handle_zadd : Handler P Z
  unfolding parse_scores zadd_scores encode_wrong_arity encode_error
  handle_zadd env [] s = (s, encode_wrong_arity (codes "zadd"))
  handle_zadd env (key ∷ rest) s =
      if ltb (suc (length rest)) 3 || (suc (length rest) % 2 == 0)
      then (s, encode_wrong_arity (codes "zadd"))
      else elim (parse_scores env rest []) [
        | none ↦ (s, encode_error (codes "ERR value is not a valid float"))
        | some scores ↦ zadd_scores env key scores s
      ]

  unfoldable pub handle_zscore : Handler P Z
  unfolding store_zscore store_reply found_or_null encode_wrong_arity encode_bulk_string
  handle_zscore env (key ∷ member ∷ []) s =
      let (t, reply) = store_zscore (env.now 0) key member s in
      (t, store_reply (found_or_null (λ x. encode_bulk_string (env.format_float x))) reply)
  handle_zscore env args s = (s, encode_wrong_arity (codes "zscore"))

  unfoldable pub handle_zrank : Handler P Z
  unfolding store_zrank store_reply found_or_null encode_wrong_arity encode_integer
  handle_zrank env (key ∷ member ∷ []) s =
      let (t, reply) = store_zrank (env.now 0) key member s in
      (t, store_reply (found_or_null (λ n. encode_integer (pos n))) reply)
  handle_zrank env args s = (s, encode_wrong_arity (codes "zrank"))

  unfoldable pub handle_zrange : Handler P Z
  unfolding store_zrange store_reply parse_int encode_wrong_arity encode_not_integer
      encode_array_bulk_strings
  handle_zrange env (key ∷ first ∷ last ∷ []) s = elim (parse_int first) [
    | none ↦ (s, encode_not_integer)
    | some start ↦ elim (parse_int last) [
      | none ↦ (s, encode_not_integer)
      | some stop ↦
          let (t, reply) = store_zrange (env.now 0) key start stop s in
          (t, store_reply encode_array_bulk_strings reply)
    ]
  ]
  handle_zrange env args s = (s, encode_wrong_arity (codes "zrange"))

  unfoldable pub handle_zrem : Handler P Z
  unfolding store_zrem store_reply encode_wrong_arity encode_integer
  handle_zrem env (key ∷ member ∷ members) s =
      let (t, reply) = store_zrem (env.now 0) key (member ∷ members) s in
      (t, store_reply (λ n. encode_integer (pos n)) reply)
  handle_zrem env args s = (s, encode_wrong_arity (codes "zrem"))
