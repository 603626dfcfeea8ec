-- ===== src/Protocol/Handlers/Filters.antt =====
-- command_bloom_filter.go.
pub mod Keeps
use redis_course.Base.{
  ℕ, zero, suc, Bool, true, false, not, Option, none, some, List, [], ◌∷◌, map, Bytes, codes,
  if◌then◌else◌,
}
use redis_course.Base.Int.{pos, wrap}
use redis_course.Protocol.Resp.{
  encode_simple_string, encode_bulk_string, encode_integer, encode_array, encode_error,
}
use redis_course.Storage.Float64.{Float64, outside_unit}
use redis_course.Storage.Eviction.{EvictionPolicy}
use redis_course.Storage.Store.{SortedSets, Store}
use redis_course.Storage.Store.Filters.{
  FilterError, wrong_type, key_not_found, incompatible, key_exists, make_panics, FilterReply, ok,
  err, BloomFilterInfo, bf_reserve, bf_multi_add, bf_multi_exists, bf_info,
}
use redis_course.Protocol.Handlers.{
  Env, Answer, replies, panics, RiskyHandler, encode_wrong_arity, encode_wrong_type, encode_bool,
  positive_uint,
}

-- `DefaultBloomFilterErrorRate`, 0.01.
unfoldable pub default_bloom_filter_error_rate : Float64
default_bloom_filter_error_rate = record { negative = false; magnitude = 0x3f847ae147ae147b }

unfoldable pub encode_bloom_filter_error : FilterError → Answer
unfolding encode_wrong_type encode_error
encode_bloom_filter_error key_exists = replies (encode_error (codes "ERR BF: key already exists"))
encode_bloom_filter_error key_not_found =
    replies (encode_error (codes "ERR BF: key does not exist"))
encode_bloom_filter_error incompatible =
    replies (encode_error (codes "ERR BF: invalid filter configuration"))
encode_bloom_filter_error wrong_type = replies encode_wrong_type
encode_bloom_filter_error make_panics = panics

unfoldable pub encode_bloom_filter_booleans : List Bool → Bytes
unfolding encode_array encode_bool
encode_bloom_filter_booleans values = encode_array (map encode_bool values)

unfoldable pub encode_bloom_filter_info : BloomFilterInfo → Bytes
unfolding encode_array encode_bulk_string encode_integer
encode_bloom_filter_info info = encode_array (
    encode_bulk_string (codes "Capacity")
    ∷ encode_integer (wrap info.capacity)
    ∷ encode_bulk_string (codes "Size")
    ∷ encode_integer (wrap info.filter_size)
    ∷ encode_bulk_string (codes "Number of filters")
    ∷ encode_integer (pos 1)
    ∷ encode_bulk_string (codes "Number of items inserted")
    ∷ encode_integer (wrap info.count)
    ∷ encode_bulk_string (codes "Expansion rate")
    ∷ encode_integer (pos 0)
    ∷ [])

-- A reply of the store, encoded.
unfoldable pub filter_reply : {A : Type 0} → (A → Bytes) → FilterReply A → Answer
unfolding encode_bloom_filter_error
filter_reply encode (ok a) = replies (encode a)
filter_reply encode (err e) = encode_bloom_filter_error e

-- The answer of `BFAdd` and `BFExists`, the cases of one item.
only : List Bool → Bytes
unfolding encode_bool
only [] = encode_bool false
only (b ∷ bs) = encode_bool b

module _ {P : EvictionPolicy} {Z : SortedSets} where
  unfoldable pub handle_bf_reserve : RiskyHandler P Z
  unfolding encode_wrong_arity outside_unit positive_uint bf_reserve filter_reply
      encode_simple_string encode_error
  handle_bf_reserve env (key ∷ rate_text ∷ capacity_text ∷ []) s =
      elim (env.parse_float rate_text) [
        | none ↦ (s, replies (encode_error (codes "ERR BF: error rate must be between 0 and 1")))
        | some rate ↦
            if outside_unit rate
            then (s, replies (encode_error (codes "ERR BF: error rate must be between 0 and 1")))
            else elim (positive_uint capacity_text) [
              | none ↦
                  (s, replies (encode_error (codes "ERR BF: capacity must be a positive integer")))
              | some capacity ↦
                  let (t, reply) =
                    bf_reserve env.float_math (env.now 0) env.draws key rate capacity s in
                  (t, filter_reply (λ done. encode_simple_string (codes "OK")) reply)
            ]
      ]
  handle_bf_reserve env args s = (s, replies (encode_wrong_arity (codes "bf.reserve")))

  add_all : Env → Bytes → List Bytes → Store P Z → Store P Z × FilterReply (List Bool)
  unfolding bf_multi_add default_bloom_filter_error_rate
  add_all env key items s =
      bf_multi_add env.float_math default_bloom_filter_error_rate (env.now 0) env.draws key items s

  unfoldable pub handle_bf_add : RiskyHandler P Z
  unfolding encode_wrong_arity add_all filter_reply only
  handle_bf_add env (key ∷ item ∷ []) s =
      let (t, reply) = add_all env key (item ∷ []) s in (t, filter_reply only reply)
  handle_bf_add env args s = (s, replies (encode_wrong_arity (codes "bf.add")))

  unfoldable pub handle_bf_exists : RiskyHandler P Z
  unfolding encode_wrong_arity bf_multi_exists filter_reply only
  handle_bf_exists env (key ∷ item ∷ []) s =
      let (t, reply) = bf_multi_exists (env.now 0) key (item ∷ []) s in (t, filter_reply only reply)
  handle_bf_exists env args s = (s, replies (encode_wrong_arity (codes "bf.exists")))

  unfoldable pub handle_bf_multi_add : RiskyHandler P Z
  unfolding encode_wrong_arity add_all filter_reply encode_bloom_filter_booleans
  handle_bf_multi_add env (key ∷ item ∷ items) s =
      let (t, reply) = add_all env key (item ∷ items) s in
      (t, filter_reply encode_bloom_filter_booleans reply)
  handle_bf_multi_add env args s = (s, replies (encode_wrong_arity (codes "bf.madd")))

  unfoldable pub handle_bf_multi_exists : RiskyHandler P Z
  unfolding encode_wrong_arity bf_multi_exists filter_reply encode_bloom_filter_booleans
  handle_bf_multi_exists env (key ∷ item ∷ items) s =
      let (t, reply) = bf_multi_exists (env.now 0) key (item ∷ items) s in
      (t, filter_reply encode_bloom_filter_booleans reply)
  handle_bf_multi_exists env args s = (s, replies (encode_wrong_arity (codes "bf.mexists")))

  unfoldable pub handle_bf_info : RiskyHandler P Z
  unfolding encode_wrong_arity bf_info filter_reply encode_bloom_filter_info
  handle_bf_info env (key ∷ []) s =
      let (t, reply) = bf_info (env.now 0) key s in (t, filter_reply encode_bloom_filter_info reply)
  handle_bf_info env args s = (s, replies (encode_wrong_arity (codes "bf.info")))
