-- ===== src/Protocol/Handlers/Sketches.antt =====
-- command_cms.go.
pub mod Keeps
use redis_course.Base.{
  ℕ, zero, suc, ◌+◌, ◌%◌, Bool, true, false, not, ◌||◌, Option, none, some, List, [], ◌∷◌, map,
  Bytes, codes, ltb, ◌==◌, same, if◌then◌else◌, length, take, drop, replicate,
}
use redis_course.Base.Int.{wrap}
use redis_course.Protocol.Resp.{
  to_upper, encode_simple_string, encode_bulk_string, encode_integer, encode_array, encode_error,
}
use redis_course.Storage.Float64.{outside_unit}
use redis_course.Storage.Eviction.{EvictionPolicy}
use redis_course.Storage.Store.{SortedSets, Store}
use redis_course.Storage.Store.Sketches.{
  SketchError, wrong_type, key_not_found, incompatible, overflow, key_exists, make_panics,
  SketchReply, ok, err, CmsIncrement, CmsInfo, cms_init, cms_init_by_probability, cms_incr_by,
  cms_query, cms_info, cms_merge,
}
use redis_course.Protocol.Handlers.{
  Env, Answer, replies, panics, RiskyHandler, encode_wrong_arity, encode_wrong_type, positive_uint,
}

unfoldable pub encode_cms_counts : List ℕ → Bytes
unfolding encode_array encode_integer
encode_cms_counts counts = encode_array (map (λ n. encode_integer (wrap n)) counts)

unfoldable pub encode_cms_error : SketchError → Answer
unfolding encode_wrong_type encode_error
encode_cms_error key_exists = replies (encode_error (codes "ERR CMS: key already exists"))
encode_cms_error key_not_found = replies (encode_error (codes "ERR CMS: key does not exist"))
encode_cms_error incompatible =
    replies (encode_error (codes "ERR CMS: sketches have different width/depth"))
encode_cms_error overflow = replies (encode_error (codes "ERR CMS: counter overflow"))
encode_cms_error wrong_type = replies encode_wrong_type
encode_cms_error make_panics = panics

-- A reply of the store, encoded.
unfoldable pub sketch_reply : {A : Type 0} → (A → Bytes) → SketchReply A → Answer
unfolding encode_cms_error
sketch_reply encode (ok a) = replies (encode a)
sketch_reply encode (err e) = encode_cms_error e

encode_done : Unit {0} → Bytes
unfolding encode_simple_string
encode_done _ = encode_simple_string (codes "OK")

unfoldable pub encode_cms_info : CmsInfo → Bytes
unfolding encode_array encode_bulk_string encode_integer
encode_cms_info info = encode_array (
    encode_bulk_string (codes "width")
    ∷ encode_integer (wrap info.width)
    ∷ encode_bulk_string (codes "depth")
    ∷ encode_integer (wrap info.depth)
    ∷ encode_bulk_string (codes "count")
    ∷ encode_integer (wrap info.count)
    ∷ [])

-- The loop of `HandleCMSIncrBy`.
unfoldable pub parse_increments : List Bytes → Option (List CmsIncrement)
unfolding positive_uint
parse_increments (item ∷ text ∷ rest) = elim (positive_uint text) [
  | none ↦ none
  | some n ↦ elim (parse_increments rest) [
    | none ↦ none
    | some is ↦ some ((record { item = item; value = n }) ∷ is)
  ]
]
parse_increments rest = some []

-- The loop of `HandleCMSMerge` over the weights.
unfoldable pub parse_weights : List Bytes → Option (List ℕ)
unfolding positive_uint
parse_weights [] = some []
parse_weights (text ∷ rest) = elim (positive_uint text) [
  | none ↦ none
  | some n ↦ elim (parse_weights rest) [ none ↦ none | some ns ↦ some (n ∷ ns) ]
]

module _ {P : EvictionPolicy} {Z : SortedSets} where
  unfoldable pub handle_cms_init_by_dim : RiskyHandler P Z
  unfolding encode_wrong_arity positive_uint cms_init sketch_reply encode_done encode_error
  handle_cms_init_by_dim env (key ∷ width_text ∷ depth_text ∷ []) s =
      elim (positive_uint width_text) [
        | none ↦ (s, replies (encode_error (codes "ERR CMS: width must be a positive integer")))
        | some width ↦ elim (positive_uint depth_text) [
          | none ↦ (s, replies (encode_error (codes "ERR CMS: depth must be a positive integer")))
          | some depth ↦
              let (t, reply) = cms_init (env.now 0) env.draws key width depth s in
              (t, sketch_reply encode_done reply)
        ]
      ]
  handle_cms_init_by_dim env args s = (s, replies (encode_wrong_arity (codes "cms.initbydim")))

  unfoldable pub handle_cms_init_by_prob : RiskyHandler P Z
  unfolding encode_wrong_arity outside_unit cms_init_by_probability sketch_reply encode_done
      encode_error
  handle_cms_init_by_prob env (key ∷ rate_text ∷ probability_text ∷ []) s =
      elim (env.parse_float rate_text) [
        | none ↦ (s, replies (encode_error (codes "ERR CMS: error rate must be between 0 and 1")))
        | some rate ↦
            if outside_unit rate
            then (s, replies (encode_error (codes "ERR CMS: error rate must be between 0 and 1")))
            else elim (env.parse_float probability_text) [
              | none ↦
                  (s, replies (encode_error (codes "ERR CMS: probability must be between 0 and 1")))
              | some probability ↦
                  let (t, reply) =
                    cms_init_by_probability env.float_math (env.now 0) env.draws key rate
                      probability s in
                  if outside_unit probability
                  then (
                    s,
                    replies (encode_error (codes "ERR CMS: probability must be between 0 and 1")),
                  )
                  else (t, sketch_reply encode_done reply)
            ]
      ]
  handle_cms_init_by_prob env args s = (s, replies (encode_wrong_arity (codes "cms.initbyprob")))

  unfoldable pub handle_cms_incr_by : RiskyHandler P Z
  unfolding encode_wrong_arity parse_increments cms_incr_by sketch_reply encode_cms_counts
      encode_error
  handle_cms_incr_by env [] s = (s, replies (encode_wrong_arity (codes "cms.incrby")))
  handle_cms_incr_by env (key ∷ rest) s =
      if ltb (suc (length rest)) 3 || (suc (length rest) % 2 == 0)
      then (s, replies (encode_wrong_arity (codes "cms.incrby")))
      else elim (parse_increments rest) [
        | none ↦ (s, replies (encode_error (codes "ERR CMS: increment must be a positive integer")))
        | some is ↦
            let (t, reply) = cms_incr_by (env.now 0) key is s in
            (t, sketch_reply encode_cms_counts reply)
      ]

  unfoldable pub handle_cms_query : RiskyHandler P Z
  unfolding encode_wrong_arity cms_query sketch_reply encode_cms_counts
  handle_cms_query env (key ∷ item ∷ items) s =
      let (t, reply) = cms_query (env.now 0) key (item ∷ items) s in
      (t, sketch_reply encode_cms_counts reply)
  handle_cms_query env args s = (s, replies (encode_wrong_arity (codes "cms.query")))

  unfoldable pub handle_cms_info : RiskyHandler P Z
  unfolding encode_wrong_arity cms_info sketch_reply encode_cms_info
  handle_cms_info env (key ∷ []) s =
      let (t, reply) = cms_info (env.now 0) key s in (t, sketch_reply encode_cms_info reply)
  handle_cms_info env args s = (s, replies (encode_wrong_arity (codes "cms.info")))

  merge_with : Env → Bytes → List Bytes → List ℕ → Store P Z → Store P Z × Answer
  unfolding cms_merge sketch_reply encode_done
  merge_with env destination keys weights s =
      let (t, reply) = cms_merge env.now env.draws destination keys weights s in
      (t, sketch_reply encode_done reply)

  -- What stands behind the source keys: nothing, or the word WEIGHTS and a weight for each key.
  merge_weighted : Env → Bytes → List Bytes → List Bytes → Store P Z → Store P Z × Answer
  unfolding merge_with to_upper parse_weights encode_error
  merge_weighted env destination keys [] s =
      merge_with env destination keys (replicate (length keys) 1) s
  merge_weighted env destination keys (word ∷ texts) s =
      if not (length texts == length keys)
        || not (same (to_upper env.unicode_upper word) (codes "WEIGHTS"))
      then (s, replies (encode_error (codes "ERR CMS: syntax error")))
      else elim (parse_weights texts) [
        | none ↦ (s, replies (encode_error (codes "ERR CMS: weight must be a positive integer")))
        | some weights ↦ merge_with env destination keys weights s
      ]

  unfoldable pub handle_cms_merge : RiskyHandler P Z
  unfolding encode_wrong_arity positive_uint merge_weighted encode_error
  handle_cms_merge env (destination ∷ text ∷ key ∷ rest) s = elim (positive_uint text) [
    | none ↦ (s, replies (encode_error (codes "ERR CMS: invalid number of source keys")))
    | some n ↦
        if ltb (suc (length rest)) n
        then (s, replies (encode_error (codes "ERR CMS: invalid number of source keys")))
        else merge_weighted env destination (take n (key ∷ rest)) (drop n (key ∷ rest)) s
  ]
  handle_cms_merge env args s = (s, replies (encode_wrong_arity (codes "cms.merge")))
