-- ===== src/Protocol/Handlers/Sketches/Keeps.antt =====
-- The commands on count-min sketches and the invariant of the store.
use redis_course.Base.{
  suc, ◌%◌, inl, inr, not, ◌||◌, List, [], ◌∷◌, Bytes, codes, same, ltb, ◌==◌, length, take, drop,
  replicate, Bool-cases, Option-cases,
}
use redis_course.Protocol.Resp.{to_upper}
use redis_course.Storage.Float64.{outside_unit}
use redis_course.Storage.SortedSet.{SetLaws}
use redis_course.Storage.Eviction.{EvictionPolicy, Laws}
use redis_course.Storage.Store.{SortedSets, Store}
use redis_course.Storage.Store.Valid.{IsValid}
use redis_course.Protocol.Handlers.{Env, positive_uint}
use redis_course.Protocol.Handlers.Keeps.{Keeps}
use redis_course.Storage.Store.Sketches.{cms_init, cms_init_by_probability}
use redis_course.Storage.Store.Sketches.Merges.{cms_merge-IsValid}
use redis_course.Storage.Store.Sketches.Keeps.{
  cms_query-IsValid, cms_info-IsValid, cms_incr_by-IsValid, cms_init_sketch-IsValid,
}
use redis_course.Protocol.Handlers.Sketches.{
  handle_cms_init_by_dim, handle_cms_init_by_prob, handle_cms_incr_by, handle_cms_query,
  handle_cms_info, handle_cms_merge, parse_increments, parse_weights, merge_with, merge_weighted,
}

module _ {P : EvictionPolicy} {Z : SortedSets} (L : Laws P) (K : SetLaws Z) where
  pub handle_cms_init_by_dim-Keeps : Keeps L K handle_cms_init_by_dim
  unfolding handle_cms_init_by_dim cms_init
  handle_cms_init_by_dim-Keeps env [] s v = v
  handle_cms_init_by_dim-Keeps env (key ∷ []) s v = v
  handle_cms_init_by_dim-Keeps env (key ∷ w ∷ []) s v = v
  handle_cms_init_by_dim-Keeps env (key ∷ w ∷ d ∷ []) s v = elim (Option-cases (positive_uint w)) [
    | inl e ↦ rw (e, handle_cms_init_by_dim) v
    | inr (width, e) ↦ elim (Option-cases (positive_uint d)) [
      | inl f ↦ rw (e, handle_cms_init_by_dim) (rw f v)
      | inr (depth, f) ↦
          rw (e, handle_cms_init_by_dim)
            (rw f (cms_init_sketch-IsValid L K (env.now 0) env.draws key _ s v))
    ]
  ]
  handle_cms_init_by_dim-Keeps env (key ∷ w ∷ d ∷ e ∷ args) s v = v

  pub handle_cms_init_by_prob-Keeps : Keeps L K handle_cms_init_by_prob
  unfolding handle_cms_init_by_prob cms_init_by_probability
  handle_cms_init_by_prob-Keeps env [] s v = v
  handle_cms_init_by_prob-Keeps env (key ∷ []) s v = v
  handle_cms_init_by_prob-Keeps env (key ∷ w ∷ []) s v = v
  handle_cms_init_by_prob-Keeps env (key ∷ r ∷ p ∷ []) s v =
      elim (Option-cases (env.parse_float r)) [
        | inl e ↦ rw (e, handle_cms_init_by_prob) v
        | inr (rate, e) ↦ elim (Bool-cases (outside_unit rate)) [
          | inl b ↦ rw (e, handle_cms_init_by_prob) (rw b v)
          | inr b ↦ elim (Option-cases (env.parse_float p)) [
            | inl f ↦ rw (e, handle_cms_init_by_prob) (rw b (rw f v))
            | inr (probability, f) ↦ elim (Bool-cases (outside_unit probability)) [
              | inl c ↦ rw (e, handle_cms_init_by_prob) (rw b (rw f (rw c v)))
              | inr c ↦
                  rw (e, handle_cms_init_by_prob)
                    (rw b
                      (rw f (rw c (cms_init_sketch-IsValid L K (env.now 0) env.draws key _ s v))))
            ]
          ]
        ]
      ]
  handle_cms_init_by_prob-Keeps env (key ∷ w ∷ d ∷ e ∷ args) s v = v

  pub handle_cms_incr_by-Keeps : Keeps L K handle_cms_incr_by
  unfolding handle_cms_incr_by
  handle_cms_incr_by-Keeps env [] s v = v
  handle_cms_incr_by-Keeps env (key ∷ rest) s v =
      elim (Bool-cases (ltb (suc (length rest)) 3 || (suc (length rest) % 2 == 0))) [
        | inl b ↦ rw (b, handle_cms_incr_by) v
        | inr b ↦ elim (Option-cases (parse_increments rest)) [
          | inl e ↦ rw (b, handle_cms_incr_by) (rw e v)
          | inr (is, e) ↦
              rw (b, handle_cms_incr_by) (rw e (cms_incr_by-IsValid L K (env.now 0) key is s v))
        ]
      ]

  pub handle_cms_query-Keeps : Keeps L K handle_cms_query
  unfolding handle_cms_query
  handle_cms_query-Keeps env [] s v = v
  handle_cms_query-Keeps env (key ∷ []) s v = v
  handle_cms_query-Keeps env (key ∷ item ∷ items) s v =
      cms_query-IsValid L K (env.now 0) key (item ∷ items) s v

  pub handle_cms_info-Keeps : Keeps L K handle_cms_info
  unfolding handle_cms_info
  handle_cms_info-Keeps env [] s v = v
  handle_cms_info-Keeps env (key ∷ []) s v = cms_info-IsValid L K (env.now 0) key s v
  handle_cms_info-Keeps env (key ∷ b ∷ args) s v = v

  merge_weighted-IsValid :
      (env : Env) (destination : Bytes) (keys texts : List Bytes) (s : Store P Z)
      → IsValid L K s
      → IsValid L K (merge_weighted env destination keys texts s).0
  unfolding merge_weighted merge_with
  merge_weighted-IsValid env destination keys [] s v =
      cms_merge-IsValid L K env.now env.draws destination keys (replicate (length keys) 1) s v
  merge_weighted-IsValid env destination keys (word ∷ texts) s v =
      elim (Bool-cases (
        not (length texts == length keys)
        || not (same (to_upper env.unicode_upper word) (codes "WEIGHTS")))) [
          | inl b ↦ rw (b, merge_weighted) v
          | inr b ↦ elim (Option-cases (parse_weights texts)) [
            | inl e ↦ rw (b, merge_weighted) (rw e v)
            | inr (weights, e) ↦
                rw (b, merge_weighted)
                  (rw e (cms_merge-IsValid L K env.now env.draws destination keys weights s v))
          ]
        ]

  pub handle_cms_merge-Keeps : Keeps L K handle_cms_merge
  unfolding handle_cms_merge
  handle_cms_merge-Keeps env [] s v = v
  handle_cms_merge-Keeps env (key ∷ []) s v = v
  handle_cms_merge-Keeps env (key ∷ text ∷ []) s v = v
  handle_cms_merge-Keeps env (key ∷ text ∷ c ∷ rest) s v =
      elim (Option-cases (positive_uint text)) [
        | inl e ↦ rw (e, handle_cms_merge) v
        | inr (n, e) ↦ elim (Bool-cases (ltb (suc (length rest)) n)) [
          | inl b ↦ rw (e, handle_cms_merge) (rw b v)
          | inr b ↦
              rw (e, handle_cms_merge)
                (rw b (merge_weighted-IsValid env key (take n (c ∷ rest)) (drop n (c ∷ rest)) s v))
        ]
      ]
