-- ===== src/Protocol/Handlers/Filters/Keeps.antt =====
-- The commands on Bloom filters and the invariant of the store.
use redis_course.Base.{inl, inr, List, [], ◌∷◌, Bytes, Bool-cases, Option-cases}
use redis_course.Storage.Float64.{outside_unit}
use redis_course.Storage.SortedSet.{SetLaws}
use redis_course.Storage.Eviction.{EvictionPolicy, Laws}
use redis_course.Storage.Store.{SortedSets, Store}
use redis_course.Storage.Store.Valid.{IsValid}
use redis_course.Protocol.Handlers.{Env, positive_uint}
use redis_course.Protocol.Handlers.Keeps.{Keeps}
use redis_course.Storage.Store.Filters.Keeps.{
  bf_multi_add-IsValid, bf_multi_exists-IsValid, bf_info-IsValid, bf_reserve-IsValid,
}
use redis_course.Protocol.Handlers.Filters.{
  handle_bf_reserve, handle_bf_add, handle_bf_exists, handle_bf_multi_add, handle_bf_multi_exists,
  handle_bf_info, add_all, default_bloom_filter_error_rate,
}

module _ {P : EvictionPolicy} {Z : SortedSets} (L : Laws P) (K : SetLaws Z) where
  pub handle_bf_reserve-Keeps : Keeps L K handle_bf_reserve
  unfolding handle_bf_reserve
  handle_bf_reserve-Keeps env [] s v = v
  handle_bf_reserve-Keeps env (key ∷ []) s v = v
  handle_bf_reserve-Keeps env (key ∷ r ∷ []) s v = v
  handle_bf_reserve-Keeps env (key ∷ r ∷ c ∷ []) s v = elim (Option-cases (env.parse_float r)) [
    | inl e ↦ rw (e, handle_bf_reserve) v
    | inr (rate, e) ↦ elim (Bool-cases (outside_unit rate)) [
      | inl b ↦ rw (e, handle_bf_reserve) (rw b v)
      | inr b ↦ elim (Option-cases (positive_uint c)) [
        | inl f ↦ rw (e, handle_bf_reserve) (rw b (rw f v))
        | inr (capacity, f) ↦
            rw (e, handle_bf_reserve)
              (rw b (
                rw f (
                  bf_reserve-IsValid L K env.float_math (env.now 0) env.draws key rate capacity s
                    v)))
      ]
    ]
  ]
  handle_bf_reserve-Keeps env (key ∷ r ∷ c ∷ d ∷ args) s v = v

  add_all-IsValid :
      (env : Env) (key : Bytes) (items : List Bytes) (s : Store P Z)
      → IsValid L K s
      → IsValid L K (add_all env key items s).0
  unfolding add_all
  add_all-IsValid env key items s v =
      bf_multi_add-IsValid L K env.float_math default_bloom_filter_error_rate (env.now 0) env.draws
        key items s v

  pub handle_bf_add-Keeps : Keeps L K handle_bf_add
  unfolding handle_bf_add
  handle_bf_add-Keeps env [] s v = v
  handle_bf_add-Keeps env (key ∷ []) s v = v
  handle_bf_add-Keeps env (key ∷ item ∷ []) s v = add_all-IsValid env key (item ∷ []) s v
  handle_bf_add-Keeps env (key ∷ item ∷ c ∷ args) s v = v

  pub handle_bf_exists-Keeps : Keeps L K handle_bf_exists
  unfolding handle_bf_exists
  handle_bf_exists-Keeps env [] s v = v
  handle_bf_exists-Keeps env (key ∷ []) s v = v
  handle_bf_exists-Keeps env (key ∷ item ∷ []) s v =
      bf_multi_exists-IsValid L K (env.now 0) key (item ∷ []) s v
  handle_bf_exists-Keeps env (key ∷ item ∷ c ∷ args) s v = v

  pub handle_bf_multi_add-Keeps : Keeps L K handle_bf_multi_add
  unfolding handle_bf_multi_add
  handle_bf_multi_add-Keeps env [] s v = v
  handle_bf_multi_add-Keeps env (key ∷ []) s v = v
  handle_bf_multi_add-Keeps env (key ∷ item ∷ items) s v =
      add_all-IsValid env key (item ∷ items) s v

  pub handle_bf_multi_exists-Keeps : Keeps L K handle_bf_multi_exists
  unfolding handle_bf_multi_exists
  handle_bf_multi_exists-Keeps env [] s v = v
  handle_bf_multi_exists-Keeps env (key ∷ []) s v = v
  handle_bf_multi_exists-Keeps env (key ∷ item ∷ items) s v =
      bf_multi_exists-IsValid L K (env.now 0) key (item ∷ items) s v

  pub handle_bf_info-Keeps : Keeps L K handle_bf_info
  unfolding handle_bf_info
  handle_bf_info-Keeps env [] s v = v
  handle_bf_info-Keeps env (key ∷ []) s v = bf_info-IsValid L K (env.now 0) key s v
  handle_bf_info-Keeps env (key ∷ b ∷ args) s v = v
