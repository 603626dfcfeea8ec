-- ===== src/Protocol/Handlers/Zsets/Keeps.antt =====
-- The commands on sorted sets and the invariant of the store.
use redis_course.Base.{
  suc, ◌%◌, ◌≡◌, inl, inr, false, ◌||◌, some, List, [], ◌∷◌, Bytes, same, ltb, ◌==◌, length,
  Bool-cases, Option-cases,
}
use mathlib.Core.Path.{subst}
use mathlib.Core.Option.{some-injective}
use redis_course.Base.Decimal.{parse_int}
use redis_course.Base.GoMap.{GoMap, insert}
use redis_course.Storage.Float64.{Float64, is_nan}
use redis_course.Storage.SortedSet.{SetLaws}
use redis_course.Storage.Eviction.{EvictionPolicy, Laws}
use redis_course.Storage.Store.{SortedSets}
use redis_course.Protocol.Handlers.{Env, in_order}
use redis_course.Protocol.Handlers.Keeps.{Keeps}
use redis_course.Protocol.Handlers.Keeps.{in_order-All}
use redis_course.Storage.Store.Zsets.{store_zscore, store_zrank, store_zrange}
use redis_course.Storage.Store.Zsets.Keeps.{
  Numbers, store_zadd-IsValid, store_zrem-IsValid, read_sorted_set-IsValid,
}
use redis_course.Protocol.Handlers.Zsets.{
  handle_zadd, handle_zscore, handle_zrank, handle_zrange, handle_zrem, parse_scores, zadd_scores,
}

insert-Numbers :
    (m : Bytes) (x : Float64) (ms : GoMap Float64)
    → is_nan x ≡ false
    → Numbers ms
    → Numbers (insert m x ms)
unfolding insert
insert-Numbers m x [] h n = (h, tt)
insert-Numbers m x ((k, y) ∷ ms) h (n, ns) = elim (Bool-cases (same m k)) [
  | inl e ↦ rw e (h, ns)
  | inr e ↦ rw e (n, insert-Numbers m x ms h ns)
]

parse_scores-Numbers :
    (env : Env) (args : List Bytes) (ms out : GoMap Float64)
    → Numbers ms
    → parse_scores env args ms ≡ some out
    → Numbers out
unfolding parse_scores
parse_scores-Numbers env [] ms out n e = subst Numbers (some-injective _ _ e) n
parse_scores-Numbers env (text ∷ []) ms out n e = subst Numbers (some-injective _ _ e) n
parse_scores-Numbers env (text ∷ member ∷ rest) ms out n e =
    elim (Option-cases (env.parse_float text)) [
      | inl p ↦ absurd (cc (rw (p, parse_scores) at e))
      | inr (x, p) ↦ elim (Bool-cases (is_nan x)) [
        | inl b ↦ absurd (cc (rw b at (rw (p, parse_scores) at e)))
        | inr b ↦
            parse_scores-Numbers env rest (insert member x ms) out (insert-Numbers member x ms b n)
              (rw b at (rw (p, parse_scores) at e))
      ]
    ]

module _ {P : EvictionPolicy} {Z : SortedSets} (L : Laws P) (K : SetLaws Z) where
  pub handle_zscore-Keeps : Keeps L K handle_zscore
  unfolding handle_zscore store_zscore
  handle_zscore-Keeps env [] s v = v
  handle_zscore-Keeps env (key ∷ []) s v = v
  handle_zscore-Keeps env (key ∷ member ∷ []) s v =
      read_sorted_set-IsValid L K (env.now 0) _ _ key s v
  handle_zscore-Keeps env (key ∷ member ∷ c ∷ args) s v = v

  pub handle_zrank-Keeps : Keeps L K handle_zrank
  unfolding handle_zrank store_zrank
  handle_zrank-Keeps env [] s v = v
  handle_zrank-Keeps env (key ∷ []) s v = v
  handle_zrank-Keeps env (key ∷ member ∷ []) s v =
      read_sorted_set-IsValid L K (env.now 0) _ _ key s v
  handle_zrank-Keeps env (key ∷ member ∷ c ∷ args) s v = v

  pub handle_zrange-Keeps : Keeps L K handle_zrange
  unfolding handle_zrange store_zrange
  handle_zrange-Keeps env [] s v = v
  handle_zrange-Keeps env (key ∷ []) s v = v
  handle_zrange-Keeps env (key ∷ first ∷ []) s v = v
  handle_zrange-Keeps env (key ∷ first ∷ last ∷ []) s v = elim (Option-cases (parse_int first)) [
    | inl e ↦ rw (e, handle_zrange) v
    | inr (start, e) ↦ elim (Option-cases (parse_int last)) [
      | inl f ↦ rw (e, handle_zrange) (rw f v)
      | inr (stop, f) ↦
          rw (e, handle_zrange) (rw f (read_sorted_set-IsValid L K (env.now 0) _ _ key s v))
    ]
  ]
  handle_zrange-Keeps env (key ∷ first ∷ last ∷ d ∷ args) s v = v

  pub handle_zrem-Keeps : Keeps L K handle_zrem
  unfolding handle_zrem
  handle_zrem-Keeps env [] s v = v
  handle_zrem-Keeps env (key ∷ []) s v = v
  handle_zrem-Keeps env (key ∷ member ∷ members) s v =
      store_zrem-IsValid L K (env.now 0) key (member ∷ members) s v

  pub handle_zadd-Keeps : K.Trusted → Keeps L K handle_zadd
  unfolding handle_zadd zadd_scores
  handle_zadd-Keeps c env [] s v = v
  handle_zadd-Keeps c env (key ∷ rest) s v =
      elim (Bool-cases (ltb (suc (length rest)) 3 || (suc (length rest) % 2 == 0))) [
        | inl b ↦ rw (b, handle_zadd) v
        | inr b ↦ elim (Option-cases (parse_scores env rest [])) [
          | inl e ↦ rw (b, handle_zadd) (rw e v)
          | inr (scores, e) ↦
              rw (b, handle_zadd)
                (rw e (
                  store_zadd-IsValid L K (env.now 0) env.draws key (in_order env.order scores) s c
                    (in_order-All _ env.order scores (parse_scores-Numbers env rest [] scores tt e))
                    v))
        ]
      ]
