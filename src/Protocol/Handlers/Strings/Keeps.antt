-- ===== src/Protocol/Handlers/Strings/Keeps.antt =====
-- The commands on strings and the invariant of the store.
use redis_course.Base.{inl, inr, not, [], ◌∷◌, Bytes, codes, same, Bool-cases, Option-cases}
use redis_course.Base.Int.{pos, ltb_ℤ}
use redis_course.Base.Decimal.{parse_int}
use redis_course.Protocol.Resp.{to_upper}
use redis_course.Storage.SortedSet.{SetLaws}
use redis_course.Storage.Eviction.{EvictionPolicy, Laws}
use redis_course.Storage.Store.{SortedSets, Store}
use redis_course.Storage.Store.Valid.{IsValid}
use redis_course.Protocol.Handlers.{Env}
use redis_course.Protocol.Handlers.Keeps.{Keeps}
use redis_course.Storage.Store.Strings.Keeps.{
  store_set-IsValid, store_get-IsValid, store_delete-IsValid, store_expire-IsValid,
  store_ttl-IsValid, store_exists-IsValid, store_incr-IsValid,
}
use redis_course.Protocol.Handlers.Strings.{
  handle_ping, handle_set, handle_get, handle_expire, handle_ttl, handle_del, handle_exists,
  handle_incr, set_with, set_ex, with_clock, in_seconds,
}

module _ {P : EvictionPolicy} {Z : SortedSets} (L : Laws P) (K : SetLaws Z) where
  pub handle_ping-Keeps : Keeps L K handle_ping
  unfolding handle_ping
  handle_ping-Keeps env [] s v = v
  handle_ping-Keeps env (text ∷ []) s v = v
  handle_ping-Keeps env (a ∷ b ∷ args) s v = v

  set_ex-IsValid :
      (env : Env) (key value option text : Bytes) (s : Store P Z)
      → IsValid L K s
      → IsValid L K (set_ex env key value option text s).0
  unfolding set_ex set_with
  set_ex-IsValid env key value option text s v =
      elim (Bool-cases (not (same (to_upper env.unicode_upper option) (codes "EX")))) [
        | inl b ↦ rw (b, set_ex) v
        | inr b ↦ elim (Option-cases (parse_int text)) [
          | inl e ↦ rw (b, set_ex) (rw e v)
          | inr (seconds, e) ↦ elim (Bool-cases (ltb_ℤ (pos 0) seconds)) [
            | inl c ↦
                rw (b, set_ex)
                  (rw e (
                    rw c (
                      store_set-IsValid L K (env.now 0) (env.now 1) env.draws key value
                        (in_seconds seconds) s v)))
            | inr c ↦ rw (b, set_ex) (rw e (rw c v))
          ]
        ]
      ]

  pub handle_set-Keeps : Keeps L K handle_set
  unfolding handle_set set_with
  handle_set-Keeps env [] s v = v
  handle_set-Keeps env (key ∷ []) s v = v
  handle_set-Keeps env (key ∷ value ∷ []) s v =
      store_set-IsValid L K (env.now 0) (env.now 1) env.draws key value (pos 0) s v
  handle_set-Keeps env (key ∷ value ∷ option ∷ []) s v = v
  handle_set-Keeps env (key ∷ value ∷ option ∷ text ∷ []) s v =
      set_ex-IsValid env key value option text s v
  handle_set-Keeps env (key ∷ value ∷ option ∷ text ∷ more ∷ args) s v = v

  pub handle_get-Keeps : Keeps L K handle_get
  unfolding handle_get
  handle_get-Keeps env [] s v = v
  handle_get-Keeps env (key ∷ []) s v = store_get-IsValid L K (env.now 0) (env.now 1) key s v
  handle_get-Keeps env (key ∷ b ∷ args) s v = v

  pub handle_expire-Keeps : Keeps L K handle_expire
  unfolding handle_expire
  handle_expire-Keeps env [] s v = v
  handle_expire-Keeps env (key ∷ []) s v = v
  handle_expire-Keeps env (key ∷ text ∷ []) s v = elim (Option-cases (parse_int text)) [
    | inl e ↦ rw (e, handle_expire) v
    | inr (seconds, e) ↦
        rw (e, handle_expire)
          (store_expire-IsValid L K (env.now 0) (env.now 1) key (in_seconds seconds) s v)
  ]
  handle_expire-Keeps env (key ∷ text ∷ c ∷ args) s v = v

  pub handle_ttl-Keeps : Keeps L K handle_ttl
  unfolding handle_ttl
  handle_ttl-Keeps env [] s v = v
  handle_ttl-Keeps env (key ∷ []) s v =
      store_ttl-IsValid L K (env.now 0) (env.now 1) (env.now 2) key s v
  handle_ttl-Keeps env (key ∷ b ∷ args) s v = v

  pub handle_del-Keeps : Keeps L K handle_del
  unfolding handle_del
  handle_del-Keeps env [] s v = v
  handle_del-Keeps env (key ∷ keys) s v = store_delete-IsValid L K (key ∷ keys) s v

  pub handle_exists-Keeps : Keeps L K handle_exists
  unfolding handle_exists
  handle_exists-Keeps env [] s v = v
  handle_exists-Keeps env (key ∷ keys) s v =
      store_exists-IsValid L K (with_clock env.now 0 (key ∷ keys)) s v

  pub handle_incr-Keeps : Keeps L K handle_incr
  unfolding handle_incr
  handle_incr-Keeps env [] s v = v
  handle_incr-Keeps env (key ∷ []) s v = store_incr-IsValid L K (env.now 0) env.draws key s v
  handle_incr-Keeps env (key ∷ b ∷ args) s v = v
