-- ===== src/Storage/Store/Strings/Keeps.antt =====
-- The operations of internal/storage/string_value.go and the invariant of the store.
use redis_course.Base.{
  ℕ, ◌%◌, ◌^◌, ◌≡◌, inl, inr, refl, ap, ◌∙◌, arith, none, some, List, [], ◌∷◌, Bytes, same_refl,
  Bool-cases, Option-cases, ltb,
}
use redis_course.Base.Int.{ℤ}
use redis_course.Base.Decimal.{parse_int}
use redis_course.Base.GoMap.{lookup, lookup-delete, lookup-insert}
use redis_course.Storage.SortedSet.{SetLaws}
use redis_course.Storage.Eviction.{EvictionPolicy, Laws}
use redis_course.Storage.Store.{
  SortedSets, Record, Store, put, drop_key, track_insert, track_overwrite, track_remove,
  notify_access, notify_remove, shrink_memory, record_size, remove_expired, delete_if_expired,
  is_expired, string_type, string,
}
use redis_course.Storage.Store.Valid.{
  ValueOk, value-ValueOk, IsValid, reput-IsValid, used-IsValid, track_insert-IsValid,
  track_overwrite-IsValid, track_remove-IsValid, notify_access-IsValid, remove_expired-IsValid,
  delete_if_expired-IsValid,
}
use redis_course.Storage.Store.Capacity.Evicts.{Evicts, evict_locked-Evicts}
use redis_course.Storage.Store.Strings.{
  insert_record, overwrite_record, deadline, store_set, store_get, miss, hit, as_string,
  store_delete, expire_at, store_expire, store_ttl, store_exists, incr_live, incr_new, store_incr,
}

pub lookup-remove_expired :
    {P : EvictionPolicy} {Z : SortedSets} (key : Bytes) (r : Record Z) (s : Store P Z)
    → lookup key (remove_expired key r s).records ≡ none
unfolding remove_expired track_remove drop_key shrink_memory notify_remove
lookup-remove_expired key r s = lookup-delete key key s.records ∙ rw (same_refl key) refl

module _ {P : EvictionPolicy} (L : Laws P) {Z : SortedSets} (K : SetLaws Z) where
  pub insert_record-IsValid :
      (draws : ℕ → ℕ) (key : Bytes) (r : Record Z) (s : Store P Z)
      → lookup key s.records ≡ none
      → ValueOk K r.value
      → IsValid L K s
      → IsValid L K (insert_record draws key r s)
  unfolding insert_record Evicts IsValid
  insert_record-IsValid draws key r s h ok v =
      (evict_locked-Evicts L K draws (track_insert key r (put key r s))
        (track_insert-IsValid L K key r s h ok v)).0

  pub overwrite_record-IsValid :
      (draws : ℕ → ℕ) (key : Bytes) (previous r : Record Z) (s : Store P Z)
      → lookup key s.records ≡ some previous
      → ValueOk K r.value
      → IsValid L K s
      → IsValid L K (overwrite_record draws key previous r s)
  unfolding overwrite_record Evicts
  overwrite_record-IsValid draws key previous r s h ok v =
      (evict_locked-Evicts L K draws (track_overwrite key previous r (put key r s))
        (track_overwrite-IsValid L K key previous r s h ok v)).0

  -- `Set` keeps a store valid, for every policy that keeps the interface's promises.
  pub store_set-IsValid :
      (now later : ℕ) (draws : ℕ → ℕ) (key value : Bytes) (ttl : ℤ) (s : Store P Z)
      → IsValid L K s
      → IsValid L K (store_set now later draws key value ttl s)
  unfolding store_set ValueOk
  store_set-IsValid now later draws key value ttl s v =
      let r : Record Z = record {
        type = string_type;
        value = string value;
        ttl = deadline now ttl;
      } in
      elim (Option-cases (lookup key s.records)) [
        | inl e ↦ rw (e, store_set) (insert_record-IsValid draws key r s e tt v)
        | inr (q, e) ↦ elim (Bool-cases (is_expired later q)) [
          | inl x ↦
              rw (e, x, store_set)
                (insert_record-IsValid draws key r (remove_expired key q s)
                  (lookup-remove_expired key q s) tt (remove_expired-IsValid L K key q s e v))
          | inr x ↦ rw (e, x, store_set) (overwrite_record-IsValid draws key q r s e tt v)
        ]
      ]

  -- `Get` keeps a store valid, for every policy that keeps the interface's promises.
  pub store_get-IsValid :
      (now later : ℕ) (key : Bytes) (s : Store P Z)
      → IsValid L K s
      → IsValid L K (store_get now later key s).0
  unfolding store_get miss hit IsValid notify_access
  store_get-IsValid now later key s v = elim (Option-cases (lookup key s.records)) [
    | inl e ↦ rw (e, store_get) v
    | inr (r, e) ↦ elim (Bool-cases (is_expired now r)) [
      | inl x ↦ rw (e, x, store_get) (delete_if_expired-IsValid L K later key s v)
      | inr x ↦ elim (Option-cases (as_string r.value)) [
        | inl n ↦ rw (e, x, n, store_get) v
        | inr (t, n) ↦ rw (e, x, n, store_get) (notify_access-IsValid L K key r s e v)
      ]
    ]
  ]

  -- `Delete` keeps a store valid, for every policy that keeps the interface's promises.
  pub store_delete-IsValid :
      (keys : List Bytes) (s : Store P Z) → IsValid L K s → IsValid L K (store_delete keys s).0
  unfolding store_delete
  store_delete-IsValid [] s v = v
  store_delete-IsValid (key ∷ keys) s v = elim (Option-cases (lookup key s.records)) [
    | inl e ↦ rw (e, store_delete) (store_delete-IsValid keys s v)
    | inr (r, e) ↦
        rw (e, store_delete)
          (store_delete-IsValid keys (track_remove key r (drop_key key s))
            (track_remove-IsValid L K key r s e v))
  ]

  expire_at-IsValid :
      (t later : ℕ) (key : Bytes) (s : Store P Z)
      → IsValid L K s
      → IsValid L K (expire_at t later key s).0
  unfolding expire_at put notify_access record_size
  expire_at-IsValid t later key s v = elim (Option-cases (lookup key s.records)) [
    | inl e ↦ rw (e, expire_at) v
    | inr (r, e) ↦ elim (Bool-cases (is_expired later r)) [
      | inl x ↦ rw (e, x, expire_at) (remove_expired-IsValid L K key r s e v)
      | inr x ↦
          rw (e, x, expire_at)
            (let q : Record Z = record r { ttl = some t } in
              notify_access-IsValid L K key q (put key q s)
                (lookup-insert key key q s.records ∙ rw (same_refl key) refl)
                (reput-IsValid L K key r q s s.used_memory e (value-ValueOk L K s key r v e) v
                  (λ h. used-IsValid L K s v ∙ ap (λ (n : ℕ). n % 2 ^ 64) (omega arith))))
    ]
  ]

  -- `Expire` keeps a store valid, for every policy that keeps the interface's promises.
  pub store_expire-IsValid :
      (now later : ℕ) (key : Bytes) (ttl : ℤ) (s : Store P Z)
      → IsValid L K s
      → IsValid L K (store_expire now later key ttl s).0
  unfolding store_expire
  store_expire-IsValid now later key ttl s v = elim (Option-cases (deadline now ttl)) [
    | inl e ↦ rw (e, store_expire) (store_delete-IsValid (key ∷ []) s v)
    | inr (t, e) ↦ rw (e, store_expire) (expire_at-IsValid t later key s v)
  ]

  -- `TTL` keeps a store valid, for every policy that keeps the interface's promises.
  pub store_ttl-IsValid :
      (now then_ later : ℕ) (key : Bytes) (s : Store P Z)
      → IsValid L K s
      → IsValid L K (store_ttl now then_ later key s).0
  unfolding store_ttl
  store_ttl-IsValid now then_ later key s v = elim (Option-cases (lookup key s.records)) [
    | inl e ↦ rw (e, store_ttl) v
    | inr (r, e) ↦ elim (Bool-cases (is_expired now r)) [
      | inl x ↦ rw (e, x, store_ttl) (delete_if_expired-IsValid L K later key s v)
      | inr x ↦ elim (Option-cases r.ttl) [
        | inl n ↦ rw (e, x, n, store_ttl) v
        | inr (t, n) ↦ elim (Bool-cases (ltb then_ t)) [
          | inl y ↦ rw (e, x, n, y, store_ttl) v
          | inr y ↦ rw (e, x, n, y, store_ttl) (delete_if_expired-IsValid L K later key s v)
        ]
      ]
    ]
  ]

  -- `Exists` keeps a store valid, for every policy that keeps the interface's promises.
  pub store_exists-IsValid :
      (keys : List (ℕ × ℕ × Bytes)) (s : Store P Z)
      → IsValid L K s
      → IsValid L K (store_exists keys s).0
  unfolding store_exists
  store_exists-IsValid [] s v = v
  store_exists-IsValid ((now, later, key) ∷ keys) s v = elim (Option-cases (lookup key s.records)) [
    | inl e ↦ rw (e, store_exists) (store_exists-IsValid keys s v)
    | inr (r, e) ↦ elim (Bool-cases (is_expired now r)) [
      | inl x ↦
          rw (e, x, store_exists)
            (store_exists-IsValid keys (delete_if_expired later key s)
              (delete_if_expired-IsValid L K later key s v))
      | inr x ↦ rw (e, x, store_exists) (store_exists-IsValid keys s v)
    ]
  ]

  incr_live-IsValid :
      (draws : ℕ → ℕ) (key : Bytes) (r : Record Z) (s : Store P Z)
      → lookup key s.records ≡ some r
      → IsValid L K s
      → IsValid L K (incr_live draws key r s).0
  unfolding incr_live ValueOk
  incr_live-IsValid draws key r s e v = elim (Option-cases (as_string r.value)) [
    | inl n ↦ rw (n, incr_live) v
    | inr (text, n) ↦ elim (Option-cases (parse_int text)) [
      | inl p ↦ rw (n, p, incr_live) v
      | inr (z, p) ↦ rw (n, p, incr_live) (overwrite_record-IsValid draws key r _ s e tt v)
    ]
  ]

  -- `Incr` keeps a store valid, for every policy that keeps the interface's promises.
  pub store_incr-IsValid :
      (now : ℕ) (draws : ℕ → ℕ) (key : Bytes) (s : Store P Z)
      → IsValid L K s
      → IsValid L K (store_incr now draws key s).0
  unfolding store_incr incr_new ValueOk
  store_incr-IsValid now draws key s v = elim (Option-cases (lookup key s.records)) [
    | inl e ↦ rw (e, store_incr, incr_new) (insert_record-IsValid draws key _ s e tt v)
    | inr (r, e) ↦ elim (Bool-cases (is_expired now r)) [
      | inl x ↦
          rw (e, x, store_incr, incr_new)
            (insert_record-IsValid draws key _ (remove_expired key r s)
              (lookup-remove_expired key r s) tt (remove_expired-IsValid L K key r s e v))
      | inr x ↦ rw (e, x, store_incr) (incr_live-IsValid draws key r s e v)
    ]
  ]
