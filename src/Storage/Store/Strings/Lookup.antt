-- ===== src/Storage/Store/Strings/Lookup.antt =====
-- What a write by `Set` of internal/storage/string_value.go shows to later reads.
use redis_course.Base.{
  ℕ, ◌≡◌, ◌≢◌, ◌⊎◌, inl, inr, refl, ◌∙◌, zero, suc, true, length, false, none, some, Bytes, same,
  same_refl, if◌then◌else◌, Bool-cases, Option-cases,
}
use redis_course.Base.Int.{ℤ}
use redis_course.Base.GoMap.{GoMap, lookup, insert, lookup-delete, lookup-insert}
use redis_course.Storage.SortedSet.{SetLaws}
use redis_course.Storage.Eviction.{EvictionPolicy, Laws}
use redis_course.Storage.Store.{
  SortedSets, Record, Store, put, drop_key, track_insert, track_overwrite, track_remove,
  notify_access, notify_insert, notify_remove, grow_memory, shrink_memory, remove_expired,
  is_expired, expired_at, string_type, string,
}
use redis_course.Storage.Store.Valid.{
  ValueOk, IsValid, track_insert-IsValid, track_overwrite-IsValid, remove_expired-IsValid,
}
use redis_course.Storage.Store.Capacity.{evict_loop, evict_locked, over_capacity}
use redis_course.Storage.Store.Capacity.Evicts.{Evicts, Keeps, evict_locked-Evicts}
use redis_course.Storage.Store.Strings.{
  insert_record, overwrite_record, deadline, store_set, store_get, as_string,
}
use redis_course.Storage.Store.Strings.Keeps.{lookup-remove_expired}

module _ {P : EvictionPolicy} (L : Laws P) {Z : SortedSets} (K : SetLaws Z) where
  -- The records of `t` are those of `m`, less evicted ones.
  unfoldable pub Shows : GoMap (Record Z) → Store P Z → Type 0
  Shows m t = (j : Bytes) → (lookup j t.records ≡ lookup j m) ⊎ (lookup j t.records ≡ none)

  pub insert_record-Shows :
      (draws : ℕ → ℕ) (key : Bytes) (r : Record Z) (s : Store P Z)
      → lookup key s.records ≡ none
      → ValueOk K r.value
      → IsValid L K s
      → Shows (insert key r s.records) (insert_record draws key r s)
  unfolding insert_record Evicts Keeps Shows track_insert put grow_memory notify_insert
  insert_record-Shows draws key r s h ok v =
      (evict_locked-Evicts L K draws (track_insert key r (put key r s))
        (track_insert-IsValid L K key r s h ok v)).2

  pub overwrite_record-Shows :
      (draws : ℕ → ℕ) (key : Bytes) (previous r : Record Z) (s : Store P Z)
      → lookup key s.records ≡ some previous
      → ValueOk K r.value
      → IsValid L K s
      → Shows (insert key r s.records) (overwrite_record draws key previous r s)
  unfolding overwrite_record Evicts Keeps Shows track_overwrite put notify_access
  overwrite_record-Shows draws key previous r s h ok v =
      (evict_locked-Evicts L K draws (track_overwrite key previous r (put key r s))
        (track_overwrite-IsValid L K key previous r s h ok v)).2

  -- From a store where `key` is not, or is replaced, to the one before it.
  pub written :
      (key j : Bytes) (r : Record Z) (m : GoMap (Record Z)) (t : Store P Z)
      → Shows (insert key r m) t
      → (lookup j t.records ≡ (if same key j then some r else lookup j m))
        ⊎ (lookup j t.records ≡ none)
  unfolding Shows
  written key j r m t f = elim (f j) [ inl e ↦ inl (e ∙ lookup-insert key j r m) | inr e ↦ inr e ]

  without :
      (key j : Bytes) (r : Record Z) (q : Record Z) (s : Store P Z)
      → (if same key j then some r else lookup j (remove_expired key q s).records)
        ≡ (if same key j then some r else lookup j s.records)
  unfolding remove_expired track_remove drop_key shrink_memory notify_remove
  without key j r q s = elim (Bool-cases (same key j)) [
    | inl e ↦ rw e refl
    | inr e ↦ rw e (lookup-delete key j s.records ∙ rw e refl)
  ]

  evict_loop-idle :
      (draws : ℕ → ℕ) (n : ℕ) (s : Store P Z)
      → over_capacity s ≡ false
      → evict_loop draws n s ≡ (s, 0)
  unfolding evict_loop
  evict_loop-idle draws zero s e = refl
  evict_loop-idle draws (suc n) s e = rw (e, evict_loop) refl

  -- Records go only from a store that is over its limits.
  evicted :
      (draws : ℕ → ℕ) (full : Store P Z)
      → IsValid L K full
      → (j : Bytes)
      → (lookup j (evict_locked draws full).0.records ≡ lookup j full.records)
        ⊎ ((lookup j (evict_locked draws full).0.records ≡ none) × (over_capacity full ≡ true))
  unfolding evict_locked Evicts Keeps
  evicted draws full v j = elim (Bool-cases (over_capacity full)) [
    | inr e ↦ inl (rw (evict_loop-idle draws (length full.records) full e) refl)
    | inl e ↦ elim ((evict_locked-Evicts L K draws full v).2 j) [
      | inl h ↦ inl h
      | inr h ↦ inr (h, e)
    ]
  ]

  -- `t` is `s` with the record written to the key, after the eviction loop. Before the loop the store
  -- is `full`, valid and under the limits of `s`, where the key has the record and each other key
  -- what it had; a record of `full` is gone in `t` only if `full` is over its limits.
  abbrev pub Writes : (ℕ → ℕ) → Bytes → Record Z → Store P Z → Store P Z → Type 0
  Writes draws key r s t =
      (full : Store P Z) × IsValid L K full
      × (full.max_entries ≡ s.max_entries)
      × (full.max_memory ≡ s.max_memory)
      × (t ≡ (evict_locked draws full).0)
      × ((j : Bytes) → lookup j full.records ≡ (if same key j then some r else lookup j s.records))
      × ((j : Bytes)
          → (lookup j t.records ≡ lookup j full.records)
            ⊎ ((lookup j t.records ≡ none) × (over_capacity full ≡ true)))

  insert_record-Writes :
      (draws : ℕ → ℕ) (key : Bytes) (r : Record Z) (s : Store P Z)
      → lookup key s.records ≡ none
      → ValueOk K r.value
      → IsValid L K s
      → Writes draws key r s (insert_record draws key r s)
  unfolding insert_record track_insert put grow_memory notify_insert
  insert_record-Writes draws key r s h ok v =
      let full = track_insert key r (put key r s) in
      let w = track_insert-IsValid L K key r s h ok v in
      (full, w, refl, refl, refl, λ j. lookup-insert key j r s.records, evicted draws full w)

  overwrite_record-Writes :
      (draws : ℕ → ℕ) (key : Bytes) (previous r : Record Z) (s : Store P Z)
      → lookup key s.records ≡ some previous
      → ValueOk K r.value
      → IsValid L K s
      → Writes draws key r s (overwrite_record draws key previous r s)
  unfolding overwrite_record track_overwrite put notify_access
  overwrite_record-Writes draws key previous r s h ok v =
      let full = track_overwrite key previous r (put key r s) in
      let w = track_overwrite-IsValid L K key previous r s h ok v in
      (full, w, refl, refl, refl, λ j. lookup-insert key j r s.records, evicted draws full w)

  -- A write to the key shows the same whether an expired record of it was removed before.
  Writes-without :
      (draws : ℕ → ℕ) (key : Bytes) (r q : Record Z) (s t : Store P Z)
      → Writes draws key r (remove_expired key q s) t
      → Writes draws key r s t
  unfolding remove_expired track_remove drop_key shrink_memory notify_remove
  Writes-without draws key r q s t (full, v, a, b, e, f, g) =
      (full, v, a, b, e, λ j. f j ∙ without key j r q s, g)

  -- `Set` on a valid store writes: there is a valid store with the new record, its value and its
  -- deadline, at the key, and every other key as before, an expired record of the key being replaced;
  -- `Set` returns what the eviction loop makes of that store, and a record of it is gone only if it is
  -- over its limits.
  pub store_set-Writes :
      (now later : ℕ) (draws : ℕ → ℕ) (key value : Bytes) (ttl : ℤ) (s : Store P Z)
      → IsValid L K s
      → Writes draws key
          (record { type = string_type; value = string value; ttl = deadline now ttl })
          s
          (store_set now later draws key value ttl s)
  unfolding store_set ValueOk
  store_set-Writes now later draws key value ttl s v =
      let r : Record Z = record {
        type = string_type;
        value = string value;
        ttl = deadline now ttl;
      } in
      elim (Option-cases (lookup key s.records)) [
        | inl e ↦ rw (e, store_set) (insert_record-Writes draws key r s e tt v)
        | inr (q, e) ↦ elim (Bool-cases (is_expired later q)) [
          | inl x ↦
              let u = remove_expired key q s in
              rw (e, x, store_set)
                (Writes-without draws key r q s (insert_record draws key r u) (
                  insert_record-Writes draws key r u (lookup-remove_expired key q s) tt
                    (remove_expired-IsValid L K key q s e v)))
          | inr x ↦ rw (e, x, store_set) (overwrite_record-Writes draws key q r s e tt v)
        ]
      ]

  -- `Get` after `Set` on a valid store returns the value that was set, if the new record was not
  -- evicted at once and its deadline is not over at the time of the read.
  pub get-after_set :
      (now later read again : ℕ) (draws : ℕ → ℕ) (key value : Bytes) (ttl : ℤ) (s : Store P Z)
      → IsValid L K s
      → lookup key (store_set now later draws key value ttl s).records ≢ none
      → expired_at (deadline now ttl) read ≡ false
      → (store_get read again key (store_set now later draws key value ttl s)).1 ≡ some value
  unfolding store_get is_expired as_string
  get-after_set now later read again draws key value ttl s v stored live =
      let (full, _, _, _, _, f, g) = store_set-Writes now later draws key value ttl s v in
      elim (g key) [
        | inl e ↦ let w = rw (same_refl key) at (e ∙ f key) in rw (w, store_get) (rw live refl)
        | inr (e, _) ↦ absurd (stored e)
      ]
