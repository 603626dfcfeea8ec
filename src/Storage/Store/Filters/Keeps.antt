-- ===== src/Storage/Store/Filters/Keeps.antt =====
-- The store's operations on Bloom filters of internal/storage/bloom_filter.go and the invariant of
-- the store.
use redis_course.Base.{
  ℕ, ◌≡◌, ◌⊎◌, inl, inr, refl, ap, ◌∙◌, arith, Bool, false, Option, none, some, List, [], ◌∷◌,
  Bytes, same_refl, Bool-cases, Option-cases, length, map,
}
use redis_course.Base.GoMap.{lookup, lookup-insert}
use redis_course.Base.Made.{Made-cases, made, invalid, too_large}
use redis_course.Storage.Float64.{Float64, FloatMath}
use redis_course.Storage.BloomFilter.{
  BloomFilter, size, add, exists, new_bloom_filter, default_bloom_filter_capacity,
}
use redis_course.Storage.BloomFilter.Members.{length-add}
use redis_course.Storage.SortedSet.{SetLaws}
use redis_course.Storage.Eviction.{EvictionPolicy, Laws}
use redis_course.Storage.Store.{
  SortedSets, Value, string, simple_set, sorted_set, count_min_sketch, bloom_filter, value_size,
  record_size, Record, Store, notify_access, remove_expired, is_expired,
}
use redis_course.Storage.Store.Valid.{
  ValueOk, IsValid, same_size-IsValid, notify_access-IsValid, remove_expired-IsValid,
}
use redis_course.Storage.Store.Strings.{insert_record}
use redis_course.Storage.Store.Strings.Keeps.{insert_record-IsValid, lookup-remove_expired}
use redis_course.Storage.Store.Strings.Lookup.{Shows, insert_record-Shows}
use redis_course.Storage.Store.Filters.{
  FilterReply, ok, err, incompatible, make_panics, key_not_found, is_filter_type, filter_value,
  as_filter, add_items, filter_record, bloom_filter_locked, write_filter, clear_key,
  bloom_filter_for_add, bf_multi_add, bf_multi_exists, bf_info, bf_reserve,
}

length-add_items :
    (items : List Bytes) (f : BloomFilter) → length (add_items items f).0.bits ≡ length f.bits
unfolding add_items
length-add_items [] f = refl
length-add_items (item ∷ items) f = length-add_items items (add f item).0 ∙ length-add f item

module _ {Z : SortedSets} where
  filter_value-inv : (v : Value Z) (f : BloomFilter) → filter_value v ≡ some f → v ≡ bloom_filter f
  unfolding filter_value
  filter_value-inv (string s) f h = cc
  filter_value-inv (simple_set s) f h = cc
  filter_value-inv (sorted_set s) f h = cc
  filter_value-inv (count_min_sketch s) f h = cc
  filter_value-inv (bloom_filter g) f h = cc

  as_filter-value :
      (r : Record Z) (f : BloomFilter) → as_filter r ≡ some f → r.value ≡ bloom_filter f
  unfolding as_filter
  as_filter-value r f h = elim (Bool-cases (is_filter_type r.type)) [
    | inl e ↦ filter_value-inv r.value f (rw e at h)
    | inr e ↦ cc (rw e at h)
  ]

  filter-size :
      (key : Bytes) (r : Record Z) (f g : BloomFilter)
      → r.value ≡ bloom_filter f
      → length g.bits ≡ length f.bits
      → record_size key (record r { value = bloom_filter g }) ≡ record_size key r
  unfolding record_size value_size size
  filter-size key r f g h e = let s = ap value_size h in omega arith

module _ {P : EvictionPolicy} (L : Laws P) {Z : SortedSets} (K : SetLaws Z) where
  -- The key has the filter, or is not there.
  Holds : Bytes → BloomFilter → Store P Z → Type 0
  Holds key f t =
      (lookup key t.records ≡ none)
      ⊎ ((r : Record Z) × (lookup key t.records ≡ some r) × (r.value ≡ bloom_filter f))

  write_filter-IsValid :
      (key : Bytes) (f g : BloomFilter) (t : Store P Z)
      → Holds key f t
      → length g.bits ≡ length f.bits
      → IsValid L K t
      → IsValid L K (write_filter key g t)
  unfolding write_filter Holds ValueOk
  write_filter-IsValid key f g t h e v = elim h [
    | inl n ↦ rw (n, write_filter) v
    | inr (r, n, q) ↦
        rw (n, write_filter)
          (same_size-IsValid L K key r (record r { value = bloom_filter g }) t n tt
            (filter-size key r f g q e) v)
  ]

  inserted-IsValid :
      (draws : ℕ → ℕ) (key : Bytes) (f : BloomFilter) (s : Store P Z)
      → lookup key s.records ≡ none
      → IsValid L K s
      → IsValid L K (insert_record draws key (filter_record f) s)
        × Holds key f (insert_record draws key (filter_record f) s)
  unfolding filter_record Holds Shows ValueOk
  inserted-IsValid draws key f s e v = (
    insert_record-IsValid L K draws key (filter_record f) s e tt v,
    elim (insert_record-Shows L K draws key (filter_record f) s e tt v key) [
      | inl h ↦ inr (
        filter_record f,
        h ∙ (lookup-insert key key (filter_record f) s.records ∙ rw (same_refl key) refl),
        refl,
      )
      | inr h ↦ inl h
    ],
  )

  clear_key-IsValid :
      (key : Bytes) (s : Store P Z)
      → IsValid L K s
      → (lookup key (clear_key key s).records ≡ none) × IsValid L K (clear_key key s)
  unfolding clear_key
  clear_key-IsValid key s v = elim (Option-cases (lookup key s.records)) [
    | inl e ↦ rw (e, clear_key) (e, v)
    | inr (r, e) ↦
        rw (e, clear_key) (lookup-remove_expired key r s, remove_expired-IsValid L K key r s e v)
  ]

  -- What `bloomFilterLocked` finds.
  Found : Bytes → Store P Z → FilterReply (Option BloomFilter) → Type 0
  Found key s (err e) = Unit
  Found key s (ok none) = Unit
  Found key s (ok (some f)) =
      (r : Record Z) × (lookup key s.records ≡ some r) × (r.value ≡ bloom_filter f)

  locked-Found :
      (now : ℕ) (key : Bytes) (s : Store P Z) → Found key s (bloom_filter_locked now key s)
  unfolding bloom_filter_locked Found
  locked-Found now key s = elim (Option-cases (lookup key s.records)) [
    | inl e ↦ rw (e, bloom_filter_locked) tt
    | inr (r, e) ↦ elim (Bool-cases (is_expired now r)) [
      | inl x ↦ rw (e, x, bloom_filter_locked) tt
      | inr x ↦ elim (Option-cases (as_filter r)) [
        | inl n ↦ rw (e, x, n, bloom_filter_locked) tt
        | inr (f, n) ↦ rw (e, x, n, bloom_filter_locked) (r, e, as_filter-value r f n)
      ]
    ]
  ]

  -- `bloomFilterForAddLocked` leaves a valid store; the filter that it returns is the key's, or the
  -- key was evicted.
  Ready : Bytes → Store P Z × FilterReply BloomFilter → Type 0
  Ready key (t, err e) = IsValid L K t
  Ready key (t, ok f) = IsValid L K t × Holds key f t

  for_add-Ready :
      (math : FloatMath) (rate : Float64) (now : ℕ) (draws : ℕ → ℕ) (key : Bytes) (s : Store P Z)
      → IsValid L K s
      → Ready key (bloom_filter_for_add math rate now draws key s)
  unfolding bloom_filter_for_add Ready Found Holds notify_access
  for_add-Ready math rate now draws key s v =
      go (bloom_filter_locked now key s) (locked-Found now key s)
    where
      go :
          (reply : FilterReply (Option BloomFilter))
          → Found key s reply
          → Ready key (elim reply [
            | err e ↦ (s, err e)
            | ok (some f) ↦ (notify_access key s, ok f)
            | ok none ↦ elim (new_bloom_filter math rate default_bloom_filter_capacity) [
              | invalid ↦ (clear_key key s, err incompatible)
              | too_large ↦ (clear_key key s, err make_panics)
              | made f ↦ (insert_record draws key (filter_record f) (clear_key key s), ok f)
            ]
          ])
      go (err e) h = v
      go (ok (some f)) (r, e, q) = (notify_access-IsValid L K key r s e v, inr (r, e, q))
      go (ok none) h =
          let (n, w) = clear_key-IsValid key s v in
          elim (Made-cases (new_bloom_filter math rate default_bloom_filter_capacity)) [
            | inl e ↦ rw e w
            | inr (inl e) ↦ rw e w
            | inr (inr (f, e)) ↦ rw e (inserted-IsValid draws key f (clear_key key s) n w)
          ]

  -- `BFMultiAdd`, and so `BFAdd`, keeps a store valid.
  pub bf_multi_add-IsValid :
      (math : FloatMath) (rate : Float64) (now : ℕ) (draws : ℕ → ℕ) (key : Bytes)
      (items : List Bytes) (s : Store P Z)
      → IsValid L K s
      → IsValid L K (bf_multi_add math rate now draws key items s).0
  unfolding bf_multi_add Ready
  bf_multi_add-IsValid math rate now draws key items s v =
      go (bloom_filter_for_add math rate now draws key s)
        (for_add-Ready math rate now draws key s v)
    where
      go :
          (p : Store P Z × FilterReply BloomFilter)
          → Ready key p
          → IsValid L K
              (elim p.1 as (λ x. Store P Z × FilterReply (List Bool)) [
                | err e ↦ (p.0, err e)
                | ok f ↦ (write_filter key (add_items items f).0 p.0, ok (add_items items f).1)
              ]).0
      go (t, err e) w = w
      go (t, ok f) (w, h) =
          write_filter-IsValid key f (add_items items f).0 t h (length-add_items items f) w

  -- A reader of a filter: it notifies the policy when it finds the filter.
  read-IsValid :
      {A : Type 0} (now : ℕ) (key : Bytes) (s : Store P Z)
      → IsValid L K s
      → (missing : FilterReply A) (answer : BloomFilter → FilterReply A)
      → IsValid L K
          (elim (bloom_filter_locked now key s) as (λ x. Store P Z × FilterReply A) [
            | err e ↦ (s, err e)
            | ok none ↦ (s, missing)
            | ok (some f) ↦ (notify_access key s, answer f)
          ]).0
  unfolding Found
  read-IsValid {A} now key s v missing answer =
      go (bloom_filter_locked now key s) (locked-Found now key s)
    where
      go :
          (reply : FilterReply (Option BloomFilter))
          → Found key s reply
          → IsValid L K
              (elim reply as (λ x. Store P Z × FilterReply A) [
                | err e ↦ (s, err e)
                | ok none ↦ (s, missing)
                | ok (some f) ↦ (notify_access key s, answer f)
              ]).0
      go (err e) h = v
      go (ok none) h = v
      go (ok (some f)) (r, e, q) = notify_access-IsValid L K key r s e v

  -- `BFMultiExists`, and so `BFExists`, keeps a store valid.
  pub bf_multi_exists-IsValid :
      (now : ℕ) (key : Bytes) (items : List Bytes) (s : Store P Z)
      → IsValid L K s
      → IsValid L K (bf_multi_exists now key items s).0
  unfolding bf_multi_exists
  bf_multi_exists-IsValid now key items s v =
      read-IsValid now key s v (ok (map (λ item. false) items))
        (λ f. ok (map (λ item. exists f item) items))

  -- `BFInfo` keeps a store valid.
  pub bf_info-IsValid :
      (now : ℕ) (key : Bytes) (s : Store P Z) → IsValid L K s → IsValid L K (bf_info now key s).0
  unfolding bf_info
  bf_info-IsValid now key s v = read-IsValid now key s v (err key_not_found) (λ f. ok (record {
    capacity = f.capacity;
    filter_size = size f;
    hash_count = f.hash_count;
    count = f.count;
  }))

  -- `BFReserve` keeps a store valid.
  pub bf_reserve-IsValid :
      (math : FloatMath) (now : ℕ) (draws : ℕ → ℕ) (key : Bytes) (rate : Float64) (capacity : ℕ)
      (s : Store P Z)
      → IsValid L K s
      → IsValid L K (bf_reserve math now draws key rate capacity s).0
  unfolding bf_reserve
  bf_reserve-IsValid math now draws key rate capacity s v =
      elim (Made-cases (new_bloom_filter math rate capacity)) [
        | inl n ↦ rw (n, bf_reserve) v
        | inr (inl n) ↦ rw (n, bf_reserve) v
        | inr (inr (f, n)) ↦ elim (Option-cases (lookup key s.records)) [
          | inl e ↦ rw (n, e, bf_reserve) (inserted-IsValid draws key f s e v).0
          | inr (r, e) ↦ elim (Bool-cases (is_expired now r)) [
            | inl x ↦
                rw (n, e, x, bf_reserve)
                  (inserted-IsValid draws key f (remove_expired key r s)
                    (lookup-remove_expired key r s) (remove_expired-IsValid L K key r s e v)).0
            | inr x ↦ rw (n, e, x, bf_reserve) v
          ]
        ]
      ]
