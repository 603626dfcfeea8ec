-- ===== src/Storage/Store/Filters.antt =====
-- The operations on Bloom filters of internal/storage/bloom_filter.go. A record and the caller share
-- a filter: a change of it shows in the store while the record is there, and not once it is evicted.
pub mod Keeps
use redis_course.Base.{
  ℕ, Bool, true, false, Option, none, some, List, [], ◌∷◌, map, Bytes, if◌then◌else◌,
}
use redis_course.Base.GoMap.{lookup}
use redis_course.Base.Made.{made, invalid, too_large}
use redis_course.Storage.Float64.{Float64, FloatMath}
use redis_course.Storage.BloomFilter.{
  BloomFilter, default_bloom_filter_capacity, size, new_bloom_filter, exists, add,
}
use redis_course.Storage.Eviction.{EvictionPolicy}
use redis_course.Storage.Store.{
  SortedSets, Value, string, simple_set, sorted_set, count_min_sketch, bloom_filter, ValueType,
  string_type, simple_set_type, sorted_set_type, count_min_sketch_type, bloom_filter_type, Record,
  Store, put, notify_access, remove_expired, is_expired,
}
use redis_course.Storage.Store.Strings.{insert_record}

-- ErrWrongType, ErrBloomFilterKeyNotFound, ErrBloomFilterIncompatible and ErrKeyExists, and the panic
-- of `make`.
pub data FilterError : Type 0 where
  wrong_type : FilterError
  key_not_found : FilterError
  incompatible : FilterError
  key_exists : FilterError
  make_panics : FilterError

pub data FilterReply (A : Type 0) : Type 0 where
  ok : A → FilterReply A
  err : FilterError → FilterReply A

pub record BloomFilterInfo : Type 0 where
  pub capacity : ℕ
  pub filter_size : ℕ
  pub hash_count : ℕ
  pub count : ℕ

is_filter_type : ValueType → Bool
is_filter_type string_type = false
is_filter_type simple_set_type = false
is_filter_type sorted_set_type = false
is_filter_type count_min_sketch_type = false
is_filter_type bloom_filter_type = true

module _ {Z : SortedSets} where
  filter_value : Value Z → Option BloomFilter
  filter_value (string s) = none
  filter_value (simple_set s) = none
  filter_value (sorted_set s) = none
  filter_value (count_min_sketch s) = none
  filter_value (bloom_filter f) = some f

  -- The filter of a record that passes both tests.
  unfoldable pub as_filter : Record Z → Option BloomFilter
  unfolding is_filter_type filter_value
  as_filter r = if is_filter_type r.type then filter_value r.value else none

  -- The record of a new filter.
  filter_record : BloomFilter → Record Z
  filter_record f = record { type = bloom_filter_type; value = bloom_filter f; ttl = none }

-- `add` on one item after the other, as `BFMultiAdd` does.
unfoldable pub add_items : List Bytes → BloomFilter → BloomFilter × List Bool
unfolding add
add_items [] f = (f, [])
add_items (item ∷ items) f =
    let (g, added) = add f item in let (h, rest) = add_items items g in (h, added ∷ rest)

module _ {P : EvictionPolicy} {Z : SortedSets} where
  -- `bloomFilterLocked`: `ok none` is a key that is not found.
  unfoldable pub bloom_filter_locked : ℕ → Bytes → Store P Z → FilterReply (Option BloomFilter)
  unfolding is_expired as_filter
  bloom_filter_locked now key s = elim (lookup key s.records) [
    | none ↦ ok none
    | some r ↦
        if is_expired now r
        then ok none
        else elim (as_filter r) [ none ↦ err wrong_type | some f ↦ ok (some f) ]
  ]

  -- The filter as the caller has changed it, in the store.
  unfoldable pub write_filter : Bytes → BloomFilter → Store P Z → Store P Z
  unfolding put
  write_filter key f s = elim (lookup key s.records) [
    | none ↦ s
    | some r ↦ put key (record r { value = bloom_filter f }) s
  ]

  -- `if record, ok := s.data[key]; ok { s.removeExpired(key, record) }`
  unfoldable pub clear_key : Bytes → Store P Z → Store P Z
  unfolding remove_expired
  clear_key key s = elim (lookup key s.records) [ none ↦ s | some r ↦ remove_expired key r s ]

  -- `bloomFilterForAddLocked`, with the default error rate.
  unfoldable pub bloom_filter_for_add :
      FloatMath → Float64 → ℕ → (ℕ → ℕ) → Bytes → Store P Z → Store P Z × FilterReply BloomFilter
  unfolding bloom_filter_locked notify_access clear_key new_bloom_filter insert_record filter_record
  bloom_filter_for_add math rate now draws key s = elim (bloom_filter_locked now key s) [
    | err e ↦ (s, err e)
    | ok (some f) ↦ (notify_access key s, ok f)
    | ok none ↦
        let t = clear_key key s in
        elim (new_bloom_filter math rate default_bloom_filter_capacity) [
          | invalid ↦ (t, err incompatible)
          | too_large ↦ (t, err make_panics)
          | made f ↦ (insert_record draws key (filter_record f) t, ok f)
        ]
  ]

  -- `BFMultiAdd`; `BFAdd` is the case of one item.
  unfoldable pub bf_multi_add :
      FloatMath
      → Float64
      → ℕ
      → (ℕ → ℕ)
      → Bytes
      → List Bytes
      → Store P Z
      → Store P Z × FilterReply (List Bool)
  unfolding bloom_filter_for_add write_filter add_items
  bf_multi_add math rate now draws key items s =
      let (t, reply) = bloom_filter_for_add math rate now draws key s in
      elim reply [
        | err e ↦ (t, err e)
        | ok f ↦ let (g, added) = add_items items f in (write_filter key g t, ok added)
      ]

  -- `BFMultiExists`; `BFExists` is the case of one item.
  unfoldable pub bf_multi_exists :
      ℕ → Bytes → List Bytes → Store P Z → Store P Z × FilterReply (List Bool)
  unfolding bloom_filter_locked notify_access exists
  bf_multi_exists now key items s = elim (bloom_filter_locked now key s) [
    | err e ↦ (s, err e)
    | ok none ↦ (s, ok (map (λ item. false) items))
    | ok (some f) ↦ (notify_access key s, ok (map (λ item. exists f item) items))
  ]

  unfoldable pub bf_info : ℕ → Bytes → Store P Z → Store P Z × FilterReply BloomFilterInfo
  unfolding bloom_filter_locked notify_access size
  bf_info now key s = elim (bloom_filter_locked now key s) [
    | err e ↦ (s, err e)
    | ok none ↦ (s, err key_not_found)
    | ok (some f) ↦ (
      notify_access key s,
      ok (record {
        capacity = f.capacity;
        filter_size = size f;
        hash_count = f.hash_count;
        count = f.count;
      }),
    )
  ]

  -- `BFReserve`
  unfoldable pub bf_reserve :
      FloatMath → ℕ → (ℕ → ℕ) → Bytes → Float64 → ℕ → Store P Z → Store P Z × FilterReply (Unit {0})
  unfolding new_bloom_filter remove_expired is_expired insert_record filter_record
  bf_reserve math now draws key rate capacity s = elim (new_bloom_filter math rate capacity) [
    | invalid ↦ (s, err incompatible)
    | too_large ↦ (s, err make_panics)
    | made f ↦ elim (lookup key s.records) [
      | none ↦ (insert_record draws key (filter_record f) s, ok tt)
      | some r ↦
          if is_expired now r
          then (insert_record draws key (filter_record f) (remove_expired key r s), ok tt)
          else (s, err key_exists)
    ]
  ]
