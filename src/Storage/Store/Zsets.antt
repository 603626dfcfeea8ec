-- ===== src/Storage/Store/Zsets.antt =====
-- The store's operations on sorted sets, internal/storage/sorted_set_value.go. `ZAdd` takes its
-- members in the order in which Go ranges over its map. A record and the caller share a sorted set:
-- the record with the changed set is put back.
pub mod Keeps
use redis_course.Base.{
  ℕ, zero, suc, ◌+◌, Bool, true, false, Option, none, some, List, [], ◌∷◌, Bytes, ◌==◌,
  if◌then◌else◌,
}
use redis_course.Base.GoMap.{GoMap, lookup}
use redis_course.Base.Int.{ℤ}
use redis_course.Storage.Float64.{Float64}
use redis_course.Storage.SortedSet.{sorted_set_member_size}
use redis_course.Storage.Eviction.{EvictionPolicy}
use redis_course.Storage.Store.{
  SortedSets, Value, string, simple_set, sorted_set, count_min_sketch, bloom_filter, ValueType,
  string_type, simple_set_type, sorted_set_type, count_min_sketch_type, bloom_filter_type, Record,
  Store, track_remove, put, drop_key, notify_access, remove_expired, is_expired, grow_memory,
  shrink_memory,
}
use redis_course.Storage.Store.Capacity.{evict_locked}
use redis_course.Storage.Store.Strings.{Reply, ok, err, wrong_type, insert_record}

pub is_sorted_set_type : ValueType → Bool
is_sorted_set_type string_type = false
is_sorted_set_type simple_set_type = false
is_sorted_set_type sorted_set_type = true
is_sorted_set_type count_min_sketch_type = false
is_sorted_set_type bloom_filter_type = false

module _ {Z : SortedSets} where
  -- `record.Value.(*SortedSet)`
  pub sorted_set_value : Value Z → Option Z.SortedSet
  sorted_set_value (string s) = none
  sorted_set_value (simple_set s) = none
  sorted_set_value (sorted_set s) = some s
  sorted_set_value (count_min_sketch s) = none
  sorted_set_value (bloom_filter f) = none

  -- The sorted set of a record that passes both tests.
  unfoldable pub as_sorted_set : Record Z → Option Z.SortedSet
  unfolding is_sorted_set_type sorted_set_value
  as_sorted_set r = if is_sorted_set_type r.type then sorted_set_value r.value else none

module _ (Z : SortedSets) where
  -- The loop of `ZAdd`: the set, the number of new members and the bytes counted for them.
  unfoldable pub add_scores : GoMap Float64 → Z.SortedSet → Z.SortedSet × ℕ × ℕ
  unfolding sorted_set_member_size
  add_scores [] set = (set, 0, 0)
  add_scores ((m, x) ∷ ms) set =
      let (next, new) = Z.add m x set in
      let (after, added, memory) = add_scores ms next in
      (
        after,
        if new then suc added else added,
        if new then memory + sorted_set_member_size m else memory,
      )

  -- The loop of `ZRem`.
  unfoldable pub remove_scores : List Bytes → Z.SortedSet → Z.SortedSet × ℕ × ℕ
  unfolding sorted_set_member_size
  remove_scores [] set = (set, 0, 0)
  remove_scores (m ∷ ms) set =
      let (next, gone) = Z.remove m set in
      let (after, removed, memory) = remove_scores ms next in
      (
        after,
        if gone then suc removed else removed,
        if gone then memory + sorted_set_member_size m else memory,
      )

module _ {P : EvictionPolicy} {Z : SortedSets} where
  zadd_new : (ℕ → ℕ) → Bytes → GoMap Float64 → Store P Z → Store P Z × Reply ℕ
  unfolding add_scores insert_record
  zadd_new draws key members s =
      let (set, added, _) = add_scores Z members (Z.new_sorted_set s.sorted_set_type) in
      (
        insert_record draws key
            (record { type = sorted_set_type; value = sorted_set set; ttl = none }) s,
        ok added,
      )

  zadd_live : (ℕ → ℕ) → Bytes → GoMap Float64 → Record Z → Store P Z → Store P Z × Reply ℕ
  unfolding as_sorted_set add_scores put grow_memory notify_access evict_locked
  zadd_live draws key members r s = elim (as_sorted_set r) [
    | none ↦ (s, err wrong_type)
    | some set ↦
        let (after, added, memory) = add_scores Z members set in
        let t = put key (record r { value = sorted_set after }) s in
        ((evict_locked draws (notify_access key (grow_memory memory t))).0, ok added)
  ]

  unfoldable pub store_zadd : ℕ → (ℕ → ℕ) → Bytes → GoMap Float64 → Store P Z → Store P Z × Reply ℕ
  unfolding is_expired remove_expired zadd_new zadd_live
  store_zadd now draws key members s = elim (lookup key s.records) [
    | none ↦ zadd_new draws key members s
    | some r ↦
        if is_expired now r
        then zadd_new draws key members (remove_expired key r s)
        else zadd_live draws key members r s
  ]

  zrem_live : Bytes → List Bytes → Record Z → Store P Z → Store P Z × Reply ℕ
  unfolding as_sorted_set remove_scores put shrink_memory drop_key track_remove notify_access
  zrem_live key members r s = elim (as_sorted_set r) [
    | none ↦ (s, err wrong_type)
    | some set ↦
        let (after, removed, memory) = remove_scores Z members set in
        let rest = record r { value = sorted_set after } in
        let t = shrink_memory memory (put key rest s) in
        if Z.len after == 0
        then (track_remove key rest (drop_key key t), ok removed)
        else (notify_access key t, ok removed)
  ]

  unfoldable pub store_zrem : ℕ → Bytes → List Bytes → Store P Z → Store P Z × Reply ℕ
  unfolding is_expired remove_expired zrem_live
  store_zrem now key members s = elim (lookup key s.records) [
    | none ↦ (s, ok 0)
    | some r ↦
        if is_expired now r then (remove_expired key r s, ok 0) else zrem_live key members r s
  ]

  -- `sortedSetLocked`: `ok none` is a key that is not found.
  unfoldable pub sorted_set_locked : ℕ → Bytes → Store P Z → Reply (Option Z.SortedSet)
  unfolding is_expired as_sorted_set
  sorted_set_locked now key s = elim (lookup key s.records) [
    | none ↦ ok none
    | some r ↦
        if is_expired now r
        then ok none
        else elim (as_sorted_set r) [ none ↦ err wrong_type | some set ↦ ok (some set) ]
  ]

  -- What `ZScore`, `ZRank` and `ZRange` share: their answer for a sorted set, and for a missing key.
  unfoldable pub read_sorted_set :
      {A : Type 0} → ℕ → A → (Z.SortedSet → A) → Bytes → Store P Z → Store P Z × Reply A
  unfolding sorted_set_locked notify_access
  read_sorted_set now missing answer key s = elim (sorted_set_locked now key s) [
    | err e ↦ (s, err e)
    | ok none ↦ (s, ok missing)
    | ok (some set) ↦ (notify_access key s, ok (answer set))
  ]

  unfoldable pub store_zscore : ℕ → Bytes → Bytes → Store P Z → Store P Z × Reply (Option Float64)
  unfolding read_sorted_set
  store_zscore now key member s =
      read_sorted_set now none (λ set. Z.get_member_score member set) key s

  unfoldable pub store_zrank : ℕ → Bytes → Bytes → Store P Z → Store P Z × Reply (Option ℕ)
  unfolding read_sorted_set
  store_zrank now key member s = read_sorted_set now none (λ set. Z.get_rank member set) key s

  unfoldable pub store_zrange : ℕ → Bytes → ℤ → ℤ → Store P Z → Store P Z × Reply (List Bytes)
  unfolding read_sorted_set
  store_zrange now key start stop s =
      read_sorted_set now [] (λ set. Z.get_range start stop set) key s
