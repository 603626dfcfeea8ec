-- ===== src/Storage/Store/Sets.antt =====
-- internal/storage/simple_set_value.go. The record of a key and the store share a set, so the code
-- changes the set where it stands; here the record with the new set is put back at each such place.
pub mod Keeps
use Prim.Native.Nat.{compare, Ordering}
use redis_course.Base.{
  ℕ, zero, suc, ◌+◌, ◌%◌, ◌^◌, Bool, true, false, Option, none, some, List, [], ◌∷◌, Bytes, codes,
  ltb, ◌==◌, if◌then◌else◌, length,
}
use redis_course.Base.Order.{string_le}
use redis_course.Base.GoMap.{GoMap, lookup, has, insert, delete}
use redis_course.Storage.Eviction.{EvictionPolicy}
use redis_course.Storage.Store.{
  SortedSets, SimpleSet, Value, string, simple_set, sorted_set, count_min_sketch, bloom_filter,
  ValueType, string_type, simple_set_type, sorted_set_type, count_min_sketch_type,
  bloom_filter_type, Record, Store, add64, track_insert, track_remove, put, drop_key, notify_access,
  remove_expired, is_expired, delete_if_expired, grow_memory, shrink_memory,
}
use redis_course.Storage.Store.Capacity.{evict_locked}
use redis_course.Storage.Store.Strings.{Reply, ok, err, wrong_type, insert_record}

-- The loop of `SAdd`: the set, the number of new members and the bytes in them.
unfoldable pub add_members : List Bytes → SimpleSet → SimpleSet × ℕ × ℕ
add_members [] set = (set, 0, 0)
add_members (m ∷ ms) set =
    if has m set
    then add_members ms set
    else let (after, added, memory) = add_members ms (insert m tt set) in
      (after, suc added, memory + length m)

-- The loop of `SRem`.
unfoldable pub remove_members : List Bytes → SimpleSet → SimpleSet × ℕ × ℕ
remove_members [] set = (set, 0, 0)
remove_members (m ∷ ms) set =
    if has m set
    then (let (after, removed, memory) = remove_members ms (delete m set) in
        (after, suc removed, memory + length m))
    else remove_members ms set

-- sort.Strings, as insertion sort: members that are equal are the same.
insert_sorted : Bytes → List Bytes → List Bytes
unfolding string_le
insert_sorted m [] = m ∷ []
insert_sorted m (n ∷ ns) = if string_le m n then m ∷ n ∷ ns else n ∷ insert_sorted m ns

unfoldable pub sorted_members : SimpleSet → List Bytes
unfolding insert_sorted
sorted_members [] = []
sorted_members ((m, _) ∷ set) = insert_sorted m (sorted_members set)

is_simple_set_type : ValueType → Bool
is_simple_set_type string_type = false
is_simple_set_type simple_set_type = true
is_simple_set_type sorted_set_type = false
is_simple_set_type count_min_sketch_type = false
is_simple_set_type bloom_filter_type = false

module _ {Z : SortedSets} where
  -- `record.Value.(map[string]struct{})`
  set_value : Value Z → Option SimpleSet
  set_value (string s) = none
  set_value (simple_set s) = some s
  set_value (sorted_set s) = none
  set_value (count_min_sketch s) = none
  set_value (bloom_filter f) = none

  -- The set of a record that passes both tests.
  unfoldable pub as_set : Record Z → Option SimpleSet
  unfolding is_simple_set_type set_value
  as_set r = if is_simple_set_type r.type then set_value r.value else none

module _ {P : EvictionPolicy} {Z : SortedSets} where
  sadd_new : (ℕ → ℕ) → Bytes → List Bytes → Store P Z → Store P Z × Reply ℕ
  unfolding add_members insert_record
  sadd_new draws key members s =
      let (set, added, _) = add_members members [] in
      (
        insert_record draws key
            (record { type = simple_set_type; value = simple_set set; ttl = none }) s,
        ok added,
      )

  sadd_live : (ℕ → ℕ) → Bytes → List Bytes → Record Z → Store P Z → Store P Z × Reply ℕ
  unfolding as_set add_members put grow_memory notify_access evict_locked
  sadd_live draws key members r s = elim (as_set r) [
    | none ↦ (s, err wrong_type)
    | some set ↦
        let (after, added, memory) = add_members members set in
        let t = put key (record r { value = simple_set after }) s in
        ((evict_locked draws (notify_access key (grow_memory memory t))).0, ok added)
  ]

  unfoldable pub store_sadd : ℕ → (ℕ → ℕ) → Bytes → List Bytes → Store P Z → Store P Z × Reply ℕ
  unfolding is_expired remove_expired sadd_new sadd_live
  store_sadd now draws key members s = elim (lookup key s.records) [
    | none ↦ sadd_new draws key members s
    | some r ↦
        if is_expired now r
        then sadd_new draws key members (remove_expired key r s)
        else sadd_live draws key members r s
  ]

  srem_live : Bytes → List Bytes → Record Z → Store P Z → Store P Z × Reply ℕ
  unfolding as_set remove_members put shrink_memory drop_key track_remove notify_access
  srem_live key members r s = elim (as_set r) [
    | none ↦ (s, err wrong_type)
    | some set ↦
        let (after, removed, memory) = remove_members members set in
        let rest = record r { value = simple_set after } in
        let t = shrink_memory memory (put key rest s) in
        if length after == 0
        then (track_remove key rest (drop_key key t), ok removed)
        else (notify_access key t, ok removed)
  ]

  unfoldable pub store_srem : ℕ → Bytes → List Bytes → Store P Z → Store P Z × Reply ℕ
  unfolding is_expired remove_expired srem_live
  store_srem now key members s = elim (lookup key s.records) [
    | none ↦ (s, ok 0)
    | some r ↦
        if is_expired now r then (remove_expired key r s, ok 0) else srem_live key members r s
  ]

  -- What `SIsMember` and `SMembers` share: their answer for a set, and for a missing key.
  unfoldable pub read_set :
      {A : Type 0} → ℕ → ℕ → A → (SimpleSet → A) → Bytes → Store P Z → Store P Z × Reply A
  unfolding is_expired delete_if_expired as_set notify_access
  read_set now later missing answer key s = elim (lookup key s.records) [
    | none ↦ (s, ok missing)
    | some r ↦
        if is_expired now r then (delete_if_expired later key s, ok missing) else elim (as_set r) [
          | none ↦ (s, err wrong_type)
          | some set ↦ (notify_access key s, ok (answer set))
        ]
  ]

  unfoldable pub store_sismember : ℕ → ℕ → Bytes → Bytes → Store P Z → Store P Z × Reply ℕ
  unfolding read_set
  store_sismember now later key member s =
      read_set now later 0 (λ set. if has member set then 1 else 0) key s

  unfoldable pub store_smembers : ℕ → ℕ → Bytes → Store P Z → Store P Z × Reply (List Bytes)
  unfolding read_set sorted_members
  store_smembers now later key s = read_set now later [] sorted_members key s
