-- ===== src/Storage/Store.antt =====
-- internal/storage/store.go and the bookkeeping of internal/storage/stats.go. Locks are left out:
-- operations run one after the other. A time is a number of nanoseconds, and an operation takes
-- the readings of the clock that it makes as arguments. The int64 counters are words: numbers
-- below 2^64 that stand for the int64 with the same bits.
pub mod Capacity
pub mod Strings
pub mod Sets
pub mod Zsets
pub mod Sketches
pub mod Filters
pub mod Valid
use redis_course.Base.{
  ℕ, zero, suc, ◌+◌, ◌-◌, ◌*◌, ◌%◌, ◌^◌, ◌≡◌, refl, Bool, true, false, Option, none, some, List, [],
  ◌∷◌, Bytes, codes, ltb, ◌==◌, if◌then◌else◌, length,
}
use redis_course.Base.GoMap.{GoMap, lookup, insert, delete, total}
use redis_course.Base.Int.{ℤ}
use redis_course.Storage.BloomFilter.{BloomFilter}
unfoldable use redis_course.Storage.BloomFilter.{size as filter_size}
use redis_course.Storage.CountMinSketch.{CountMinSketch}
unfoldable use redis_course.Storage.CountMinSketch.{size as sketch_size}
use redis_course.Storage.Eviction.{EvictionPolicy}
pub use redis_course.Storage.SortedSet.{SortedSets, SortedSetType, skip_list, b_plus_tree}
use redis_course.Storage.SortedSet.{sorted_set_size}

-- A sum of words, and a difference.
unfoldable pub add64 : ℕ → ℕ → ℕ
add64 a b = (a + b) % 2 ^ 64

unfoldable pub sub64 : ℕ → ℕ → ℕ
sub64 a b = (a + (2 ^ 64 - b % 2 ^ 64)) % 2 ^ 64

pub data ValueType : Type 0 where
  string_type : ValueType
  simple_set_type : ValueType
  sorted_set_type : ValueType
  count_min_sketch_type : ValueType
  bloom_filter_type : ValueType

unfoldable pub type_name : ValueType → Bytes
type_name string_type = codes "string"
type_name simple_set_type = codes "set"
type_name sorted_set_type = codes "zset"
type_name count_min_sketch_type = codes "cms"
type_name bloom_filter_type = codes "bf"

-- `map[string]struct{}`
abbrev pub SimpleSet : Type 0
SimpleSet = GoMap (Unit {0})

member_size : Bytes → Unit {0} → ℕ
member_size member _ = length member

unfoldable pub set_size : SimpleSet → ℕ
unfolding total member_size
set_size = total member_size

-- What the `Value any` of a record holds.
pub data Value (Z : SortedSets) : Type 0 where
  string : Bytes → Value Z
  simple_set : SimpleSet → Value Z
  sorted_set : Z.SortedSet → Value Z
  count_min_sketch : CountMinSketch → Value Z
  bloom_filter : BloomFilter → Value Z

-- A TTL of `none` is the zero time.
pub record Record (Z : SortedSets) : Type 0 where
  pub type : ValueType
  pub value : Value Z
  pub ttl : Option ℕ

-- `records` is the field `data`. A policy of `none` is the nil interface.
pub record Store (P : EvictionPolicy) (Z : SortedSets) : Type 0 where
  pub records : GoMap (Record Z)
  pub sorted_set_type : SortedSetType
  pub max_entries : ℤ
  pub max_memory : ℤ
  pub eviction_policy : Option P.State
  pub hits : ℕ
  pub misses : ℕ
  pub expired_keys : ℕ
  pub evicted_keys : ℕ
  pub used_memory : ℕ

-- `isExpired` at the time `now`.
unfoldable pub expired_at : Option ℕ → ℕ → Bool
expired_at none now = false
expired_at (some t) now = ltb t now

module _ {Z : SortedSets} where
  unfoldable pub value_size : Value Z → ℕ
  unfolding set_size sketch_size filter_size sorted_set_size
  value_size (string s) = length s
  value_size (simple_set s) = set_size s
  value_size (sorted_set s) = sorted_set_size Z s
  value_size (count_min_sketch s) = sketch_size s
  value_size (bloom_filter f) = filter_size f

  unfoldable pub record_size : Bytes → Record Z → ℕ
  unfolding value_size
  record_size key r = length key + value_size r.value

  unfoldable pub is_expired : ℕ → Record Z → Bool
  unfolding expired_at
  is_expired now r = expired_at r.ttl now

-- A call of the policy, where there is one.
pub on_policy : {A : Type 0} → (A → A) → Option A → Option A
on_policy f none = none
on_policy f (some p) = some (f p)

module _ {P : EvictionPolicy} {Z : SortedSets} where
  -- `accountMemory`, for an addition and for a subtraction.
  unfoldable pub grow_memory : ℕ → Store P Z → Store P Z
  unfolding add64
  grow_memory delta s = record s { used_memory = add64 s.used_memory delta }

  unfoldable pub shrink_memory : ℕ → Store P Z → Store P Z
  unfolding sub64
  shrink_memory delta s = record s { used_memory = sub64 s.used_memory delta }

  unfoldable pub notify_insert : Bytes → Store P Z → Store P Z
  unfolding on_policy
  notify_insert key s = record s { eviction_policy = on_policy (P.on_insert key) s.eviction_policy }

  unfoldable pub notify_access : Bytes → Store P Z → Store P Z
  unfolding on_policy
  notify_access key s = record s { eviction_policy = on_policy (P.on_access key) s.eviction_policy }

  unfoldable pub notify_remove : Bytes → Store P Z → Store P Z
  unfolding on_policy
  notify_remove key s = record s { eviction_policy = on_policy (P.on_remove key) s.eviction_policy }

  unfoldable pub track_insert : Bytes → Record Z → Store P Z → Store P Z
  unfolding grow_memory notify_insert
  track_insert key r s = notify_insert key (grow_memory (record_size key r) s)

  unfoldable pub track_overwrite : Bytes → Record Z → Record Z → Store P Z → Store P Z
  unfolding add64 sub64 notify_access
  track_overwrite key previous next s = notify_access key (record s {
    used_memory = add64 s.used_memory (sub64 (record_size key next) (record_size key previous));
  })

  unfoldable pub track_remove : Bytes → Record Z → Store P Z → Store P Z
  unfolding shrink_memory notify_remove
  track_remove key r s = notify_remove key (shrink_memory (record_size key r) s)

  -- `s.data[key] = record` and `delete(s.data, key)`.
  unfoldable pub put : Bytes → Record Z → Store P Z → Store P Z
  put key r s = record s { records = insert key r s.records }

  unfoldable pub drop_key : Bytes → Store P Z → Store P Z
  drop_key key s = record s { records = delete key s.records }

  unfoldable pub remove_expired : Bytes → Record Z → Store P Z → Store P Z
  unfolding add64 track_remove drop_key
  remove_expired key r s =
      let t = drop_key key s in
      track_remove key r (record t { expired_keys = add64 t.expired_keys 1 })

  -- `deleteIfExpired`, whose test reads the clock as `now`.
  unfoldable pub delete_if_expired : ℕ → Bytes → Store P Z → Store P Z
  unfolding remove_expired is_expired
  delete_if_expired now key s = elim (lookup key s.records) [
    | none ↦ s
    | some r ↦ if is_expired now r then remove_expired key r s else s
  ]
