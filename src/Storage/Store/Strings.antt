-- ===== src/Storage/Store/Strings.antt =====
-- internal/storage/string_value.go. An operation takes the clock's readings in the order in which
-- the code reads the clock on its longest path; a duration is an int64 of nanoseconds.
pub mod Keeps
pub mod Lookup
pub mod Counts
use redis_course.Base.{
  ℕ, zero, suc, ◌+◌, ◌-◌, ◌*◌, ◌/◌, ◌%◌, ◌^◌, Bool, true, false, Option, none, some, List, [], ◌∷◌,
  Bytes, codes, ltb, if◌then◌else◌,
}
use redis_course.Base.GoMap.{GoMap, lookup}
use redis_course.Base.Int.{ℤ, pos, negsuc, ltb_ℤ, wrap}
use redis_course.Base.Decimal.{parse_int, format_int}
use redis_course.Storage.Eviction.{EvictionPolicy}
use redis_course.Storage.Store.{
  SortedSets, Value, string, simple_set, sorted_set, count_min_sketch, bloom_filter, string_type,
  Record, Store, add64, track_insert, track_overwrite, track_remove, put, drop_key, notify_access,
  remove_expired, is_expired, delete_if_expired,
}
use redis_course.Storage.Store.Capacity.{evict_locked}

-- ErrNotInteger and ErrWrongType.
pub data StoreError : Type 0 where
  not_integer : StoreError
  wrong_type : StoreError

pub data Reply (A : Type 0) : Type 0 where
  ok : A → Reply A
  err : StoreError → Reply A

-- The bits of an int64.
unfoldable pub to_word : ℤ → ℕ
to_word (pos n) = n % 2 ^ 64
to_word (negsuc n) = 2 ^ 64 - 1 - n % 2 ^ 64

-- `current + 1` on int64.
unfoldable pub next_int64 : ℤ → ℤ
unfolding to_word
next_int64 z = wrap (to_word z + 1)

second : ℕ
second = 1000000000

-- `now.Add(ttl)` where the duration is positive, and no expiry where it is not.
unfoldable pub deadline : ℕ → ℤ → Option ℕ
deadline now (pos zero) = none
deadline now (pos (suc n)) = some (now + suc n)
deadline now (negsuc n) = none

module _ {Z : SortedSets} where
  -- `record.Value.(string)`
  unfoldable pub as_string : Value Z → Option Bytes
  as_string (string s) = some s
  as_string (simple_set s) = none
  as_string (sorted_set s) = none
  as_string (count_min_sketch s) = none
  as_string (bloom_filter f) = none

module _ {P : EvictionPolicy} {Z : SortedSets} where
  -- The part of `Set` behind the test for an overwritten key.
  unfoldable pub insert_record : (ℕ → ℕ) → Bytes → Record Z → Store P Z → Store P Z
  unfolding put track_insert evict_locked
  insert_record draws key r s = (evict_locked draws (track_insert key r (put key r s))).0

  unfoldable pub overwrite_record : (ℕ → ℕ) → Bytes → Record Z → Record Z → Store P Z → Store P Z
  unfolding put track_overwrite evict_locked
  overwrite_record draws key previous r s =
      (evict_locked draws (track_overwrite key previous r (put key r s))).0

  unfoldable pub store_set : ℕ → ℕ → (ℕ → ℕ) → Bytes → Bytes → ℤ → Store P Z → Store P Z
  unfolding deadline is_expired remove_expired insert_record overwrite_record
  store_set now later draws key value ttl s =
      let r : Record Z = record {
        type = string_type;
        value = string value;
        ttl = deadline now ttl;
      } in
      elim (lookup key s.records) [
        | none ↦ insert_record draws key r s
        | some previous ↦
            if is_expired later previous
            then insert_record draws key r (remove_expired key previous s)
            else overwrite_record draws key previous r s
      ]

  miss : Store P Z → Store P Z
  miss s = record s { misses = add64 s.misses 1 }

  hit : Bytes → Store P Z → Store P Z
  unfolding notify_access
  hit key s = notify_access key (record s { hits = add64 s.hits 1 })

  -- `none` is ("", false).
  unfoldable pub store_get : ℕ → ℕ → Bytes → Store P Z → Store P Z × Option Bytes
  unfolding is_expired delete_if_expired as_string miss hit
  store_get now later key s = elim (lookup key s.records) [
    | none ↦ (miss s, none)
    | some r ↦
        if is_expired now r
        then (miss (delete_if_expired later key s), none)
        else elim (as_string r.value) [ none ↦ (miss s, none) | some v ↦ (hit key s, some v) ]
  ]

  -- The loop of `Delete`.
  unfoldable pub store_delete : List Bytes → Store P Z → Store P Z × ℕ
  unfolding drop_key track_remove
  store_delete [] s = (s, 0)
  store_delete (key ∷ keys) s = elim (lookup key s.records) [
    | none ↦ store_delete keys s
    | some r ↦ let (t, n) = store_delete keys (track_remove key r (drop_key key s)) in (t, suc n)
  ]

  -- The part of `Expire` behind the test of the duration, for the deadline `t`.
  unfoldable pub expire_at : ℕ → ℕ → Bytes → Store P Z → Store P Z × Bool
  unfolding is_expired remove_expired put notify_access
  expire_at t later key s = elim (lookup key s.records) [
    | none ↦ (s, false)
    | some r ↦
        if is_expired later r
        then (remove_expired key r s, false)
        else (notify_access key (put key (record r { ttl = some t }) s), true)
  ]

  unfoldable pub store_expire : ℕ → ℕ → Bytes → ℤ → Store P Z → Store P Z × Bool
  unfolding deadline store_delete expire_at
  store_expire now later key ttl s = elim (deadline now ttl) [
    | none ↦ let (t, n) = store_delete (key ∷ []) s in (t, ltb 0 n)
    | some t ↦ expire_at t later key s
  ]

  -- `TTL`: the readings are those of `isExpired`, of `time.Until` and of `deleteIfExpired`.
  unfoldable pub store_ttl : ℕ → ℕ → ℕ → Bytes → Store P Z → Store P Z × ℤ
  unfolding is_expired delete_if_expired second
  store_ttl now then_ later key s = elim (lookup key s.records) [
    | none ↦ (s, negsuc 1)
    | some r ↦ if is_expired now r then (delete_if_expired later key s, negsuc 1) else elim r.ttl [
      | none ↦ (s, negsuc 0)
      | some t ↦
          if ltb then_ t
          then (s, pos ((t - then_) / second))
          else (delete_if_expired later key s, negsuc 1)
    ]
  ]

  -- The loop of `Exists`; each key comes with the readings of `isExpired` and `deleteIfExpired`.
  unfoldable pub store_exists : List (ℕ × ℕ × Bytes) → Store P Z → Store P Z × ℕ
  unfolding is_expired delete_if_expired
  store_exists [] s = (s, 0)
  store_exists ((now, later, key) ∷ keys) s = elim (lookup key s.records) [
    | none ↦ store_exists keys s
    | some r ↦
        if is_expired now r
        then store_exists keys (delete_if_expired later key s)
        else let (t, n) = store_exists keys s in (t, suc n)
  ]

  -- `Incr` behind the test for an expired record: for a live record, and for none.
  unfoldable pub incr_live : (ℕ → ℕ) → Bytes → Record Z → Store P Z → Store P Z × Reply ℤ
  unfolding as_string parse_int next_int64 format_int overwrite_record
  incr_live draws key r s = elim (as_string r.value) [
    | none ↦ (s, err not_integer)
    | some text ↦ elim (parse_int text) [
      | none ↦ (s, err not_integer)
      | some current ↦
          let next = next_int64 current in
          let next_record : Record Z = record {
            type = string_type;
            value = string (format_int next);
            ttl = r.ttl;
          } in
          (overwrite_record draws key r next_record s, ok next)
    ]
  ]

  unfoldable pub incr_new : (ℕ → ℕ) → Bytes → Store P Z → Store P Z × Reply ℤ
  unfolding format_int insert_record
  incr_new draws key s =
      let next_record : Record Z = record {
        type = string_type;
        value = string (format_int (pos 1));
        ttl = none;
      } in
      (insert_record draws key next_record s, ok (pos 1))

  unfoldable pub store_incr : ℕ → (ℕ → ℕ) → Bytes → Store P Z → Store P Z × Reply ℤ
  unfolding is_expired remove_expired incr_live incr_new
  store_incr now draws key s = elim (lookup key s.records) [
    | none ↦ incr_new draws key s
    | some r ↦
        if is_expired now r
        then incr_new draws key (remove_expired key r s)
        else incr_live draws key r s
  ]
