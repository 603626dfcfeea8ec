-- ===== src/Storage/Store/Zsets/Keeps.antt =====
-- The operations of internal/storage/sorted_set_value.go and the invariant of the store.
use redis_course.Base.{
  ℕ, ◌+◌, ◌≡◌, inl, inr, refl, ◌∙◌, arith, false, none, some, List, [], ◌∷◌, Bytes, same_refl, All,
  Bool-cases, Option-cases, ◌==◌, length,
}
use mathlib.Core.Path.{subst}
use redis_course.Base.GoMap.{GoMap, lookup, lookup-insert}
use redis_course.Storage.Float64.{Float64, is_nan}
use redis_course.Storage.SortedSet.{SetLaws, sorted_set_size}
use redis_course.Storage.SortedSet.View.{add-size, remove-size}
use redis_course.Storage.Eviction.{EvictionPolicy, Laws}
use redis_course.Storage.Store.{
  SortedSets, Value, string, simple_set, sorted_set, count_min_sketch, bloom_filter, value_size,
  record_size, Record, Store, put, notify_access, grow_memory, shrink_memory, add64, sub64,
  remove_expired, is_expired,
}
use redis_course.Storage.Store.Valid.{
  ValueOk, value-ValueOk, IsValid, reput-IsValid, used-IsValid, track_remove-IsValid,
  notify_access-IsValid, remove_expired-IsValid,
}
use redis_course.Storage.Store.Capacity.Evicts.{Evicts, evict_locked-Evicts}
use redis_course.Storage.Store.Strings.Keeps.{insert_record-IsValid, lookup-remove_expired}
use redis_course.Storage.Store.Zsets.{
  is_sorted_set_type, sorted_set_value, as_sorted_set, add_scores, remove_scores, zadd_new,
  zadd_live, store_zadd, zrem_live, store_zrem, sorted_set_locked, read_sorted_set,
}

-- Scores that are numbers.
abbrev pub Numbers : GoMap Float64 → Type 0
Numbers = All (λ e. is_nan e.1 ≡ false)

module _ {Z : SortedSets} (K : SetLaws Z) where
  add_scores-Valid :
      (ms : GoMap Float64) (set : Z.SortedSet)
      → Numbers ms
      → K.Valid set
      → K.Valid (add_scores Z ms set).0
        × (sorted_set_size Z (add_scores Z ms set).0
            ≡ sorted_set_size Z set + (add_scores Z ms set).2)
  unfolding add_scores
  add_scores-Valid [] set n v = (v, omega arith)
  add_scores-Valid ((m, x) ∷ ms) set (n, ns) v =
      let (w, e) = add_scores-Valid ms (Z.add m x set).0 ns (K.add-Valid m x set n v) in
      let a = add-size K m x set n v in
      elim (Bool-cases (Z.add m x set).1) [
        | inl b ↦ let a' = rw b at a in rw b (w, omega arith)
        | inr b ↦ let a' = rw b at a in rw b (w, omega arith)
      ]

  remove_scores-Valid :
      (ms : List Bytes) (set : Z.SortedSet)
      → K.Valid set
      → K.Valid (remove_scores Z ms set).0
        × (sorted_set_size Z (remove_scores Z ms set).0 + (remove_scores Z ms set).2
            ≡ sorted_set_size Z set)
  unfolding remove_scores
  remove_scores-Valid [] set v = (v, omega arith)
  remove_scores-Valid (m ∷ ms) set v =
      let (w, e) = remove_scores-Valid ms (Z.remove m set).0 (K.remove-Valid m set v) in
      let a = remove-size K m set v in
      elim (Bool-cases (Z.remove m set).1) [
        | inl b ↦ let a' = rw b at a in rw b (w, omega arith)
        | inr b ↦ let a' = rw b at a in rw b (w, omega arith)
      ]

module _ {Z : SortedSets} where
  sorted_set_value-inv :
      (v : Value Z) (set : Z.SortedSet) → sorted_set_value v ≡ some set → v ≡ sorted_set set
  unfolding sorted_set_value
  sorted_set_value-inv (string s) set h = cc
  sorted_set_value-inv (simple_set s) set h = cc
  sorted_set_value-inv (sorted_set s) set h = cc
  sorted_set_value-inv (count_min_sketch s) set h = cc
  sorted_set_value-inv (bloom_filter f) set h = cc

  as_sorted_set-value :
      (r : Record Z) (set : Z.SortedSet) → as_sorted_set r ≡ some set → r.value ≡ sorted_set set
  unfolding as_sorted_set
  as_sorted_set-value r set h = elim (Bool-cases (is_sorted_set_type r.type)) [
    | inl e ↦ sorted_set_value-inv r.value set (rw e at h)
    | inr e ↦ cc (rw e at h)
  ]

  -- The size of a record that holds a sorted set.
  as_sorted_set-size :
      (key : Bytes) (r : Record Z) (set : Z.SortedSet)
      → as_sorted_set r ≡ some set
      → record_size key r ≡ length key + sorted_set_size Z set
  unfolding record_size value_size
  as_sorted_set-size key r set h = rw (as_sorted_set-value r set h) refl

  sorted_set_record-size :
      (key : Bytes) (r : Record Z) (set : Z.SortedSet)
      → record_size key (record r { value = sorted_set set }) ≡ length key + sorted_set_size Z set
  unfolding record_size value_size
  sorted_set_record-size key r set = refl

module _ {P : EvictionPolicy} (L : Laws P) {Z : SortedSets} (K : SetLaws Z) where
  as_sorted_set-Valid :
      (r : Record Z) (set : Z.SortedSet)
      → ValueOk K r.value
      → as_sorted_set r ≡ some set
      → K.Valid set
  unfolding ValueOk
  as_sorted_set-Valid r set fine h = subst (ValueOk K) (as_sorted_set-value r set h) fine

  pub stored_set-Valid :
      (key : Bytes) (r : Record Z) (set : Z.SortedSet) (s : Store P Z)
      → IsValid L K s
      → lookup key s.records ≡ some r
      → as_sorted_set r ≡ some set
      → K.Valid set
  stored_set-Valid key r set s v e f = as_sorted_set-Valid r set (value-ValueOk L K s key r v e) f

  zadd_new-IsValid :
      (draws : ℕ → ℕ) (key : Bytes) (ms : GoMap Float64) (s : Store P Z)
      → K.Trusted
      → Numbers ms
      → lookup key s.records ≡ none
      → IsValid L K s
      → IsValid L K (zadd_new draws key ms s).0
  unfolding zadd_new ValueOk
  zadd_new-IsValid draws key ms s c n e v =
      insert_record-IsValid L K draws key _ s e
        (add_scores-Valid K ms (Z.new_sorted_set s.sorted_set_type) n
          (K.new-Valid s.sorted_set_type c)).0
        v

  zadd_live-IsValid :
      (draws : ℕ → ℕ) (key : Bytes) (ms : GoMap Float64) (r : Record Z) (s : Store P Z)
      → Numbers ms
      → lookup key s.records ≡ some r
      → IsValid L K s
      → IsValid L K (zadd_live draws key ms r s).0
  unfolding zadd_live grow_memory put Evicts add64 ValueOk
  zadd_live-IsValid draws key ms r s numbers e v = elim (Option-cases (as_sorted_set r)) [
    | inl n ↦ rw (n, zadd_live) v
    | inr (set, n) ↦
        let q : Record Z = record r { value = sorted_set (add_scores Z ms set).0 } in
        let t = grow_memory (add_scores Z ms set).2 (put key q s) in
        let (w, g) =
          add_scores-Valid K ms set numbers
            (as_sorted_set-Valid r set (value-ValueOk L K s key r v e) n) in
        let a = as_sorted_set-size key r set n in
        let b = sorted_set_record-size key r (add_scores Z ms set).0 in
        let u = used-IsValid L K s v in
        rw (n, zadd_live)
          (evict_locked-Evicts L K draws (notify_access key t) (
            notify_access-IsValid L K key q t
              (lookup-insert key key q s.records ∙ rw (same_refl key) refl)
              (reput-IsValid L K key r q s t.used_memory e w v (λ h. omega arith)))).0
  ]

  -- `ZAdd` of scores that are numbers keeps a store valid.
  pub store_zadd-IsValid :
      (now : ℕ) (draws : ℕ → ℕ) (key : Bytes) (ms : GoMap Float64) (s : Store P Z)
      → K.Trusted
      → Numbers ms
      → IsValid L K s
      → IsValid L K (store_zadd now draws key ms s).0
  unfolding store_zadd
  store_zadd-IsValid now draws key ms s c n v = elim (Option-cases (lookup key s.records)) [
    | inl e ↦ rw (e, store_zadd) (zadd_new-IsValid draws key ms s c n e v)
    | inr (r, e) ↦ elim (Bool-cases (is_expired now r)) [
      | inl x ↦
          rw (e, x, store_zadd)
            (zadd_new-IsValid draws key ms (remove_expired key r s) c n
              (lookup-remove_expired key r s) (remove_expired-IsValid L K key r s e v))
      | inr x ↦ rw (e, x, store_zadd) (zadd_live-IsValid draws key ms r s n e v)
    ]
  ]

  zrem_live-IsValid :
      (key : Bytes) (members : List Bytes) (r : Record Z) (s : Store P Z)
      → lookup key s.records ≡ some r
      → IsValid L K s
      → IsValid L K (zrem_live key members r s).0
  unfolding zrem_live shrink_memory put sub64 ValueOk
  zrem_live-IsValid key members r s e v = elim (Option-cases (as_sorted_set r)) [
    | inl n ↦ rw (n, zrem_live) v
    | inr (set, n) ↦
        let q : Record Z = record r { value = sorted_set (remove_scores Z members set).0 } in
        let t = shrink_memory (remove_scores Z members set).2 (put key q s) in
        let (d, g) =
          remove_scores-Valid K members set
            (as_sorted_set-Valid r set (value-ValueOk L K s key r v e) n) in
        let a = as_sorted_set-size key r set n in
        let b = sorted_set_record-size key r (remove_scores Z members set).0 in
        let u = used-IsValid L K s v in
        let w = reput-IsValid L K key r q s t.used_memory e d v (λ h. omega arith) in
        let found : lookup key t.records ≡ some q =
          lookup-insert key key q s.records ∙ rw (same_refl key) refl in
        elim (Bool-cases (Z.len (remove_scores Z members set).0 == 0)) [
          | inl z ↦ rw (n, z, zrem_live) (track_remove-IsValid L K key q t found w)
          | inr z ↦ rw (n, z, zrem_live) (notify_access-IsValid L K key q t found w)
        ]
  ]

  -- `ZRem` keeps a store valid.
  pub store_zrem-IsValid :
      (now : ℕ) (key : Bytes) (members : List Bytes) (s : Store P Z)
      → IsValid L K s
      → IsValid L K (store_zrem now key members s).0
  unfolding store_zrem
  store_zrem-IsValid now key members s v = elim (Option-cases (lookup key s.records)) [
    | inl e ↦ rw (e, store_zrem) v
    | inr (r, e) ↦ elim (Bool-cases (is_expired now r)) [
      | inl x ↦ rw (e, x, store_zrem) (remove_expired-IsValid L K key r s e v)
      | inr x ↦ rw (e, x, store_zrem) (zrem_live-IsValid key members r s e v)
    ]
  ]

  -- The reading that `ZScore`, `ZRank` and `ZRange` share keeps a store valid.
  pub read_sorted_set-IsValid :
      {A : Type 0} (now : ℕ) (missing : A) (answer : Z.SortedSet → A) (key : Bytes) (s : Store P Z)
      → IsValid L K s
      → IsValid L K (read_sorted_set now missing answer key s).0
  unfolding read_sorted_set sorted_set_locked
  read_sorted_set-IsValid now missing answer key s v = elim (Option-cases (lookup key s.records)) [
    | inl e ↦ rw (e, read_sorted_set, sorted_set_locked) v
    | inr (r, e) ↦ elim (Bool-cases (is_expired now r)) [
      | inl x ↦ rw (e, x, read_sorted_set, sorted_set_locked) v
      | inr x ↦ elim (Option-cases (as_sorted_set r)) [
        | inl n ↦ rw (e, x, n, read_sorted_set, sorted_set_locked) v
        | inr (set, n) ↦
            rw (e, x, n, read_sorted_set, sorted_set_locked) (notify_access-IsValid L K key r s e v)
      ]
    ]
  ]
