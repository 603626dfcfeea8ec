-- ===== src/Storage/Store/Sets/Keeps.antt =====
-- The operations of internal/storage/simple_set_value.go and the invariant of the store.
use redis_course.Base.{
  ℕ, ◌+◌, ◌≡◌, inl, inr, refl, ◌∙◌, arith, false, none, some, List, [], ◌∷◌, Bytes, same_refl,
  Bool-cases, Option-cases, ◌==◌, length,
}
use mathlib.Core.Path.{subst}
use redis_course.Base.GoMap.{
  lookup, insert, delete, has, has-true, lookup-insert, IsDistinct, insert-IsDistinct,
  delete-IsDistinct, total-insert_new, total-delete,
}
use redis_course.Storage.SortedSet.{SetLaws}
use redis_course.Storage.Eviction.{EvictionPolicy, Laws}
use redis_course.Storage.Store.{
  SortedSets, SimpleSet, set_size, member_size, value_size, record_size, add64, sub64, Record,
  Store, put, notify_access, grow_memory, shrink_memory, remove_expired, is_expired, simple_set,
  string, sorted_set, count_min_sketch, bloom_filter, Value,
}
use redis_course.Storage.Store.Valid.{
  ValueOk, value-ValueOk, IsValid, reput-IsValid, used-IsValid, track_remove-IsValid,
  notify_access-IsValid, remove_expired-IsValid, delete_if_expired-IsValid,
}
use redis_course.Storage.Store.Capacity.Evicts.{Evicts, evict_locked-Evicts}
use redis_course.Storage.Store.Strings.Keeps.{insert_record-IsValid, lookup-remove_expired}
use redis_course.Storage.Store.Sets.{
  add_members, remove_members, as_set, set_value, is_simple_set_type, sadd_new, sadd_live,
  store_sadd, srem_live, store_srem, read_set,
}

has-false : (k : Bytes) (m : SimpleSet) → has k m ≡ false → lookup k m ≡ none
has-false k m h = elim (Option-cases (lookup k m)) [
  | inl e ↦ e
  | inr (v, e) ↦ cc (rw (e, has) at h)
]

-- The bytes that `SAdd` counts are those by which the size of the set grows.
pub add_members-size :
    (ms : List Bytes) (set : SimpleSet)
    → set_size (add_members ms set).0 ≡ set_size set + (add_members ms set).2
unfolding add_members set_size member_size
add_members-size [] set = omega arith
add_members-size (m ∷ ms) set = elim (Bool-cases (has m set)) [
  | inl e ↦ rw (e, add_members) (add_members-size ms set)
  | inr e ↦
      let a = total-insert_new member_size m tt set (has-false m set e) in
      let b = add_members-size ms (insert m tt set) in rw (e, add_members) (omega arith)
]

-- The bytes that `SRem` counts are those by which the size of a set with distinct members falls.
pub remove_members-size :
    (ms : List Bytes) (set : SimpleSet)
    → IsDistinct set
    → set_size (remove_members ms set).0 + (remove_members ms set).2 ≡ set_size set
unfolding remove_members set_size member_size
remove_members-size [] set d = omega arith
remove_members-size (m ∷ ms) set d = elim (Bool-cases (has m set)) [
  | inr e ↦ rw (e, remove_members) (remove_members-size ms set d)
  | inl e ↦
      let a = total-delete member_size m tt set d (has-true m set e).1 in
      let b = remove_members-size ms (delete m set) (delete-IsDistinct m set d) in
      rw (e, remove_members) (omega arith)
]

pub add_members-IsDistinct :
    (ms : List Bytes) (set : SimpleSet) → IsDistinct set → IsDistinct (add_members ms set).0
unfolding add_members
add_members-IsDistinct [] set d = d
add_members-IsDistinct (m ∷ ms) set d = elim (Bool-cases (has m set)) [
  | inl e ↦ rw (e, add_members) (add_members-IsDistinct ms set d)
  | inr e ↦
      rw (e, add_members)
        (add_members-IsDistinct ms (insert m tt set) (insert-IsDistinct m tt set d))
]

pub remove_members-IsDistinct :
    (ms : List Bytes) (set : SimpleSet) → IsDistinct set → IsDistinct (remove_members ms set).0
unfolding remove_members
remove_members-IsDistinct [] set d = d
remove_members-IsDistinct (m ∷ ms) set d = elim (Bool-cases (has m set)) [
  | inl e ↦
      rw (e, remove_members)
        (remove_members-IsDistinct ms (delete m set) (delete-IsDistinct m set d))
  | inr e ↦ rw (e, remove_members) (remove_members-IsDistinct ms set d)
]

module _ {Z : SortedSets} where
  set_value-inv : (v : Value Z) (set : SimpleSet) → set_value v ≡ some set → v ≡ simple_set set
  unfolding set_value
  set_value-inv (string s) set h = cc
  set_value-inv (simple_set s) set h = cc
  set_value-inv (sorted_set s) set h = cc
  set_value-inv (count_min_sketch s) set h = cc
  set_value-inv (bloom_filter f) set h = cc

  as_set-value : (r : Record Z) (set : SimpleSet) → as_set r ≡ some set → r.value ≡ simple_set set
  unfolding as_set
  as_set-value r set h = elim (Bool-cases (is_simple_set_type r.type)) [
    | inl e ↦ set_value-inv r.value set (rw e at h)
    | inr e ↦ cc (rw e at h)
  ]

  -- The size of a record that holds a set.
  as_set-size :
      (key : Bytes) (r : Record Z) (set : SimpleSet)
      → as_set r ≡ some set
      → record_size key r ≡ length key + set_size set
  unfolding record_size value_size
  as_set-size key r set h = rw (as_set-value r set h) refl

  set_record-size :
      (key : Bytes) (r : Record Z) (set : SimpleSet)
      → record_size key (record r { value = simple_set set }) ≡ length key + set_size set
  unfolding record_size value_size
  set_record-size key r set = refl

module _ {P : EvictionPolicy} (L : Laws P) {Z : SortedSets} (K : SetLaws Z) where
  as_set-IsDistinct :
      (r : Record Z) (set : SimpleSet) → ValueOk K r.value → as_set r ≡ some set → IsDistinct set
  unfolding ValueOk
  as_set-IsDistinct r set ok h = subst (ValueOk K) (as_set-value r set h) ok

  sadd_live-IsValid :
      (draws : ℕ → ℕ) (key : Bytes) (members : List Bytes) (r : Record Z) (s : Store P Z)
      → lookup key s.records ≡ some r
      → IsValid L K s
      → IsValid L K (sadd_live draws key members r s).0
  unfolding sadd_live grow_memory put Evicts add64 ValueOk
  sadd_live-IsValid draws key members r s e v = elim (Option-cases (as_set r)) [
    | inl n ↦ rw (n, sadd_live) v
    | inr (set, n) ↦
        let q : Record Z = record r { value = simple_set (add_members members set).0 } in
        let t = grow_memory (add_members members set).2 (put key q s) in
        let g = add_members-size members set in
        let a = as_set-size key r set n in
        let b = set_record-size key r (add_members members set).0 in
        let u = used-IsValid L K s v in
        rw (n, sadd_live)
          (evict_locked-Evicts L K draws (notify_access key t) (
            notify_access-IsValid L K key q t
              (lookup-insert key key q s.records ∙ rw (same_refl key) refl)
              (reput-IsValid L K key r q s t.used_memory e
                (add_members-IsDistinct members set
                  (as_set-IsDistinct r set (value-ValueOk L K s key r v e) n))
                v (λ h. omega arith)))).0
  ]

  -- `SAdd` keeps a store valid, for every policy that keeps the interface's promises.
  pub store_sadd-IsValid :
      (now : ℕ) (draws : ℕ → ℕ) (key : Bytes) (members : List Bytes) (s : Store P Z)
      → IsValid L K s
      → IsValid L K (store_sadd now draws key members s).0
  unfolding store_sadd sadd_new ValueOk
  store_sadd-IsValid now draws key members s v = elim (Option-cases (lookup key s.records)) [
    | inl e ↦
        rw (e, store_sadd, sadd_new)
          (insert_record-IsValid L K draws key _ s e (add_members-IsDistinct members [] tt) v)
    | inr (r, e) ↦ elim (Bool-cases (is_expired now r)) [
      | inl x ↦
          rw (e, x, store_sadd, sadd_new)
            (insert_record-IsValid L K draws key _ (remove_expired key r s)
              (lookup-remove_expired key r s) (add_members-IsDistinct members [] tt)
              (remove_expired-IsValid L K key r s e v))
      | inr x ↦ rw (e, x, store_sadd) (sadd_live-IsValid draws key members r s e v)
    ]
  ]

  srem_live-IsValid :
      (key : Bytes) (members : List Bytes) (r : Record Z) (s : Store P Z)
      → lookup key s.records ≡ some r
      → IsValid L K s
      → IsValid L K (srem_live key members r s).0
  unfolding srem_live shrink_memory put sub64 ValueOk
  srem_live-IsValid key members r s e v = elim (Option-cases (as_set r)) [
    | inl n ↦ rw (n, srem_live) v
    | inr (set, n) ↦
        let q : Record Z = record r { value = simple_set (remove_members members set).0 } in
        let t = shrink_memory (remove_members members set).2 (put key q s) in
        let d = as_set-IsDistinct r set (value-ValueOk L K s key r v e) n in
        let g = remove_members-size members set d in
        let a = as_set-size key r set n in
        let b = set_record-size key r (remove_members members set).0 in
        let u = used-IsValid L K s v in
        let w =
          reput-IsValid L K key r q s t.used_memory e (remove_members-IsDistinct members set d) v
            (λ h. omega arith) in
        let found : lookup key t.records ≡ some q =
          lookup-insert key key q s.records ∙ rw (same_refl key) refl in
        elim (Bool-cases (length (remove_members members set).0 == 0)) [
          | inl z ↦ rw (n, z, srem_live) (track_remove-IsValid L K key q t found w)
          | inr z ↦ rw (n, z, srem_live) (notify_access-IsValid L K key q t found w)
        ]
  ]

  -- `SRem` keeps a store valid, for every policy that keeps the interface's promises.
  pub store_srem-IsValid :
      (now : ℕ) (key : Bytes) (members : List Bytes) (s : Store P Z)
      → IsValid L K s
      → IsValid L K (store_srem now key members s).0
  unfolding store_srem
  store_srem-IsValid now key members s v = elim (Option-cases (lookup key s.records)) [
    | inl e ↦ rw (e, store_srem) v
    | inr (r, e) ↦ elim (Bool-cases (is_expired now r)) [
      | inl x ↦ rw (e, x, store_srem) (remove_expired-IsValid L K key r s e v)
      | inr x ↦ rw (e, x, store_srem) (srem_live-IsValid key members r s e v)
    ]
  ]

  -- The reading that `SIsMember` and `SMembers` share keeps a store valid, for every policy that keeps
  -- the interface's promises.
  pub read_set-IsValid :
      {A : Type 0} (now later : ℕ) (missing : A) (answer : SimpleSet → A) (key : Bytes)
      (s : Store P Z)
      → IsValid L K s
      → IsValid L K (read_set now later missing answer key s).0
  unfolding read_set
  read_set-IsValid now later missing answer key s v = elim (Option-cases (lookup key s.records)) [
    | inl e ↦ rw (e, read_set) v
    | inr (r, e) ↦ elim (Bool-cases (is_expired now r)) [
      | inl x ↦ rw (e, x, read_set) (delete_if_expired-IsValid L K later key s v)
      | inr x ↦ elim (Option-cases (as_set r)) [
        | inl n ↦ rw (e, x, n, read_set) v
        | inr (set, n) ↦ rw (e, x, n, read_set) (notify_access-IsValid L K key r s e v)
      ]
    ]
  ]
