-- ===== src/Storage/Store/Valid.antt =====
-- The invariant of a store, and the bookkeeping of internal/storage/stats.go.
use redis_course.Base.{
  refl, true, ℕ, ◌+◌, ◌%◌, ◌^◌, ◌≡◌, sym, ap, ◌∙◌, arith, inl, inr, Bool-cases, Option-cases,
  Option, none, some, Bytes, same, same_iff, if◌then◌else◌,
}
use redis_course.Base.GoMap.{
  GoMap, lookup, insert, delete, has, total, IsDistinct, insert-IsDistinct, delete-IsDistinct,
  total-insert_new, total-insert_old, total-delete, has-insert, has-delete, lookup-insert,
  lookup-delete,
}
use mathlib.Core.Path.{subst}
use mathlib.Core.Option.{some-injective}
use redis_course.Storage.SortedSet.{SetLaws}
use redis_course.Storage.Eviction.{EvictionPolicy, Laws}
use redis_course.Storage.Store.{
  SortedSets, Value, string, simple_set, sorted_set, count_min_sketch, bloom_filter, Record, Store,
  add64, sub64, record_size, on_policy, track_insert, track_overwrite, track_remove, put, drop_key,
  notify_insert, notify_access, notify_remove, grow_memory, shrink_memory, remove_expired,
  delete_if_expired, is_expired,
}

pub add64-mod : (a b : ℕ) → add64 (a % 2 ^ 64) b ≡ (a + b) % 2 ^ 64
unfolding add64
add64-mod a b = omega arith

pub sub64-mod : (a b c : ℕ) → c + b ≡ a → sub64 (a % 2 ^ 64) b ≡ c % 2 ^ 64
unfolding sub64
sub64-mod a b c h = omega arith

pub replace64-mod : (a b c d : ℕ) → c + d ≡ a + b → add64 (a % 2 ^ 64) (sub64 b d) ≡ c % 2 ^ 64
unfolding add64 sub64
replace64-mod a b c d h = omega arith

-- The members of a set are distinct, and a sorted set is valid.
module _ {Z : SortedSets} (K : SetLaws Z) where
  unfoldable pub ValueOk : Value Z → Type 0
  ValueOk (string s) = Unit
  ValueOk (simple_set s) = IsDistinct s
  ValueOk (sorted_set s) = K.Valid s
  ValueOk (count_min_sketch s) = Unit
  ValueOk (bloom_filter f) = Unit

  -- No key stands twice, and the values are as they should be.
  unfoldable pub Clean : GoMap (Record Z) → Type 0
  unfolding ValueOk
  Clean m = IsDistinct m × ((j : Bytes) (r : Record Z) → lookup j m ≡ some r → ValueOk r.value)

  Clean-insert :
      (k : Bytes) (r : Record Z) (m : GoMap (Record Z))
      → ValueOk r.value
      → Clean m
      → Clean (insert k r m)
  unfolding Clean
  Clean-insert k r m ok (d, f) = (
    insert-IsDistinct k r m d,
    λ j q e. elim (Bool-cases (same k j)) [
      | inl x ↦
          subst (λ (t : Record Z). ValueOk t.value)
            (some-injective r q (sym (lookup-insert k j r m ∙ rw x refl) ∙ e)) ok
      | inr x ↦ f j q (sym (lookup-insert k j r m ∙ rw x refl) ∙ e)
    ],
  )

  Clean-delete : (k : Bytes) (m : GoMap (Record Z)) → Clean m → Clean (delete k m)
  unfolding Clean
  Clean-delete k m (d, f) = (
    delete-IsDistinct k m d,
    λ j q e. elim (Bool-cases (same k j)) [
      | inl x ↦ cc (rw x at (lookup-delete k j m))
      | inr x ↦ f j q (sym (lookup-delete k j m ∙ rw x refl) ∙ e)
    ],
  )

module _ {P : EvictionPolicy} (L : Laws P) {Z : SortedSets} (K : SetLaws Z) where
  -- The policy tracks the keys of the store and no others.
  unfoldable pub Knows : Option P.State → GoMap (Record Z) → Type 0
  Knows none m = Unit
  Knows (some p) m = L.Valid p × ((j : Bytes) → L.tracks j p ≡ has j m)

  -- No key stands twice, the values are as they should be, the memory in use is the sum of the sizes, modulo 2^64, and the policy
  -- tracks the keys of the store.
  unfoldable pub IsValid : Store P Z → Type 0
  unfolding Knows Clean
  IsValid s =
      Clean K s.records
      × (s.used_memory ≡ total record_size s.records % 2 ^ 64)
      × Knows s.eviction_policy s.records

  Knows-insert :
      (k : Bytes) (r : Record Z) (p : Option P.State) (m : GoMap (Record Z))
      → Knows p m
      → Knows (on_policy (P.on_insert k) p) (insert k r m)
  unfolding Knows on_policy
  Knows-insert k r none m w = tt
  Knows-insert k r (some p) m (v, t) = (
    L.on_insert-Valid k p v,
    λ j. L.tracks-on_insert k j p v ∙ rw (t j) (sym (has-insert k j r m)),
  )

  known :
      (k j : Bytes) (m : GoMap (Record Z))
      → has k m ≡ true
      → (if same k j then true else has j m) ≡ has j m
  known k j m h = elim (Bool-cases (same k j)) [
    | inl e ↦ rw e (sym (rw ((same_iff k j).0 e) at h))
    | inr e ↦ rw e
  ]

  -- A key that the store has already.
  Knows-access :
      (k : Bytes) (p : Option P.State) (m : GoMap (Record Z))
      → has k m ≡ true
      → Knows p m
      → Knows (on_policy (P.on_access k) p) m
  unfolding Knows on_policy
  Knows-access k none m h w = tt
  Knows-access k (some p) m h (v, t) =
      (L.on_access-Valid k p v, λ j. L.tracks-on_access k j p v ∙ (rw (t j) (known k j m h)))

  Knows-overwrite :
      (k : Bytes) (r : Record Z) (p : Option P.State) (m : GoMap (Record Z))
      → has k m ≡ true
      → Knows p m
      → Knows (on_policy (P.on_access k) p) (insert k r m)
  unfolding Knows on_policy
  Knows-overwrite k r none m h w = tt
  Knows-overwrite k r (some p) m h (v, t) = (
    L.on_access-Valid k p v,
    λ j. L.tracks-on_access k j p v ∙ rw (t j) (sym (has-insert k j r m)),
  )

  Knows-remove :
      (k : Bytes) (p : Option P.State) (m : GoMap (Record Z))
      → Knows p m
      → Knows (on_policy (P.on_remove k) p) (delete k m)
  unfolding Knows on_policy
  Knows-remove k none m w = tt
  Knows-remove k (some p) m (v, t) =
      (L.on_remove-Valid k p v, λ j. L.tracks-on_remove k j p v ∙ rw (t j) (sym (has-delete k j m)))

  -- The four changes that the operations are made of.
  pub track_insert-IsValid :
      (key : Bytes) (r : Record Z) (s : Store P Z)
      → lookup key s.records ≡ none
      → ValueOk K r.value
      → IsValid s
      → IsValid (track_insert key r (put key r s))
  unfolding IsValid track_insert put grow_memory notify_insert
  track_insert-IsValid key r s h ok (d, m, w) = (
    Clean-insert K key r s.records ok d,
    rw (m, add64-mod (total record_size s.records) (record_size key r))
        (ap (λ (n : ℕ). n % 2 ^ 64) (sym (total-insert_new record_size key r s.records h))),
    Knows-insert key r s.eviction_policy s.records w,
  )

  pub track_overwrite-IsValid :
      (key : Bytes) (previous next : Record Z) (s : Store P Z)
      → lookup key s.records ≡ some previous
      → ValueOk K next.value
      → IsValid s
      → IsValid (track_overwrite key previous next (put key next s))
  unfolding IsValid track_overwrite put notify_access
  track_overwrite-IsValid key previous next s h ok (d, m, w) = (
    Clean-insert K key next s.records ok d,
    rw m (
        replace64-mod (total record_size s.records) (record_size key next)
          (total record_size (insert key next s.records)) (record_size key previous)
          (total-insert_old record_size key next previous s.records h)),
    Knows-overwrite key next s.eviction_policy s.records (rw (h, has)) w,
  )

  pub track_remove-IsValid :
      (key : Bytes) (r : Record Z) (s : Store P Z)
      → lookup key s.records ≡ some r
      → IsValid s
      → IsValid (track_remove key r (drop_key key s))
  unfolding IsValid Clean track_remove drop_key shrink_memory notify_remove
  track_remove-IsValid key r s h (d, m, w) = (
    Clean-delete K key s.records d,
    rw m (
        sub64-mod (total record_size s.records) (record_size key r)
          (total record_size (delete key s.records))
          (total-delete record_size key r s.records d.0 h)),
    Knows-remove key s.eviction_policy s.records w,
  )

  pub notify_access-IsValid :
      (key : Bytes) (r : Record Z) (s : Store P Z)
      → lookup key s.records ≡ some r
      → IsValid s
      → IsValid (notify_access key s)
  unfolding IsValid notify_access
  notify_access-IsValid key r s h (d, m, w) =
      (d, m, Knows-access key s.eviction_policy s.records (rw (h, has)) w)

  pub remove_expired-IsValid :
      (key : Bytes) (r : Record Z) (s : Store P Z)
      → lookup key s.records ≡ some r
      → IsValid s
      → IsValid (remove_expired key r s)
  unfolding remove_expired IsValid track_remove drop_key shrink_memory notify_remove
  remove_expired-IsValid key r s h v = track_remove-IsValid key r s h v

  pub delete_if_expired-IsValid :
      (now : ℕ) (key : Bytes) (s : Store P Z) → IsValid s → IsValid (delete_if_expired now key s)
  unfolding delete_if_expired
  delete_if_expired-IsValid now key s v = elim (Option-cases (lookup key s.records)) [
    | inl e ↦ rw (e, delete_if_expired) v
    | inr (r, e) ↦
        rw (e, delete_if_expired)
          (elim (Bool-cases (is_expired now r)) [
            | inl x ↦ rw x (remove_expired-IsValid key r s e v)
            | inr x ↦ rw x v
          ])
  ]

  Knows-reput :
      (k : Bytes) (r : Record Z) (p : Option P.State) (m : GoMap (Record Z))
      → has k m ≡ true
      → Knows p m
      → Knows p (insert k r m)
  unfolding Knows
  Knows-reput k r none m h w = tt
  Knows-reput k r (some p) m h (v, t) =
      (v, λ j. t j ∙ (sym (known k j m h) ∙ sym (has-insert k j r m)))

  -- Another record for a key, and the memory in use put right.
  pub reput-IsValid :
      (key : Bytes) (r q : Record Z) (s : Store P Z) (used : ℕ)
      → lookup key s.records ≡ some r
      → ValueOk K q.value
      → IsValid s
      → (total record_size (insert key q s.records) + record_size key r
            ≡ total record_size s.records + record_size key q
          → used ≡ total record_size (insert key q s.records) % 2 ^ 64)
      → IsValid (record s { records = insert key q s.records; used_memory = used })
  unfolding IsValid
  reput-IsValid key r q s used h ok (d, m, w) f = (
    Clean-insert K key q s.records ok d,
    f (total-insert_old record_size key q r s.records h),
    Knows-reput key q s.eviction_policy s.records (rw (h, has)) w,
  )

  pub used-IsValid :
      (s : Store P Z) → IsValid s → s.used_memory ≡ total record_size s.records % 2 ^ 64
  unfolding IsValid
  used-IsValid s (d, m, w) = m

  -- The value of a record of a valid store.
  pub value-ValueOk :
      (s : Store P Z) (key : Bytes) (r : Record Z)
      → IsValid s
      → lookup key s.records ≡ some r
      → ValueOk K r.value
  unfolding IsValid Clean
  value-ValueOk s key r (d, m, w) e = d.1 key r e

  -- Another record of the same size.
  pub same_size-IsValid :
      (key : Bytes) (r q : Record Z) (s : Store P Z)
      → lookup key s.records ≡ some r
      → ValueOk K q.value
      → record_size key q ≡ record_size key r
      → IsValid s
      → IsValid (put key q s)
  unfolding put
  same_size-IsValid key r q s e ok z v =
      reput-IsValid key r q s s.used_memory e ok v
        (λ h. used-IsValid s v ∙ ap (λ (n : ℕ). n % 2 ^ 64) (omega arith))
