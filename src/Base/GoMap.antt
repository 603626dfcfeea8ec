-- ===== src/Base/GoMap.antt =====
-- Go's `map[string]V` as an association list with distinct keys. The order of the list stands for
-- nothing: what ranges over a map says how it uses the order.
use redis_course.Base.{
  ℕ, suc, ◌+◌, ◌≤◌, ◌≡◌, refl, ◌∙◌, Bool, true, false, inl, inr, Option, none, some, List, [], ◌∷◌,
  arith, Bytes, same, same_iff, if◌then◌else◌, length, Bool-cases, Option-cases,
}

abbrev pub GoMap {ℓ} : Type ℓ → Type ℓ
GoMap V = List (Bytes × V)

module _ {ℓ} {V : Type ℓ} where
  unfoldable pub lookup : Bytes → GoMap V → Option V
  lookup k [] = none
  lookup k ((j, v) ∷ m) = if same k j then some v else lookup k m

  -- `m[k] = v`
  unfoldable pub insert : Bytes → V → GoMap V → GoMap V
  insert k v [] = (k, v) ∷ []
  insert k v ((j, w) ∷ m) = if same k j then (j, v) ∷ m else (j, w) ∷ insert k v m

  -- `delete(m, k)`
  unfoldable pub delete : Bytes → GoMap V → GoMap V
  delete k [] = []
  delete k ((j, v) ∷ m) = let rest = delete k m in if same k j then rest else (j, v) ∷ rest

  abbrev pub has : Bytes → GoMap V → Bool
  has k m = elim (lookup k m) [ none ↦ false | some _ ↦ true ]

  -- The sum of a size over the entries.
  unfoldable pub total : (Bytes → V → ℕ) → GoMap V → ℕ
  total size [] = 0
  total size ((j, v) ∷ m) = size j v + total size m

  -- No key stands twice.
  abbrev pub IsDistinct : GoMap V → Type ℓ
  IsDistinct [] = Unit
  IsDistinct ((j, v) ∷ m) = (lookup j m ≡ none) × IsDistinct m

  pub lookup-insert :
      (k j : Bytes) (v : V) (m : GoMap V)
      → lookup j (insert k v m) ≡ (if same k j then some v else lookup j m)
  unfolding lookup insert
  lookup-insert k j v [] = ground (arith, same_iff k j, same_iff j k)
  lookup-insert k j v ((i, w) ∷ m) =
      ground (arith, same_iff k j, same_iff j k, same_iff k i, same_iff j i, lookup-insert k j v m)

  pub lookup-delete :
      (k j : Bytes) (m : GoMap V) → lookup j (delete k m) ≡ (if same k j then none else lookup j m)
  unfolding lookup delete
  lookup-delete k j [] = ground arith
  lookup-delete k j ((i, w) ∷ m) =
      ground (arith, same_iff k j, same_iff j k, same_iff k i, same_iff j i, lookup-delete k j m)

  pub lookup-nil : (k : Bytes) → lookup k [] ≡ none
  unfolding lookup
  lookup-nil k = refl

  pub insert-IsDistinct :
      (k : Bytes) (v : V) (m : GoMap V) → IsDistinct m → IsDistinct (insert k v m)
  unfolding insert
  insert-IsDistinct k v [] d = (lookup-nil k, tt)
  insert-IsDistinct k v ((i, w) ∷ m) d = elim (Bool-cases (same k i)) [
    | inl e ↦ rw e d
    | inr e ↦ rw e (lookup-insert k i v m ∙ rw e d.0, insert-IsDistinct k v m d.1)
  ]

  pub delete-IsDistinct : (k : Bytes) (m : GoMap V) → IsDistinct m → IsDistinct (delete k m)
  unfolding delete
  delete-IsDistinct k [] d = tt
  delete-IsDistinct k ((i, w) ∷ m) d = elim (Bool-cases (same k i)) [
    | inl e ↦ rw e (delete-IsDistinct k m d.1)
    | inr e ↦ rw e (lookup-delete k i m ∙ rw e d.0, delete-IsDistinct k m d.1)
  ]

  pub delete_absent : (k : Bytes) (m : GoMap V) → lookup k m ≡ none → delete k m ≡ m
  unfolding lookup delete
  delete_absent k [] h = refl
  delete_absent k ((j, w) ∷ m) h = ground (arith, delete_absent k m)

  -- What an insertion and a deletion do to a sum and to the number of entries.
  pub total-insert_new :
      (size : Bytes → V → ℕ) (k : Bytes) (v : V) (m : GoMap V)
      → lookup k m ≡ none
      → total size (insert k v m) ≡ total size m + size k v
  unfolding total lookup insert
  total-insert_new size k v [] h = omega arith
  total-insert_new size k v ((j, w) ∷ m) h = ground (arith, total-insert_new size k v m)

  pub total-insert_old :
      (size : Bytes → V → ℕ) (k : Bytes) (v w : V) (m : GoMap V)
      → lookup k m ≡ some w
      → total size (insert k v m) + size k w ≡ total size m + size k v
  unfolding total lookup insert
  total-insert_old size k v w [] h = cc
  total-insert_old size k v w ((j, u) ∷ m) h =
      ground (arith, same_iff k j, total-insert_old size k v w m)

  pub total-delete :
      (size : Bytes → V → ℕ) (k : Bytes) (w : V) (m : GoMap V)
      → IsDistinct m
      → lookup k m ≡ some w
      → total size (delete k m) + size k w ≡ total size m
  unfolding total lookup delete
  total-delete size k w [] d h = cc
  total-delete size k w ((j, u) ∷ m) d h =
      ground (arith, same_iff k j, delete_absent k m, total-delete size k w m d.1)

  pub length-insert_new :
      (k : Bytes) (v : V) (m : GoMap V) → lookup k m ≡ none → length (insert k v m) ≡ suc (length m)
  unfolding lookup insert
  length-insert_new k v [] h = refl
  length-insert_new k v ((j, w) ∷ m) h = ground (arith, length-insert_new k v m)

  pub length-insert_old :
      (k : Bytes) (v w : V) (m : GoMap V) → lookup k m ≡ some w → length (insert k v m) ≡ length m
  unfolding lookup insert
  length-insert_old k v w [] h = cc
  length-insert_old k v w ((j, u) ∷ m) h = ground (arith, length-insert_old k v w m)

  pub length-delete :
      (k : Bytes) (w : V) (m : GoMap V)
      → IsDistinct m
      → lookup k m ≡ some w
      → suc (length (delete k m)) ≡ length m
  unfolding lookup delete
  length-delete k w [] d h = cc
  length-delete k w ((j, u) ∷ m) d h =
      ground (arith, same_iff k j, delete_absent k m, length-delete k w m d.1)

  pub length-delete-le : (k : Bytes) (m : GoMap V) → length (delete k m) ≤ length m
  unfolding delete
  length-delete-le k [] = omega arith
  length-delete-le k ((j, u) ∷ m) = ground (arith, length-delete-le k m)

  pub has-insert :
      (k j : Bytes) (v : V) (m : GoMap V)
      → has j (insert k v m) ≡ (if same k j then true else has j m)
  has-insert k j v m = elim (Bool-cases (same k j)) [
    | inl e ↦ rw (lookup-insert k j v m, has) (rw e)
    | inr e ↦ rw (lookup-insert k j v m, has) (rw e)
  ]

  pub has-delete :
      (k j : Bytes) (m : GoMap V) → has j (delete k m) ≡ (if same k j then false else has j m)
  has-delete k j m = elim (Bool-cases (same k j)) [
    | inl e ↦ rw (lookup-delete k j m, has) (rw e)
    | inr e ↦ rw (lookup-delete k j m, has) (rw e)
  ]

  pub has-true : (k : Bytes) (m : GoMap V) → has k m ≡ true → (v : V) × (lookup k m ≡ some v)
  has-true k m h = elim (Option-cases (lookup k m)) [
    | inl e ↦ cc (rw (e, has) at h)
    | inr (v, e) ↦ (v, e)
  ]
