-- ===== src/Storage/Store/Capacity/Sweeps.antt =====
-- `New` and `Sweep` of internal/storage and the invariant of the store.
use redis_course.Base.{
  ℕ, ◌≡◌, inl, inr, refl, sym, ◌∙◌, none, some, [], ◌∷◌, Bytes, same, same_iff, same_refl,
  Bool-cases,
}
use redis_course.Base.GoMap.{GoMap, lookup, lookup-delete, total, IsDistinct}
use redis_course.Base.Int.{ℤ}
use redis_course.Storage.SortedSet.{SetLaws}
use redis_course.Storage.Eviction.{EvictionPolicy, Laws}
use redis_course.Storage.Store.{
  SortedSets, SortedSetType, remove_expired, is_expired, Record, Store, track_remove, drop_key,
  notify_remove, shrink_memory,
}
use redis_course.Storage.Store.Valid.{Clean, Knows, IsValid, remove_expired-IsValid}
use redis_course.Storage.Store.Capacity.{sweep_entries, sweep, new_store}
use redis_course.Storage.Store.Capacity.Evicts.{Evicts, Ends, evict_locked-Evicts}

module _ {P : EvictionPolicy} (L : Laws P) {Z : SortedSets} (K : SetLaws Z) where
  head_lem :
      (key : Bytes) (r : Record Z) (es : GoMap (Record Z)) → lookup key ((key, r) ∷ es) ≡ some r
  unfolding lookup
  head_lem key r es = rw (same_refl key)

  tail_lem :
      (key j : Bytes) (r q : Record Z) (es : GoMap (Record Z))
      → lookup key es ≡ none
      → lookup j es ≡ some q
      → lookup j ((key, r) ∷ es) ≡ some q
  unfolding lookup
  tail_lem key j r q es d e = elim (Bool-cases (same j key)) [
    | inl x ↦ cc (rw ((same_iff j key).0 x) at e)
    | inr x ↦ rw x e
  ]

  -- The other entries are still there when an expired one is removed.
  others :
      (key : Bytes) (r : Record Z) (es : GoMap (Record Z)) (s : Store P Z)
      → lookup key es ≡ none
      → ((j : Bytes) (q : Record Z)
          → lookup j ((key, r) ∷ es) ≡ some q
          → lookup j s.records ≡ some q)
      → (j : Bytes) (q : Record Z) → lookup j es ≡ some q
      → lookup j (remove_expired key r s).records ≡ some q
  unfolding remove_expired track_remove drop_key shrink_memory notify_remove
  others key r es s d f j q e = elim (Bool-cases (same key j)) [
    | inl x ↦ cc (rw (sym ((same_iff key j).0 x)) at e)
    | inr x ↦ lookup-delete key j s.records ∙ rw x (f j q (tail_lem key j r q es d e))
  ]

  -- `Sweep` over some of the entries of a store keeps it valid.
  sweep_entries-IsValid :
      (clock : Bytes → ℕ) (es : GoMap (Record Z)) (s : Store P Z)
      → IsDistinct es
      → ((j : Bytes) (r : Record Z) → lookup j es ≡ some r → lookup j s.records ≡ some r)
      → IsValid L K s
      → IsValid L K (sweep_entries clock es s).0
  unfolding sweep_entries
  sweep_entries-IsValid clock [] s d f v = v
  sweep_entries-IsValid clock ((key, r) ∷ es) s d f v =
      elim (Bool-cases (is_expired (clock key) r)) [
        | inl x ↦ rw x (
            sweep_entries-IsValid clock es (remove_expired key r s) d.1 (others key r es s d.0 f)
              (remove_expired-IsValid L K key r s (f key r (head_lem key r es)) v))
        | inr x ↦
            rw x (
              sweep_entries-IsValid clock es s d.1 (λ j q e. f j q (tail_lem key j r q es d.0 e)) v)
      ]

  -- `Sweep` keeps a valid store valid, for every policy that keeps the interface's promises, and ends
  -- its loop of evictions: the store is then within its limits or gives no victim.
  pub sweep-IsValid :
      (clock : Bytes → ℕ) (draws : ℕ → ℕ) (s : Store P Z)
      → IsValid L K s
      → IsValid L K (sweep clock draws s).0 × Ends (sweep clock draws s).0
  unfolding sweep IsValid Clean Evicts
  sweep-IsValid clock draws s v =
      let w = sweep_entries-IsValid clock s.records s v.0.0 (λ j r e. e) v in
      let (a, b, c, d) = evict_locked-Evicts L K draws (sweep_entries clock s.records s).0 w in
      (a, b)

module _ {P : EvictionPolicy} (L : Laws P) {Z : SortedSets} (K : SetLaws Z) where
  -- `New` makes a valid store, for every policy that keeps the interface's promises.
  pub new_store-IsValid :
      (t : SortedSetType) (max_entries max_memory : ℤ)
      → IsValid L K (new_store {Z = Z} t max_entries max_memory (some P.initial))
  unfolding new_store IsValid Clean total lookup Knows
  new_store-IsValid t max_entries max_memory =
      ((tt, λ j r e. cc), refl, (L.initial-Valid, λ j. L.tracks-initial j))
