-- ===== src/Storage/Store/Capacity/Evicts.antt =====
-- `evictLocked` of internal/storage/eviction.go.
use redis_course.Base.{
  ℕ, zero, suc, ◌+◌, ◌≤◌, ◌≡◌, ◌⊎◌, inl, inr, refl, sym, ◌∙◌, arith, true, false, Option, none,
  some, [], ◌∷◌, Bytes, same, length, Bool-cases, Option-cases,
}
use redis_course.Base.GoMap.{GoMap, lookup, delete, has, has-true, length-delete, lookup-delete}
use redis_course.Storage.SortedSet.{SetLaws}
use redis_course.Storage.Eviction.{EvictionPolicy, Laws}
use redis_course.Storage.Store.{
  SortedSets, Record, Store, track_remove, drop_key, notify_remove, shrink_memory,
}
use redis_course.Storage.Store.Valid.{Clean, Knows, IsValid, track_remove-IsValid}
use redis_course.Storage.Store.Capacity.{
  over_capacity, evict_key, victim_of, evict_loop, evict_locked, counted,
}

-- The loop of `evictLocked` ends here: the store is within its limits, or has no victim.
pub Ends : {P : EvictionPolicy} {Z : SortedSets} → Store P Z → Type 0
Ends {P} s =
    (over_capacity s ≡ false) ⊎ ((draw : ℕ) → victim_of (P.victim draw) s.eviction_policy ≡ none)

-- Every record of the second store stands in the first one.
unfoldable pub Keeps : {P : EvictionPolicy} {Z : SortedSets} → Store P Z → Store P Z → Type 0
Keeps s t = (j : Bytes) → (lookup j t.records ≡ lookup j s.records) ⊎ (lookup j t.records ≡ none)

module _ {P : EvictionPolicy} (L : Laws P) {Z : SortedSets} (K : SetLaws Z) where
  -- A victim of a valid store is one of its keys.
  victim-stored :
      (draw : ℕ) (s : Store P Z) (k : Bytes)
      → IsValid L K s
      → victim_of (P.victim draw) s.eviction_policy ≡ some k
      → has k s.records ≡ true
  unfolding IsValid victim_of
  victim-stored draw s k (d, m, w) e = go s.eviction_policy w e
    where
      go :
          (p : Option P.State)
          → Knows L K p s.records
          → victim_of (P.victim draw) p ≡ some k
          → has k s.records ≡ true
      go none w e = cc
      go (some p) (v, t) e = sym (t k) ∙ L.victim-tracked draw p k v e

  -- One round with a victim in hand.
  Round : Bytes → Store P Z → Type 0
  Round k s =
      IsValid L K (evict_key k s).0
      × (suc (length (evict_key k s).0.records) ≡ length s.records)
      × ((evict_key k s).1 ≡ true)
      × Keeps s (evict_key k s).0

  kept_but :
      (k j : Bytes) (m : GoMap (Record Z))
      → (lookup j (delete k m) ≡ lookup j m) ⊎ (lookup j (delete k m) ≡ none)
  kept_but k j m = elim (Bool-cases (same k j)) [
    | inl e ↦ inr (lookup-delete k j m ∙ rw e refl)
    | inr e ↦ inl (lookup-delete k j m ∙ rw e refl)
  ]

  round : (k : Bytes) (s : Store P Z) → IsValid L K s → has k s.records ≡ true → Round k s
  unfolding Round evict_key track_remove drop_key shrink_memory notify_remove Keeps IsValid Clean
  round k s v h =
      let (r, e) = has-true k s.records h in
      rw (e, evict_key)
        (
          track_remove-IsValid L K k r s e v,
          length-delete k r s.records v.0.0 e,
          refl,
          λ j. kept_but k j s.records,
        )

  no_victim :
      (s : Store P Z)
      → IsValid L K s
      → ((k : Bytes) → has k s.records ≡ false)
      → (draw : ℕ) → victim_of (P.victim draw) s.eviction_policy ≡ none
  no_victim s v h draw = elim (Option-cases (victim_of (P.victim draw) s.eviction_policy)) [
    | inl e ↦ e
    | inr (k, e) ↦ let b = victim-stored draw s k v e in let c = h k in cc
  ]

  -- A valid store that gives no victim has a policy of nil or no keys.
  victim-none-Ends :
      (draw : ℕ) (s : Store P Z)
      → IsValid L K s
      → victim_of (P.victim draw) s.eviction_policy ≡ none
      → (other : ℕ) → victim_of (P.victim other) s.eviction_policy ≡ none
  unfolding IsValid victim_of
  victim-none-Ends draw s v e other = go s.eviction_policy v.2 e
    where
      go :
          (p : Option P.State)
          → Knows L K p s.records
          → victim_of (P.victim draw) p ≡ none
          → victim_of (P.victim other) p ≡ none
      go none w e = refl
      go (some p) (q, t) e = elim (Option-cases (P.victim other p)) [
        | inl f ↦ f
        | inr (k, f) ↦
            let b = L.victim-tracked other p k q f in let c = L.victim-none draw p k q e in cc
      ]

  unfoldable pub Evicts : Store P Z → Store P Z × ℕ → Type 0
  Evicts s (t, n) = IsValid L K t × Ends t × Keeps s t × (length t.records + n ≡ length s.records)

  stays : (s : Store P Z) → IsValid L K s → Ends s → Evicts s (s, 0)
  unfolding Evicts Keeps
  stays s v e = (v, e, λ j. inl refl, omega arith)

  Keeps-trans : (s t u : Store P Z) → Keeps s t → Keeps t u → Keeps s u
  unfolding Keeps
  Keeps-trans s t u f g = λ j. elim (g j) [
    | inl e ↦ elim (f j) [ inl d ↦ inl (e ∙ d) | inr d ↦ inr (e ∙ d) ]
    | inr e ↦ inr e
  ]

  empty-has : (m : GoMap (Record Z)) → length m ≤ 0 → (k : Bytes) → has k m ≡ false
  unfolding lookup
  empty-has [] h k = refl
  empty-has (e ∷ m) h k = ground arith

  less :
      (k : Bytes) (s : Store P Z) (n : ℕ)
      → Round k s
      → length s.records ≤ suc n
      → length (evict_key k s).0.records ≤ n
  unfolding Round
  less k s n (w, l, one, f) h = omega arith

  one_round :
      (k : Bytes) (s : Store P Z) (r : Store P Z × ℕ)
      → Round k s
      → Evicts (evict_key k s).0 r
      → Evicts s (r.0, counted (evict_key k s).1 r.1)
  unfolding Round Evicts counted
  one_round k s r (w, l, one, f) (a, b, g, c) =
      (a, b, Keeps-trans s (evict_key k s).0 r.0 f g, rw (one, counted) (omega arith))

  pub evict_loop-Evicts :
      (draws : ℕ → ℕ) (n : ℕ) (s : Store P Z)
      → length s.records ≤ n
      → IsValid L K s
      → Evicts s (evict_loop draws n s)
  unfolding evict_loop Ends Round
  evict_loop-Evicts draws zero s h v = stays s v (inr (no_victim s v (empty-has s.records h)))
  evict_loop-Evicts draws (suc n) s h v = elim (Bool-cases (over_capacity s)) [
    | inr c ↦ rw (c, evict_loop) (stays s v (inl c))
    | inl c ↦ elim (Option-cases (victim_of (P.victim (draws n)) s.eviction_policy)) [
      | inl e ↦ rw (c, e, evict_loop) (stays s v (inr (victim-none-Ends (draws n) s v e)))
      | inr (k, e) ↦
          rw (c, e, evict_loop)
            ((let r = round k s v (victim-stored (draws n) s k v e) in
              one_round k s (evict_loop draws n (evict_key k s).0) r
                (evict_loop-Evicts draws n (evict_key k s).0 (less k s n r h) r.0)))
    ]
  ]

  -- `evictLocked` on a valid store runs to the end of its loop, for every policy that keeps the
  -- interface's promises: the store is then within its limits or gives no victim. It stays valid, each
  -- key has its record or none, and the number returned is that of the records gone.
  pub evict_locked-Evicts :
      (draws : ℕ → ℕ) (s : Store P Z) → IsValid L K s → Evicts s (evict_locked draws s)
  unfolding evict_locked
  evict_locked-Evicts draws s v = evict_loop-Evicts draws (length s.records) s (omega arith) v
