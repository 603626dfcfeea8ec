-- ===== src/Storage/Store/Sketches/Keeps.antt =====
-- The store's operations on count-min sketches of internal/storage/count_min_sketch.go and the
-- invariant of the store.
use redis_course.Base.{
  ℕ, ◌+◌, ◌≡◌, inl, inr, refl, sym, ap, ◌∙◌, some, List, [], ◌∷◌, Bytes, same_refl, Bool-cases,
  Option-cases, length, map,
}
use redis_course.Base.GoMap.{lookup, lookup-insert}
use redis_course.Base.Made.{Made, made, invalid, too_large}
use redis_course.Storage.CountMinSketch.{CountMinSketch, size, increment, query}
use redis_course.Storage.CountMinSketch.Underestimates.{increment_keeps}
use redis_course.Storage.SortedSet.{SetLaws}
use redis_course.Storage.Eviction.{EvictionPolicy, Laws}
use redis_course.Storage.Store.{
  SortedSets, Value, string, simple_set, sorted_set, count_min_sketch, bloom_filter, value_size,
  record_size, Record, Store, notify_access, remove_expired, is_expired,
}
use redis_course.Storage.Store.Valid.{
  ValueOk, IsValid, same_size-IsValid, notify_access-IsValid, remove_expired-IsValid,
}
use redis_course.Storage.Store.Strings.Keeps.{insert_record-IsValid, lookup-remove_expired}
use redis_course.Storage.Store.Sketches.{
  SketchReply, ok, err, CmsIncrement, is_sketch_type, sketch_value, as_sketch, increments,
  sketch_record, count_min_sketch_locked, write_sketch, cms_init_sketch, cms_incr_by, cms_query,
  cms_info,
}

-- Increments keep the size of a sketch.
SameShape : CountMinSketch → CountMinSketch → Type 0
SameShape t s = (t.width ≡ s.width) × (t.depth ≡ s.depth)

increments-SameShape :
    (is : List CmsIncrement) (s : CountMinSketch) → SameShape (increments is s).0 s
unfolding increments SameShape
increments-SameShape [] s = (refl, refl)
increments-SameShape (i ∷ is) s = elim (Option-cases (increment s i.item i.value)) [
  | inl e ↦ rw (e, increments) (refl, refl)
  | inr (t, e) ↦
      let (w, d) = increment_keeps s t i.item i.value e in
      let (w', d') = increments-SameShape is t in
      rw (e, increments) (go t (increments is t) (w' ∙ w, d' ∙ d))
]
  where
    go :
        (t : CountMinSketch) (p : CountMinSketch × SketchReply (List ℕ))
        → SameShape p.0 s
        → SameShape
            (elim p.1 as (λ x. CountMinSketch × SketchReply (List ℕ)) [
              | err e ↦ (p.0, err e)
              | ok counts ↦ (p.0, ok (query t i.item ∷ counts))
            ]).0
            s
    go t (u, err e) h = h
    go t (u, ok counts) h = h

module _ {Z : SortedSets} where
  sketch_value-inv :
      (v : Value Z) (k : CountMinSketch) → sketch_value v ≡ some k → v ≡ count_min_sketch k
  unfolding sketch_value
  sketch_value-inv (string s) k h = cc
  sketch_value-inv (simple_set s) k h = cc
  sketch_value-inv (sorted_set s) k h = cc
  sketch_value-inv (count_min_sketch s) k h = cc
  sketch_value-inv (bloom_filter f) k h = cc

  as_sketch-value :
      (r : Record Z) (k : CountMinSketch) → as_sketch r ≡ some k → r.value ≡ count_min_sketch k
  unfolding as_sketch
  as_sketch-value r k h = elim (Bool-cases (is_sketch_type r.type)) [
    | inl e ↦ sketch_value-inv r.value k (rw e at h)
    | inr e ↦ cc (rw e at h)
  ]

  sketch-size :
      (key : Bytes) (r : Record Z) (k t : CountMinSketch)
      → r.value ≡ count_min_sketch k
      → SameShape t k
      → record_size key (record r { value = count_min_sketch t }) ≡ record_size key r
  unfolding record_size value_size size SameShape
  sketch-size key r k t h (w, d) =
      let s = ap value_size h in ap (λ (n : ℕ). length key + n) (rw (w, d) (sym s))

module _ {P : EvictionPolicy} (L : Laws P) {Z : SortedSets} (K : SetLaws Z) where
  -- What `countMinSketchLocked` finds.
  unfoldable pub Found : Bytes → Store P Z → SketchReply CountMinSketch → Type 0
  Found key s (err e) = Unit
  Found key s (ok k) =
      (r : Record Z) × (lookup key s.records ≡ some r) × (r.value ≡ count_min_sketch k)

  pub locked-Found :
      (now : ℕ) (key : Bytes) (s : Store P Z) → Found key s (count_min_sketch_locked now key s)
  unfolding count_min_sketch_locked Found
  locked-Found now key s = elim (Option-cases (lookup key s.records)) [
    | inl e ↦ rw (e, count_min_sketch_locked) tt
    | inr (r, e) ↦ elim (Bool-cases (is_expired now r)) [
      | inl x ↦ rw (e, x, count_min_sketch_locked) tt
      | inr x ↦ elim (Option-cases (as_sketch r)) [
        | inl n ↦ rw (e, x, n, count_min_sketch_locked) tt
        | inr (f, n) ↦ rw (e, x, n, count_min_sketch_locked) (r, e, as_sketch-value r f n)
      ]
    ]
  ]

  -- A reader of a sketch.
  read-IsValid :
      {A : Type 0} (now : ℕ) (key : Bytes) (s : Store P Z)
      → IsValid L K s
      → (answer : CountMinSketch → SketchReply A)
      → IsValid L K
          (elim (count_min_sketch_locked now key s) as (λ x. Store P Z × SketchReply A) [
            | err e ↦ (s, err e)
            | ok k ↦ (notify_access key s, answer k)
          ]).0
  unfolding Found
  read-IsValid {A} now key s v answer =
      go (count_min_sketch_locked now key s) (locked-Found now key s)
    where
      go :
          (reply : SketchReply CountMinSketch)
          → Found key s reply
          → IsValid L K
              (elim reply as (λ x. Store P Z × SketchReply A) [
                | err e ↦ (s, err e)
                | ok k ↦ (notify_access key s, answer k)
              ]).0
      go (err e) h = v
      go (ok k) (r, e, q) = notify_access-IsValid L K key r s e v

  -- `CMSQuery` keeps a store valid.
  pub cms_query-IsValid :
      (now : ℕ) (key : Bytes) (items : List Bytes) (s : Store P Z)
      → IsValid L K s
      → IsValid L K (cms_query now key items s).0
  unfolding cms_query
  cms_query-IsValid now key items s v =
      read-IsValid now key s v (λ k. ok (map (λ item. query k item) items))

  -- `CMSInfo` keeps a store valid.
  pub cms_info-IsValid :
      (now : ℕ) (key : Bytes) (s : Store P Z) → IsValid L K s → IsValid L K (cms_info now key s).0
  unfolding cms_info
  cms_info-IsValid now key s v =
      read-IsValid now key s v
        (λ k. ok (record { width = k.width; depth = k.depth; count = k.count }))

  -- `CMSIncrBy` keeps a store valid, when it fails too.
  pub cms_incr_by-IsValid :
      (now : ℕ) (key : Bytes) (is : List CmsIncrement) (s : Store P Z)
      → IsValid L K s
      → IsValid L K (cms_incr_by now key is s).0
  unfolding cms_incr_by write_sketch Found ValueOk
  cms_incr_by-IsValid now key is s v =
      go (count_min_sketch_locked now key s) (locked-Found now key s)
    where
      changed :
          (k : CountMinSketch)
          → Found key s (ok k)
          → IsValid L K (write_sketch key (increments is k).0 s)
            × ((q : Record Z) × (lookup key (write_sketch key (increments is k).0 s).records
                  ≡ some q))
      changed k (r, e, q) =
          let t : Record Z = record r { value = count_min_sketch (increments is k).0 } in
          rw (e, write_sketch)
            (
              same_size-IsValid L K key r t s e tt
                  (sketch-size key r k (increments is k).0 q (increments-SameShape is k)) v,
              (t, lookup-insert key key t s.records ∙ rw (same_refl key) refl),
            )

      after :
          (reply : SketchReply (List ℕ)) (k : CountMinSketch)
          → IsValid L K (write_sketch key (increments is k).0 s)
          → (q : Record Z) → lookup key (write_sketch key (increments is k).0 s).records ≡ some q
          → IsValid L K
              (elim reply as (λ x. Store P Z × SketchReply (List ℕ)) [
                | err e ↦ (write_sketch key (increments is k).0 s, err e)
                | ok counts ↦
                    (notify_access key (write_sketch key (increments is k).0 s), ok counts)
              ]).0
      after (err e) k w q f = w
      after (ok counts) k w q f =
          notify_access-IsValid L K key q (write_sketch key (increments is k).0 s) f w

      go :
          (reply : SketchReply CountMinSketch)
          → Found key s reply
          → IsValid L K
              (elim reply as (λ x. Store P Z × SketchReply (List ℕ)) [
                | err e ↦ (s, err e)
                | ok k ↦ elim (increments is k).1 as (λ x. Store P Z × SketchReply (List ℕ)) [
                  | err e ↦ (write_sketch key (increments is k).0 s, err e)
                  | ok counts ↦
                      (notify_access key (write_sketch key (increments is k).0 s), ok counts)
                ]
              ]).0
      go (err e) h = v
      go (ok k) h = let (w, (q, f)) = changed k h in after (increments is k).1 k w q f

  -- `CMSInit` and `CMSInitByProbability` keep a store valid.
  pub cms_init_sketch-IsValid :
      (now : ℕ) (draws : ℕ → ℕ) (key : Bytes) (sketch : Made CountMinSketch) (s : Store P Z)
      → IsValid L K s
      → IsValid L K (cms_init_sketch now draws key sketch s).0
  unfolding cms_init_sketch sketch_record ValueOk
  cms_init_sketch-IsValid now draws key invalid s v = v
  cms_init_sketch-IsValid now draws key too_large s v = v
  cms_init_sketch-IsValid now draws key (made k) s v = elim (Option-cases (lookup key s.records)) [
    | inl e ↦
        rw (e, cms_init_sketch) (insert_record-IsValid L K draws key (sketch_record k) s e tt v)
    | inr (r, e) ↦ elim (Bool-cases (is_expired now r)) [
      | inl x ↦
          rw (e, x, cms_init_sketch)
            (insert_record-IsValid L K draws key (sketch_record k) (remove_expired key r s)
              (lookup-remove_expired key r s) tt (remove_expired-IsValid L K key r s e v))
      | inr x ↦ rw (e, x, cms_init_sketch) v
    ]
  ]
