-- ===== src/Storage/Store/Sketches/Merges.antt =====
-- `CMSMerge` of internal/storage/count_min_sketch.go and the invariant of the store.
use redis_course.Base.{
  ℕ, suc, ◌≡◌, inl, inr, not, ◌||◌, some, List, [], ◌∷◌, Bytes, Bool-cases, Option-cases, length,
  ◌==◌,
}
use redis_course.Base.GoMap.{lookup}
use redis_course.Storage.CountMinSketch.{CountMinSketch}
use redis_course.Storage.SortedSet.{SetLaws}
use redis_course.Storage.Eviction.{EvictionPolicy, Laws}
use redis_course.Storage.Store.{
  SortedSets, Record, Store, notify_access, remove_expired, is_expired,
}
use redis_course.Storage.Store.Valid.{
  ValueOk, IsValid, notify_access-IsValid, remove_expired-IsValid,
}
use redis_course.Storage.Store.Strings.Keeps.{
  insert_record-IsValid, overwrite_record-IsValid, lookup-remove_expired,
}
use redis_course.Storage.Store.Sketches.{
  SketchReply, ok, err, is_sketch_type, sketch_record, count_min_sketch_locked, collect_sources,
  merge_collected, write_merged, cms_merge,
}
use redis_course.Storage.Store.Sketches.Keeps.{Found, locked-Found}

module _ {P : EvictionPolicy} (L : Laws P) {Z : SortedSets} (K : SetLaws Z) where
  collect_sources-IsValid :
      (now : ℕ → ℕ) (i : ℕ) (keys : List Bytes) (s : Store P Z)
      → IsValid L K s
      → IsValid L K (collect_sources now i keys s).0
  unfolding collect_sources Found
  collect_sources-IsValid now i [] s v = v
  collect_sources-IsValid now i (key ∷ keys) s v =
      go (count_min_sketch_locked (now i) key s) (locked-Found L K (now i) key s) (λ r e.
        collect_sources-IsValid now (suc i) keys (notify_access key s)
          (notify_access-IsValid L K key r s e v))
    where
      after :
          (k : CountMinSketch) (p : Store P Z × SketchReply (List CountMinSketch))
          → IsValid L K p.0
          → IsValid L K
              (elim p.1 as (λ x. Store P Z × SketchReply (List CountMinSketch)) [
                | err e ↦ (p.0, err e)
                | ok sketches ↦ (p.0, ok (k ∷ sketches))
              ]).0
      after k (t, err e) w = w
      after k (t, ok ks) w = w

      go :
          (reply : SketchReply CountMinSketch)
          → Found L K key s reply
          → ((r : Record Z)
              → lookup key s.records ≡ some r
              → IsValid L K (collect_sources now (suc i) keys (notify_access key s)).0)
          → IsValid L K
              (elim reply as (λ x. Store P Z × SketchReply (List CountMinSketch)) [
                | err e ↦ (s, err e)
                | ok k ↦
                    elim (collect_sources now (suc i) keys (notify_access key s)).1
                      as (λ x. Store P Z × SketchReply (List CountMinSketch)) [
                        | err e ↦
                            ((collect_sources now (suc i) keys (notify_access key s)).0, err e)
                        | ok sketches ↦ (
                          (collect_sources now (suc i) keys (notify_access key s)).0,
                          ok (k ∷ sketches),
                        )
                      ]
              ]).0
      go (err e) h ih = v
      go (ok k) (r, e, q) ih =
          after k (collect_sources now (suc i) keys (notify_access key s)) (ih r e)

  write_merged-IsValid :
      (now : ℕ) (draws : ℕ → ℕ) (key : Bytes) (k : CountMinSketch) (s : Store P Z)
      → IsValid L K s
      → IsValid L K (write_merged now draws key k s).0
  unfolding write_merged sketch_record ValueOk
  write_merged-IsValid now draws key k s v = elim (Option-cases (lookup key s.records)) [
    | inl e ↦ rw (e, write_merged) (insert_record-IsValid L K draws key (sketch_record k) s e tt v)
    | inr (r, e) ↦ elim (Bool-cases (is_expired now r)) [
      | inl x ↦
          rw (e, x, write_merged)
            (insert_record-IsValid L K draws key (sketch_record k) (remove_expired key r s)
              (lookup-remove_expired key r s) tt (remove_expired-IsValid L K key r s e v))
      | inr x ↦ elim (Bool-cases (is_sketch_type r.type)) [
        | inl y ↦
            rw (e, x, y, write_merged)
              (overwrite_record-IsValid L K draws key r (sketch_record k) s e tt v)
        | inr y ↦ rw (e, x, y, write_merged) v
      ]
    ]
  ]

  -- `CMSMerge` keeps a store valid.
  pub cms_merge-IsValid :
      (now : ℕ → ℕ) (draws : ℕ → ℕ) (key : Bytes) (keys : List Bytes) (weights : List ℕ)
      (s : Store P Z)
      → IsValid L K s
      → IsValid L K (cms_merge now draws key keys weights s).0
  unfolding cms_merge
  cms_merge-IsValid now draws key keys weights s v =
      elim (Bool-cases ((length keys == 0) || not (length keys == length weights))) [
        | inl e ↦ rw (e, cms_merge) v
        | inr e ↦
            rw (e, cms_merge)
              (go (collect_sources now 0 keys s) (collect_sources-IsValid now 0 keys s v))
      ]
    where
      merged :
          (t : Store P Z) (reply : SketchReply CountMinSketch)
          → IsValid L K t
          → IsValid L K
              (elim reply as (λ x. Store P Z × SketchReply (Unit {0})) [
                | err e ↦ (t, err e)
                | ok k ↦ write_merged (now (length keys)) draws key k t
              ]).0
      merged t (err e) w = w
      merged t (ok k) w = write_merged-IsValid (now (length keys)) draws key k t w

      go :
          (p : Store P Z × SketchReply (List CountMinSketch))
          → IsValid L K p.0
          → IsValid L K
              (elim p.1 as (λ x. Store P Z × SketchReply (Unit {0})) [
                | err e ↦ (p.0, err e)
                | ok sources ↦
                    elim (merge_collected sources weights)
                      as (λ x. Store P Z × SketchReply (Unit {0})) [
                        | err e ↦ (p.0, err e)
                        | ok k ↦ write_merged (now (length keys)) draws key k p.0
                      ]
              ]).0
      go (t, err e) w = w
      go (t, ok sources) w = merged t (merge_collected sources weights) w
