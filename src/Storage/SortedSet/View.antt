-- ===== src/Storage/SortedSet/View.antt =====
-- The ranking of a sorted set, and the bytes that a store counts for it.
use redis_course.Base.{
  ℕ, zero, suc, ◌+◌, ◌-◌, ◌≤◌, ◌≡◌, refl, ap, ◌∙◌, false, inl, inr, not, none, some, List, [], ◌∷◌,
  Bytes, arith, ◌==◌, if◌then◌else◌, length, take, same, same_iff, Bool-cases, Option-cases, leb,
}
use redis_course.Base.Int.{pos}
use redis_course.Base.GoMap.{lookup, has, delete, total, IsDistinct, total-delete, delete_absent}
use redis_course.Storage.Float64.{Float64, is_nan, float_eq}
use redis_course.Storage.SortedSet.{
  SortedSets, SetLaws, Ranking, place, ranking_add, members_of, slice, sum_sizes, sorted_set_size,
  sorted_set_member_size, less, first_rank, end_rank,
}

abbrev pub ranked_size : Bytes → Float64 → ℕ
ranked_size m x = sorted_set_member_size m

sum_sizes-members_of : (v : Ranking) → sum_sizes (members_of v) ≡ total ranked_size v
unfolding sum_sizes total
sum_sizes-members_of [] = refl
sum_sizes-members_of ((m, x) ∷ v) = omega (arith, sum_sizes-members_of v)

pub length-members_of : (v : Ranking) → length (members_of v) ≡ length v
length-members_of [] = refl
length-members_of ((m, x) ∷ v) = ap suc (length-members_of v)

take-length : (n : ℕ) (ms : List Bytes) → length ms ≤ n → take n ms ≡ ms
take-length zero [] h = refl
take-length (suc n) [] h = refl
take-length zero (m ∷ ms) h = absurd (omega arith)
take-length (suc n) (m ∷ ms) h = ap (λ t. m ∷ t) (take-length n ms (omega arith))

slice_all : (m : Bytes) (ms : List Bytes) → slice (pos 0) (pos (length ms)) (m ∷ ms) ≡ m ∷ ms
unfolding slice first_rank end_rank
slice_all m ms =
    let e : leb (suc (length ms)) (length ms) ≡ false = ground arith in
    rw e (ap (λ t. m ∷ t) (take-length (length ms) ms (omega arith)))

-- A member's record is counted once.
pub total-place :
    (m : Bytes) (x : Float64) (v : Ranking)
    → total ranked_size (place m x v) ≡ total ranked_size v + sorted_set_member_size m
unfolding total place
total-place m x [] = omega arith
total-place m x ((n, y) ∷ v) = elim (Bool-cases (less y n x m)) [
  | inl e ↦ rw (e, place) (omega (arith, total-place m x v))
  | inr e ↦ rw (e, place) (omega arith)
]

pub lookup-place :
    (m j : Bytes) (x : Float64) (v : Ranking)
    → lookup m v ≡ none
    → lookup j (place m x v) ≡ (if same m j then some x else lookup j v)
unfolding lookup place
lookup-place m j x [] h = ground (arith, same_iff m j, same_iff j m)
lookup-place m j x ((n, y) ∷ v) h = elim (Bool-cases (less y n x m)) [
  | inl e ↦
      rw (e, place)
        (ground
          (arith, same_iff m j, same_iff j m, same_iff m n, same_iff j n, lookup-place m j x v))
  | inr e ↦ rw (e, place) (ground (arith, same_iff m j, same_iff j m, same_iff m n, same_iff j n))
]

module _ {Z : SortedSets} (K : SetLaws Z) where
  pub sorted_set_size-ranking :
      (s : Z.SortedSet) → K.Valid s → sorted_set_size Z s ≡ total ranked_size (K.ranking s)
  unfolding sorted_set_size total
  sorted_set_size-ranking s v =
      rw (K.len-ranking s v)
        (rw (K.range-ranking (pos 0) (pos (length (K.ranking s) - 1)) s v) (go (K.ranking s)))
    where
      go :
          (v : Ranking)
          → (if length v == 0
              then 0
              else sum_sizes (slice (pos 0) (pos (length v - 1)) (members_of v)))
            ≡ total ranked_size v
      go [] = refl
      go ((m, x) ∷ v) =
          let e : slice (pos 0) (pos (suc (length v) - 1)) (m ∷ members_of v) ≡ m ∷ members_of v =
            ap (λ (n : ℕ). slice (pos 0) (pos n) (m ∷ members_of v))
              (omega (arith, length-members_of v))
            ∙ slice_all m (members_of v) in
          let n : (suc (length v) == 0) ≡ false = ground arith in
          rw n (ap sum_sizes e ∙ sum_sizes-members_of ((m, x) ∷ v))

  -- What `add` and `remove` do to the size.
  pub add-size :
      (m : Bytes) (x : Float64) (s : Z.SortedSet)
      → is_nan x ≡ false
      → K.Valid s
      → sorted_set_size Z (Z.add m x s).0
        ≡ sorted_set_size Z s + (if (Z.add m x s).1 then sorted_set_member_size m else 0)
  unfolding ranking_add
  add-size m x s n v =
      let (e, b) = K.ranking-add m x s n v in
      let d = K.ranking-IsDistinct s v in
      rw
        (
          sorted_set_size-ranking (Z.add m x s).0 (K.add-Valid m x s n v),
          sorted_set_size-ranking s v,
          e,
          b,
        )
        (go (K.ranking s) d)
    where
      go :
          (v : Ranking)
          → IsDistinct v
          → total ranked_size (ranking_add m x v)
            ≡ total ranked_size v + (if not (has m v) then sorted_set_member_size m else 0)
      go v d = elim (Option-cases (lookup m v)) [
        | inl e ↦ rw (e, ranking_add, has) (total-place m x v)
        | inr (y, e) ↦ elim (Bool-cases (float_eq y x)) [
          | inl q ↦ rw (e, q, ranking_add, has) (omega arith)
          | inr q ↦
              let a = total-place m x (delete m v) in
              let b = total-delete ranked_size m y v d e in
              rw (e, q, ranking_add, has) (omega arith)
        ]
      ]

  pub remove-size :
      (m : Bytes) (s : Z.SortedSet)
      → K.Valid s
      → sorted_set_size Z (Z.remove m s).0
          + (if (Z.remove m s).1 then sorted_set_member_size m else 0)
        ≡ sorted_set_size Z s
  remove-size m s v =
      let (e, b) = K.ranking-remove m s v in
      rw
        (
          sorted_set_size-ranking (Z.remove m s).0 (K.remove-Valid m s v),
          sorted_set_size-ranking s v,
          e,
          b,
        )
        (go (K.ranking s) (K.ranking-IsDistinct s v))
    where
      go :
          (v : Ranking)
          → IsDistinct v
          → total ranked_size (delete m v) + (if has m v then sorted_set_member_size m else 0)
            ≡ total ranked_size v
      go v d = elim (Option-cases (lookup m v)) [
        | inl e ↦ rw (e, has, delete_absent m v e) (omega arith)
        | inr (y, e) ↦ rw (e, has) (total-delete ranked_size m y v d e)
      ]
