-- ===== src/Storage/SortedSet/Sorted.antt =====
-- Sorted sets as sorted lists: the reference against which an index is measured, and an index of its
-- own.
use redis_course.Base.{
  ◌≡◌, refl, ◌∙◌, false, not, inl, inr, none, [], ◌∷◌, Bytes, same, same_refl, if◌then◌else◌,
  length, Bool-cases, Option-cases,
}
use redis_course.Base.GoMap.{lookup, has, delete, IsDistinct, lookup-delete, delete-IsDistinct}
use redis_course.Storage.Float64.{Float64, is_nan, float_eq}
use redis_course.Storage.SortedSet.{
  SortedSets, SetLaws, Ranking, less, place, position, slice, members_of, ranking_add, InOrder,
}
use redis_course.Storage.SortedSet.Order.{ranking_add-InOrder, delete-InOrder}
use redis_course.Storage.SortedSet.View.{lookup-place}

place-IsDistinct :
    (m : Bytes) (x : Float64) (v : Ranking)
    → lookup m v ≡ none
    → IsDistinct v
    → IsDistinct (place m x v)
unfolding place lookup
place-IsDistinct m x [] h d = (refl, tt)
place-IsDistinct m x ((n, y) ∷ v) h d = elim (Bool-cases (less y n x m)) [
  | inr e ↦ rw (e, place) (h, d)
  | inl e ↦ elim (Bool-cases (same m n)) [
    | inl s ↦ cc (rw s at h)
    | inr s ↦
        let k : lookup m v ≡ none = rw s at h in
        rw (e, place) (lookup-place m n x v k ∙ rw s d.0, place-IsDistinct m x v k d.1)
  ]
]

pub ranking_add-IsDistinct :
    (m : Bytes) (x : Float64) (v : Ranking) → IsDistinct v → IsDistinct (ranking_add m x v)
unfolding ranking_add
ranking_add-IsDistinct m x v d = elim (Option-cases (lookup m v)) [
  | inl e ↦ rw (e, ranking_add) (place-IsDistinct m x v e d)
  | inr (y, e) ↦ elim (Bool-cases (float_eq y x)) [
    | inl q ↦ rw (e, q, ranking_add) d
    | inr q ↦
        rw (e, q, ranking_add)
          (place-IsDistinct m x (delete m v) (lookup-delete m m v ∙ rw (same_refl m) refl)
            (delete-IsDistinct m v d))
  ]
]

abbrev pub sorted_lists : SortedSets
sorted_lists = record {
  SortedSet = Ranking;
  new_sorted_set = λ t. [];
  add = λ m x v. (ranking_add m x v, not (has m v));
  update = λ m x v. (if has m v then ranking_add m x v else v, has m v);
  remove = λ m v. (delete m v, has m v);
  get_member_score = lookup;
  get_rank = position;
  get_range = λ start stop v. slice start stop (members_of v);
  is_member = has;
  len = length;
}

update-InOrder :
    (m : Bytes) (x : Float64) (v : Ranking)
    → is_nan x ≡ false
    → InOrder v
    → InOrder (if has m v then ranking_add m x v else v)
update-InOrder m x v p o = elim (Bool-cases (has m v)) [
  | inl e ↦ rw e (ranking_add-InOrder m x v p o)
  | inr e ↦ rw e o
]

update-IsDistinct :
    (m : Bytes) (x : Float64) (v : Ranking)
    → IsDistinct v
    → IsDistinct (if has m v then ranking_add m x v else v)
update-IsDistinct m x v d = elim (Bool-cases (has m v)) [
  | inl e ↦ rw e (ranking_add-IsDistinct m x v d)
  | inr e ↦ rw e d
]

-- Sorted lists keep the index's promises.
pub sorted_lists-Laws : SetLaws sorted_lists
sorted_lists-Laws = record {
  Valid = λ v. IsDistinct v × InOrder v;
  ranking = λ v. v;
  ranking-IsDistinct = λ v (d, o). d;
  ranking-InOrder = λ v (d, o). o;
  Trusted = Unit;
  new-Valid = λ t c. (tt, tt);
  ranking-new = λ t. refl;
  add-Valid = λ m x v n (d, o). (ranking_add-IsDistinct m x v d, ranking_add-InOrder m x v n o);
  ranking-add = λ m x v n d. (refl, refl);
  update-Valid = λ m x v n (d, o). (update-IsDistinct m x v d, update-InOrder m x v n o);
  ranking-update = λ m x v n d. (refl, refl);
  remove-Valid = λ m v (d, o). (delete-IsDistinct m v d, delete-InOrder m v o);
  ranking-remove = λ m v d. (refl, refl);
  score-ranking = λ m v d. refl;
  rank-ranking = λ m v d. refl;
  range-ranking = λ start stop v d. refl;
  member-ranking = λ m v d. refl;
  len-ranking = λ v d. refl;
}
