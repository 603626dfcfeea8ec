-- ===== src/Storage/SortedSet/Order.antt =====
-- The order of the members of a sorted set, `less` of skip_list.go.
use redis_course.Base.{
  ◌≡◌, refl, ◌∙◌, arith, true, false, not, ◌&&◌, ◌||◌, inl, inr, none, [], ◌∷◌, Bytes, same,
  same_refl, Bool-cases, Option-cases, All,
}
use redis_course.Base.Int.{ltb_ℤ}
use redis_course.Base.Order.{string_le, string_lt}
use redis_course.Base.GoMap.{lookup, delete, lookup-delete}
use redis_course.Storage.Float64.{Float64, is_nan, signed, float_lt, float_eq}
use redis_course.Storage.SortedSet.{Ranking, less, place, ranking_add, InOrder}

string_le_total : (a b : Bytes) → string_le a b ≡ false → string_le b a ≡ true
unfolding string_le
string_le_total [] [] h = ground arith
string_le_total [] (y ∷ b) h = ground arith
string_le_total (x ∷ a) [] h = ground arith
string_le_total (x ∷ a) (y ∷ b) h = ground (arith, string_le_total a b)

string_le_trans :
    (a b c : Bytes) → string_le a b ≡ true → string_le b c ≡ true → string_le a c ≡ true
unfolding string_le
string_le_trans [] b c h k = refl
string_le_trans (x ∷ a) [] c h k = ground arith
string_le_trans (x ∷ a) (y ∷ b) [] h k = ground arith
string_le_trans (x ∷ a) (y ∷ b) (z ∷ c) h k = ground (arith, string_le_trans a b c)

string_le_antisym : (a b : Bytes) → string_le a b ≡ true → string_le b a ≡ true → same a b ≡ true
unfolding string_le same
string_le_antisym [] [] h k = refl
string_le_antisym [] (y ∷ b) h k = ground arith
string_le_antisym (x ∷ a) [] h k = ground arith
string_le_antisym (x ∷ a) (y ∷ b) h k = ground (arith, string_le_antisym a b)

string_lt_trans :
    (a b c : Bytes) → string_lt a b ≡ true → string_lt b c ≡ true → string_lt a c ≡ true
unfolding string_lt
string_lt_trans a b c h k =
    ground (
      arith,
      string_le_trans b c a,
      string_le_total c b,
      string_le_trans c a b,
      string_le_total b a,
    )

string_lt_connex : (a b : Bytes) → string_lt b a ≡ false → same a b ≡ false → string_lt a b ≡ true
unfolding string_lt
string_lt_connex a b h k = ground (arith, string_le_antisym a b)

float_lt-value :
    (x y : Float64)
    → is_nan x ≡ false
    → is_nan y ≡ false
    → float_lt x y ≡ ltb_ℤ (signed x) (signed y)
unfolding float_lt
float_lt-value x y h k = rw h (rw k refl)

float_eq-value :
    (x y : Float64)
    → is_nan x ≡ false
    → is_nan y ≡ false
    → float_eq x y ≡ (not (ltb_ℤ (signed x) (signed y)) && not (ltb_ℤ (signed y) (signed x)))
unfolding float_eq
float_eq-value x y h k = rw h (rw k refl)

less-value :
    (x y : Float64) (m n : Bytes)
    → is_nan x ≡ false
    → is_nan y ≡ false
    → less x m y n ≡ (
        ltb_ℤ (signed x) (signed y)
        || (not (ltb_ℤ (signed x) (signed y))
            && not (ltb_ℤ (signed y) (signed x))
            && string_lt m n))
unfolding less
less-value x y m n h k = rw (float_lt-value x y h k) (rw (float_eq-value x y h k) refl)

less_trans :
    (x y z : Float64) (l m n : Bytes)
    → is_nan x ≡ false
    → is_nan y ≡ false
    → is_nan z ≡ false
    → less x l y m ≡ true
    → less y m z n ≡ true
    → less x l z n ≡ true
less_trans x y z l m n p q r h k =
    let h' = rw (less-value x y l m p q) at h in
    let k' = rw (less-value y z m n q r) at k in
    rw (less-value x z l n p r) (ground (arith, string_lt_trans l m n))

less_connex :
    (x y : Float64) (m n : Bytes)
    → is_nan x ≡ false
    → is_nan y ≡ false
    → less y n x m ≡ false
    → same m n ≡ false
    → less x m y n ≡ true
less_connex x y m n p q h k =
    let h' = rw (less-value y x n m q p) at h in
    rw (less-value x y m n p q) (ground (arith, string_lt_connex m n))

abbrev Before : Float64 → Bytes → Bytes × Float64 → Type 0
Before x m (n, y) = (is_nan y ≡ false) × (less x m y n ≡ true)

place-Before :
    (k m : Bytes) (z x : Float64) (v : Ranking)
    → Before z k (m, x)
    → All (Before z k) v
    → All (Before z k) (place m x v)
unfolding place
place-Before k m z x [] h hs = (h, tt)
place-Before k m z x ((n, y) ∷ v) h (g, gs) = elim (Bool-cases (less y n x m)) [
  | inl e ↦ rw (e, place) (g, place-Before k m z x v h gs)
  | inr e ↦ rw (e, place) (h, (g, gs))
]

chain-Before :
    (x y : Float64) (m n : Bytes) (v : Ranking)
    → is_nan x ≡ false
    → Before x m (n, y)
    → All (Before y n) v
    → All (Before x m) v
chain-Before x y m n [] p h hs = tt
chain-Before x y m n ((k, z) ∷ v) p (q, h) ((r, g), gs) =
    ((r, less_trans x y z m n k p q r h g), chain-Before x y m n v p (q, h) gs)

pub place-InOrder :
    (m : Bytes) (x : Float64) (v : Ranking)
    → is_nan x ≡ false
    → lookup m v ≡ none
    → InOrder v
    → InOrder (place m x v)
unfolding place lookup
place-InOrder m x [] p h o = (p, tt, tt)
place-InOrder m x ((n, y) ∷ v) p h (q, b, o) = elim (Bool-cases (same m n)) [
  | inl s ↦ cc (rw s at h)
  | inr s ↦ elim (Bool-cases (less y n x m)) [
    | inl e ↦
        rw (e, place) (q, place-Before n m y x v (p, e) b, place-InOrder m x v p (rw s at h) o)
    | inr e ↦
        let c = less_connex x y m n p q e s in
        rw (e, place) (p, ((q, c), chain-Before x y m n v p (q, c) b), (q, b, o))
  ]
]

delete-All : (Q : Bytes × Float64 → Type 0) (m : Bytes) (v : Ranking) → All Q v → All Q (delete m v)
unfolding delete
delete-All Q m [] h = tt
delete-All Q m ((n, y) ∷ v) (h, hs) = elim (Bool-cases (same m n)) [
  | inl e ↦ rw e (delete-All Q m v hs)
  | inr e ↦ rw e (h, delete-All Q m v hs)
]

pub delete-InOrder : (m : Bytes) (v : Ranking) → InOrder v → InOrder (delete m v)
unfolding delete
delete-InOrder m [] o = tt
delete-InOrder m ((n, y) ∷ v) (q, b, o) = elim (Bool-cases (same m n)) [
  | inl e ↦ rw e (delete-InOrder m v o)
  | inr e ↦ rw e (q, delete-All (Before y n) m v b, delete-InOrder m v o)
]

-- `ranking_add` of a score that is a number keeps the members in the order of `less`: by score, and
-- by name where the scores are equal.
pub ranking_add-InOrder :
    (m : Bytes) (x : Float64) (v : Ranking)
    → is_nan x ≡ false
    → InOrder v
    → InOrder (ranking_add m x v)
unfolding ranking_add
ranking_add-InOrder m x v p o = elim (Option-cases (lookup m v)) [
  | inl e ↦ rw (e, ranking_add) (place-InOrder m x v p e o)
  | inr (y, e) ↦ elim (Bool-cases (float_eq y x)) [
    | inl q ↦ rw (e, q, ranking_add) o
    | inr q ↦
        rw (e, q, ranking_add)
          (place-InOrder m x (delete m v) p (lookup-delete m m v ∙ rw (same_refl m) refl)
            (delete-InOrder m v o))
  ]
]
