-- ===== src/Storage/SortedSet.antt =====
-- internal/storage/sorted_set_value.go: the interface that a sorted set has with its index, and what
-- the store relies on. A score is a float64.
pub mod View
pub mod Sorted
pub mod Order
use redis_course.Base.{
  ℕ, zero, suc, ◌+◌, ◌-◌, ◌≡◌, refl, Bool, true, false, not, ◌&&◌, ◌||◌, Option, none, some, List,
  [], ◌∷◌, Bytes, map, ◌==◌, if◌then◌else◌, length, take, drop, same, leb, All,
}
use redis_course.Base.Order.{string_lt}
use redis_course.Base.GoMap.{GoMap, lookup, has, delete, IsDistinct}
use redis_course.Base.Int.{ℤ, pos, negsuc}
use redis_course.Storage.Float64.{Float64, is_nan, float_lt, float_eq}

pub data SortedSetType : Type 0 where
  skip_list : SortedSetType
  b_plus_tree : SortedSetType

-- The methods of `sortedSetIndex`, and `NewSortedSet`.
pub record SortedSets : Type 1 where
  pub SortedSet : Type 0
  pub new_sorted_set : SortedSetType → SortedSet
  pub add : Bytes → Float64 → SortedSet → SortedSet × Bool
  pub update : Bytes → Float64 → SortedSet → SortedSet × Bool
  pub remove : Bytes → SortedSet → SortedSet × Bool
  pub get_member_score : Bytes → SortedSet → Option Float64
  pub get_rank : Bytes → SortedSet → Option ℕ
  pub get_range : ℤ → ℤ → SortedSet → List Bytes
  pub is_member : Bytes → SortedSet → Bool
  pub len : SortedSet → ℕ

unfoldable pub sorted_set_entry_overhead : ℕ
sorted_set_entry_overhead = 8

unfoldable pub sorted_set_member_size : Bytes → ℕ
unfolding sorted_set_entry_overhead
sorted_set_member_size member = length member + sorted_set_entry_overhead

unfoldable pub sum_sizes : List Bytes → ℕ
unfolding sorted_set_member_size
sum_sizes [] = 0
sum_sizes (m ∷ ms) = sorted_set_member_size m + sum_sizes ms

-- `size`
unfoldable pub sorted_set_size : (Z : SortedSets) → Z.SortedSet → ℕ
unfolding sum_sizes
sorted_set_size Z s =
    let total = sum_sizes (Z.get_range (pos 0) (pos (Z.len s - 1)) s) in
    if Z.len s == 0 then 0 else total

-- `less` of skip_list.go and `bPlusLess` of b_tree_plus.go.
unfoldable pub less : Float64 → Bytes → Float64 → Bytes → Bool
unfolding float_lt float_eq string_lt
less left_score left_member right_score right_member =
    float_lt left_score right_score
    || (float_eq left_score right_score && string_lt left_member right_member)

-- The abstract view of a sorted set: its members with their scores, in the order of their ranks.
abbrev pub Ranking : Type 0
Ranking = GoMap Float64

-- A new member stands before the first one that is not less.
unfoldable pub place : Bytes → Float64 → Ranking → Ranking
unfolding less
place m x [] = (m, x) ∷ []
place m x ((n, y) ∷ v) = if less y n x m then (n, y) ∷ place m x v else (m, x) ∷ (n, y) ∷ v

-- The number of members before a member.
unfoldable pub position : Bytes → Ranking → Option ℕ
position m [] = none
position m ((n, y) ∷ v) =
    let rest = position m v in
    if same m n then some 0 else elim rest [ none ↦ none | some k ↦ some (suc k) ]

-- The members with ranks from `start` to `stop`; a negative rank counts from the end.
unfoldable pub first_rank : ℤ → ℕ → ℕ
first_rank (pos k) n = k
first_rank (negsuc k) n = n - suc k

unfoldable pub end_rank : ℤ → ℕ → ℕ
end_rank (pos k) n = if leb n k then n else suc k
end_rank (negsuc k) n = n - k

unfoldable pub slice : ℤ → ℤ → List Bytes → List Bytes
unfolding first_rank end_rank
slice start stop ms = drop (first_rank start (length ms)) (take (end_rank stop (length ms)) ms)

abbrev pub members_of : Ranking → List Bytes
members_of [] = []
members_of ((m, x) ∷ v) = m ∷ members_of v

-- The change of the ranking by `add`.
unfoldable pub ranking_add : Bytes → Float64 → Ranking → Ranking
unfolding place
ranking_add m x v = elim (lookup m v) [
  | none ↦ place m x v
  | some y ↦ if float_eq y x then v else place m x (delete m v)
]

-- The scores are numbers, and each member stands before those that it is less than.
abbrev pub InOrder : Ranking → Type 0
InOrder [] = Unit
InOrder ((m, x) ∷ v) =
    (is_nan x ≡ false) × All (λ e. (is_nan e.1 ≡ false) × (less x m e.1 e.0 ≡ true)) v × InOrder v

-- What the store relies on: each method is what it is on the ranking of a valid set. An index that is
-- trusted starts with a valid set.
pub record SetLaws (Z : SortedSets) : Type 1 where
  pub Valid : Z.SortedSet → Type 0
  pub ranking : Z.SortedSet → Ranking
  pub ranking-IsDistinct : (s : Z.SortedSet) → Valid s → IsDistinct (ranking s)
  pub ranking-InOrder : (s : Z.SortedSet) → Valid s → InOrder (ranking s)
  pub Trusted : Type 0
  pub new-Valid : (t : SortedSetType) → Trusted → Valid (Z.new_sorted_set t)
  pub ranking-new : (t : SortedSetType) → ranking (Z.new_sorted_set t) ≡ []
  pub add-Valid :
      (m : Bytes) (x : Float64) (s : Z.SortedSet)
      → is_nan x ≡ false
      → Valid s
      → Valid (Z.add m x s).0
  pub ranking-add :
      (m : Bytes) (x : Float64) (s : Z.SortedSet)
      → is_nan x ≡ false
      → Valid s
      → (ranking (Z.add m x s).0 ≡ ranking_add m x (ranking s))
        × ((Z.add m x s).1 ≡ not (has m (ranking s)))
  pub update-Valid :
      (m : Bytes) (x : Float64) (s : Z.SortedSet)
      → is_nan x ≡ false
      → Valid s
      → Valid (Z.update m x s).0
  pub ranking-update :
      (m : Bytes) (x : Float64) (s : Z.SortedSet)
      → is_nan x ≡ false
      → Valid s
      → (ranking (Z.update m x s).0
          ≡ (if has m (ranking s) then ranking_add m x (ranking s) else ranking s))
        × ((Z.update m x s).1 ≡ has m (ranking s))
  pub remove-Valid : (m : Bytes) (s : Z.SortedSet) → Valid s → Valid (Z.remove m s).0
  pub ranking-remove :
      (m : Bytes) (s : Z.SortedSet)
      → Valid s
      → (ranking (Z.remove m s).0 ≡ delete m (ranking s)) × ((Z.remove m s).1 ≡ has m (ranking s))
  pub score-ranking :
      (m : Bytes) (s : Z.SortedSet) → Valid s → Z.get_member_score m s ≡ lookup m (ranking s)
  pub rank-ranking :
      (m : Bytes) (s : Z.SortedSet) → Valid s → Z.get_rank m s ≡ position m (ranking s)
  pub range-ranking :
      (start stop : ℤ) (s : Z.SortedSet)
      → Valid s
      → Z.get_range start stop s ≡ slice start stop (members_of (ranking s))
  pub member-ranking : (m : Bytes) (s : Z.SortedSet) → Valid s → Z.is_member m s ≡ has m (ranking s)
  pub len-ranking : (s : Z.SortedSet) → Valid s → Z.len s ≡ length (ranking s)

-- Of an index that is not trusted nothing is known: none of its sets counts as valid.
pub untrusted : (Z : SortedSets) → SetLaws Z
untrusted Z = record {
  Valid = λ s. ⊥;
  ranking = λ s. [];
  ranking-IsDistinct = λ s h. absurd h;
  ranking-InOrder = λ s h. absurd h;
  Trusted = ⊥;
  new-Valid = λ t h. absurd h;
  ranking-new = λ t. refl;
  add-Valid = λ m x s n h. absurd h;
  ranking-add = λ m x s n h. absurd h;
  update-Valid = λ m x s n h. absurd h;
  ranking-update = λ m x s n h. absurd h;
  remove-Valid = λ m s h. absurd h;
  ranking-remove = λ m s h. absurd h;
  score-ranking = λ m s h. absurd h;
  rank-ranking = λ m s h. absurd h;
  range-ranking = λ start stop s h. absurd h;
  member-ranking = λ m s h. absurd h;
  len-ranking = λ s h. absurd h;
}
