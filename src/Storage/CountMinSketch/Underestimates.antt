-- ===== src/Storage/CountMinSketch/Underestimates.antt =====
-- The answers of a sketch of internal/storage/count_min_sketch.go against the true counts.
use redis_course.Base.{
  ◌*◌, ap, sym, ℕ, zero, suc, ◌+◌, ◌-◌, ◌%◌, ◌^◌, ◌≤◌, ◌<◌, ◌≡◌, inl, inr, refl, true, ◌||◌, Option,
  none, some, List, [], ◌∷◌, Bytes, same, same_iff, ltb, ◌==◌, if◌then◌else◌, get_or, replicate,
  arith, Bool-cases, Option-cases, ==_iff, length-replicate, get_or-replicate,
}
use mathlib.Core.Path.{subst}
use mathlib.Core.Option.{some-injective}
use redis_course.Base.Made.{made, made-injective, max_alloc}
use redis_course.Base.Int.{max_uint64, max_int64}
use redis_course.Storage.Hash.{hash_item}
use redis_course.Storage.CountMinSketch.{
  CountMinSketch, cell, query_from, query, rows_fit, add_rows, increment, new_count_min_sketch,
}
use redis_course.Storage.CountMinSketch.Counts.{
  Shape, hit, add_rows-Shape, cell-add_rows, query_from-le, query_from-ge, rows_fit-le,
}

-- The counters are a matrix of words, of one row and one column at least.
pub record IsValid (s : CountMinSketch) : Type 0 where
  pub wide : 0 < s.width
  pub deep : 0 < s.depth
  pub shape : Shape s.width s.depth s.counters
  pub words : (x : Bytes) (r : ℕ) → r < s.depth → cell s.width x s.counters r ≤ max_uint64

-- The sketch after an increment that fits.
abbrev bumped : CountMinSketch → Bytes → ℕ → CountMinSketch
bumped s item value = record s {
  counters = add_rows s.width item value s.depth 0 s.counters;
  count = (s.count + value) % 2 ^ 64;
}

increment-inv :
    (s t : CountMinSketch) (item : Bytes) (value : ℕ)
    → increment s item value ≡ some t
    → (rows_fit s.width item value s.counters s.depth 0 ≡ true) × (bumped s item value ≡ t)
unfolding increment
increment-inv s t item value h = elim (Bool-cases (ltb (max_uint64 - s.count) value)) [
  | inl e ↦ cc (rw e at h)
  | inr e ↦ elim (Bool-cases (rows_fit s.width item value s.counters s.depth 0)) [
    | inl f ↦
        let q : ◌≡◌ {A = Option CountMinSketch} (some (bumped s item value)) (some t) =
          rw (e, f) at h in
        (f, some-injective _ _ q)
    | inr f ↦ cc (rw (e, f) at h)
  ]
]

-- What an increment counts for an item.
abbrev gain : Bytes → Bytes → ℕ → ℕ
gain item other value = if same item other then value else 0

module _ (s : CountMinSketch) (item : Bytes) (value : ℕ) (v : IsValid s)
    (fit : rows_fit s.width item value s.counters s.depth 0 ≡ true) where
  hit-cell :
      (other : Bytes) (r : ℕ)
      → hit s.width s.depth v.wide item value other r ≡ true
      → cell s.width other s.counters r ≡ cell s.width item s.counters r
  unfolding cell
  hit-cell other r e = rw ((==_iff _ _).0 e) refl

  cell-grows :
      (other : Bytes) (r : ℕ)
      → r < s.depth
      → (cell s.width other s.counters r + gain item other value
          ≤ cell s.width other (bumped s item value).counters r)
        × (cell s.width other (bumped s item value).counters r ≤ max_uint64)
  cell-grows other r h =
      let c =
        cell-add_rows s.width s.depth v.wide item value s.depth 0 s.counters other r (omega arith)
          v.shape in
      let w = v.words other r h in
      let l =
        rows_fit-le s.width item s.counters value s.depth 0 r fit (omega arith) (omega arith) in
      elim (Bool-cases (hit s.width s.depth v.wide item value other r)) [
        | inl e ↦ let q = hit-cell other r e in ground arith
        | inr e ↦ elim (Bool-cases (same item other)) [
          | inl i ↦ let j = (same_iff item other).0 i in absurd (ground arith)
          | inr i ↦ ground arith
        ]
      ]

  -- The old answer and the gain lie below each counter.
  cell-low :
      (other : Bytes) (r : ℕ)
      → r < s.depth
      → query_from s.width other s.counters s.depth 0 max_uint64 + gain item other value
        ≤ cell s.width other (bumped s item value).counters r
  cell-low other r k =
      let c =
        (query_from-le s.width other s.counters s.depth 0 max_uint64 r).1 (omega arith)
          (omega arith) in
      let d = (cell-grows other r k).0 in omega arith

-- An increment keeps the sketch valid, and the answer for its item grows by its value at least, while
-- no answer falls.
increment-grows :
    (s t : CountMinSketch) (item : Bytes) (value : ℕ) (other : Bytes)
    → IsValid s
    → increment s item value ≡ some t
    → IsValid t × (query s other + gain item other value ≤ query t other)
unfolding query
increment-grows s t item value other v h =
    let (fit, e) = increment-inv s t item value h in
    let g = cell-grows s item value v fit in
    let low = cell-low s item value v fit other in
    subst
      (λ (u : CountMinSketch).
        IsValid u
        × (query_from s.width other s.counters s.depth 0 max_uint64 + gain item other value
            ≤ query_from u.width other u.counters u.depth 0 max_uint64))
      e
      (
        record {
          wide = v.wide;
          deep = v.deep;
          shape =
              add_rows-Shape s.width s.depth v.wide item value s.depth 0 s.counters (omega arith)
                v.shape;
          words = λ x r k. (g x r k).1;
        },
        query_from-ge s.width other (bumped s item value).counters s.depth 0 max_uint64
            (query_from s.width other s.counters s.depth 0 max_uint64 + gain item other value)
            (let a = low 0 v.deep in let b = (g other 0 v.deep).1 in omega arith)
            (λ r a b. low r (omega arith)),
      )

-- A series of increments, if all of them fit.
abbrev pub increment_all : List (Bytes × ℕ) → CountMinSketch → Option CountMinSketch
increment_all [] s = some s
increment_all ((item, value) ∷ is) s = elim (increment s item value) [
  | none ↦ none
  | some t ↦ increment_all is t
]

-- What the series counts for an item.
abbrev pub true_count : List (Bytes × ℕ) → Bytes → ℕ
true_count [] other = 0
true_count ((item, value) ∷ is) other = gain item other value + true_count is other

-- A series of increments of a valid sketch.
increment_all-grows :
    (is : List (Bytes × ℕ)) (s t : CountMinSketch) (other : Bytes)
    → IsValid s
    → increment_all is s ≡ some t
    → IsValid t × (query s other + true_count is other ≤ query t other)
increment_all-grows [] s t other v h =
    let e = some-injective s t h in
    subst (λ u. IsValid u × (query s other + 0 ≤ query u other)) e (v, omega arith)
increment_all-grows ((item, value) ∷ is) s t other v h =
    elim (Option-cases (increment s item value)) [
      | inl e ↦ cc (rw (e, increment_all) at h)
      | inr (u, e) ↦
          let (w, g) = increment-grows s u item value other v e in
          let (x, k) = increment_all-grows is u t other w (rw (e, increment_all) at h) in
          (x, omega arith)
    ]

get_or-replicate_lt : {A : Type 0} (n i : ℕ) (a d : A) → i < n → get_or (replicate n a) i d ≡ a
get_or-replicate_lt zero i a d h = absurd (omega arith)
get_or-replicate_lt (suc n) zero a d h = refl
get_or-replicate_lt (suc n) (suc i) a d h = get_or-replicate_lt n i a d (omega arith)

abbrev fresh : ℕ → ℕ → CountMinSketch
fresh width depth = record {
  width = width;
  depth = depth;
  counters = replicate depth (replicate width 0);
  count = 0;
}

fresh-cell :
    (width depth : ℕ) (x : Bytes) (r : ℕ)
    → r < depth
    → cell width x (fresh width depth).counters r ≡ 0
unfolding cell
fresh-cell width depth x r h =
    rw (get_or-replicate_lt depth r (replicate {A = ℕ} width 0) [] h)
      (get_or-replicate width (hash_item x r % width) 0)

IsEmpty : CountMinSketch → Type 0
IsEmpty s = IsValid s × (s.count ≡ 0) × ((item : Bytes) → query s item ≡ 0)

fresh-IsEmpty : (width depth : ℕ) → 0 < width → 0 < depth → IsEmpty (fresh width depth)
unfolding IsEmpty query
fresh-IsEmpty width depth h k = (
  record {
    wide = h;
    deep = k;
    shape = (
      length-replicate depth (replicate {A = ℕ} width 0),
      λ r l.
          rw (get_or-replicate_lt depth r (replicate {A = ℕ} width 0) [] l)
            (length-replicate {A = ℕ} width 0),
    );
    words = λ x r l. rw (fresh-cell width depth x r l) (omega arith);
  },
  refl,
  λ item.
      let c =
        (query_from-le width item (fresh width depth).counters depth 0 max_uint64 0).1 (omega arith)
          (omega arith) in
      let z = fresh-cell width depth item 0 k in omega arith,
)

-- A sketch that `NewCountMinSketch` returns is valid and has counted nothing.
new_count_min_sketch-IsValid :
    (width depth : ℕ) (s : CountMinSketch)
    → new_count_min_sketch width depth ≡ made s
    → IsValid s × (s.count ≡ 0) × ((item : Bytes) → query s item ≡ 0)
unfolding new_count_min_sketch IsEmpty
new_count_min_sketch-IsValid width depth s h =
    elim (Bool-cases ((width == 0) || (depth == 0) || ltb max_int64 width || ltb max_int64 depth)) [
      | inl e ↦ cc (rw e at h)
      | inr e ↦ elim (Bool-cases (ltb max_alloc (depth * 24) || ltb max_alloc (width * 8))) [
        | inl l ↦ cc (rw (e, l) at h)
        | inr l ↦
            let q : made (fresh width depth) ≡ made s = rw (e, l) at h in
            subst IsEmpty (made-injective _ _ q)
              (fresh-IsEmpty width depth (ground arith) (ground arith))
      ]
    ]

-- No underestimate: when all of a series of increments of a new sketch fit, the answer for an item is
-- at least the sum of the increments of the item.
pub never_underestimates :
    (width depth : ℕ) (is : List (Bytes × ℕ)) (s t : CountMinSketch) (item : Bytes)
    → new_count_min_sketch width depth ≡ made s
    → increment_all is s ≡ some t
    → true_count is item ≤ query t item
never_underestimates width depth is s t item new all =
    let v = (new_count_min_sketch-IsValid width depth s new).0 in
    let g = (increment_all-grows is s t item v all).1 in omega arith

-- An increment keeps the size of the sketch.
pub increment_keeps :
    (s t : CountMinSketch) (item : Bytes) (value : ℕ)
    → increment s item value ≡ some t
    → (t.width ≡ s.width) × (t.depth ≡ s.depth)
increment_keeps s t item value h =
    let e = (increment-inv s t item value h).1 in
    (ap (λ (u : CountMinSketch). u.width) (sym e), ap (λ (u : CountMinSketch). u.depth) (sym e))
