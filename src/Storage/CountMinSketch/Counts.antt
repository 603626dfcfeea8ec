-- ===== src/Storage/CountMinSketch/Counts.antt =====
-- The counters of a sketch of internal/storage/count_min_sketch.go.
use redis_course.Base.{
  ℕ, zero, suc, ◌+◌, ◌-◌, ◌%◌, ◌^◌, ◌≤◌, ◌<◌, ◌≡◌, inl, inr, refl, sym, ◌∙◌, Bool, true, ◌&&◌, List,
  [], Bytes, ltb, leb, ◌==◌, if◌then◌else◌, length, get_or, set, arith, Bool-cases, length-set,
  get_or-set_self, get_or-set_ne, ==_iff,
}
use native.Mathlib.Nat.{mod-lt}
use redis_course.Base.Int.{max_uint64}
use redis_course.Storage.Hash.{hash_item}
use redis_course.Storage.CountMinSketch.{cell, query_from, rows_fit, add_cell, add_rows}

-- `depth` rows of `width` columns each.
abbrev pub Shape : ℕ → ℕ → List (List ℕ) → Type 0
Shape width depth counters =
    (length counters ≡ depth) × ((r : ℕ) → r < depth → length (get_or counters r []) ≡ width)

module _ (width depth : ℕ) (wide : 0 < width) (item : Bytes) (value : ℕ) where
  abbrev pub hit : Bytes → ℕ → Bool
  hit other r = hash_item other r % width == hash_item item r % width

  -- The column of an item lies in its row.
  column-lt : (x : Bytes) (r : ℕ) → hash_item x r % width < width
  column-lt x r = mod-lt (hash_item x r) wide

  inner :
      (xs : List ℕ) (a b row : ℕ)
      → a < length xs
      → get_or (set xs a ((get_or xs a 0 + value) % 2 ^ 64)) b 0
        ≡ (if (row == row) && (b == a) then (get_or xs b 0 + value) % 2 ^ 64 else get_or xs b 0)
  inner xs a b row h = elim (Bool-cases (b == a)) [
    | inl e ↦
        rw ((==_iff b a).0 e)
          (rw (get_or-set_self xs a ((get_or xs a 0 + value) % 2 ^ 64) 0 h) (ground arith))
    | inr e ↦
        rw (get_or-set_ne xs a b ((get_or xs a 0 + value) % 2 ^ 64) 0 (ground arith)) (ground arith)
  ]

  cell-add_cell :
      (counters : List (List ℕ)) (row : ℕ) (other : Bytes) (r : ℕ)
      → Shape width depth counters
      → row < depth
      → cell width other (add_cell width item value counters row) r ≡ (
          if (r == row) && hit other r
          then (cell width other counters r + value) % 2 ^ 64
          else cell width other counters r)
  unfolding cell add_cell
  cell-add_cell counters row other r (l, c) h = elim (Bool-cases (r == row)) [
    | inr n ↦ rw n (rw (get_or-set_ne counters row r _ [] (ground arith)) refl)
    | inl e ↦
        let q : r ≡ row = (==_iff r row).0 e in
        rw (q, get_or-set_self counters row _ [] (omega arith))
          (inner (get_or counters row []) (hash_item item row % width) (hash_item other row % width)
            row (rw (c row h) (column-lt item row)))
  ]

  add_cell-Shape :
      (counters : List (List ℕ)) (row : ℕ)
      → row < depth
      → Shape width depth counters
      → Shape width depth (add_cell width item value counters row)
  unfolding add_cell
  add_cell-Shape counters row h (l, c) = (
    length-set counters row _ ∙ l,
    λ r k. elim (Bool-cases (row == r)) [
      | inl e ↦ rw (sym ((==_iff row r).0 e)) (
          rw (get_or-set_self counters row _ [] (omega arith))
            (length-set (get_or counters row []) _ _ ∙ c row h))
      | inr e ↦ rw (get_or-set_ne counters row r _ [] (ground arith)) (c r k)
    ],
  )

  pub add_rows-Shape :
      (n row : ℕ) (counters : List (List ℕ))
      → row + n ≤ depth
      → Shape width depth counters
      → Shape width depth (add_rows width item value n row counters)
  unfolding add_rows
  add_rows-Shape zero row counters h s = s
  add_rows-Shape (suc n) row counters h s =
      add_rows-Shape n (row + 1) (add_cell width item value counters row) (omega arith)
        (add_cell-Shape counters row (omega arith) s)

  -- The additions reach the item's columns in the rows from `row` on.
  pub cell-add_rows :
      (n row : ℕ) (counters : List (List ℕ)) (other : Bytes) (r : ℕ)
      → row + n ≤ depth
      → Shape width depth counters
      → cell width other (add_rows width item value n row counters) r ≡ (
          if leb row r && ltb r (row + n) && hit other r
          then (cell width other counters r + value) % 2 ^ 64
          else cell width other counters r)
  unfolding add_rows
  cell-add_rows zero row counters other r h s = ground arith
  cell-add_rows (suc n) row counters other r h s =
      let i =
        cell-add_rows n (row + 1) (add_cell width item value counters row) other r (omega arith)
          (add_cell-Shape counters row (omega arith) s) in
      let a = cell-add_cell counters row other r s (omega arith) in ground arith

-- `query` is at most the item's counter in each row, and at least what all of them are.
module _ (width : ℕ) (item : Bytes) (counters : List (List ℕ)) where
  first :
      (r q row n : ℕ)
      → row ≤ r
      → r < row + suc n
      → (row + 1 ≤ r → r < row + 1 + n → q ≤ cell width item counters r)
      → q ≤ cell width item counters row
      → q ≤ cell width item counters r
  first r q row n h k f g = elim (Bool-cases (r == row)) [
    | inl e ↦ rw ((==_iff r row).0 e) g
    | inr e ↦ f (ground arith) (omega arith)
  ]

  pub query_from-le :
      (n row minimum r : ℕ)
      → (query_from width item counters n row minimum ≤ minimum)
        × (row ≤ r
            → r < row + n
            → query_from width item counters n row minimum ≤ cell width item counters r)
  unfolding query_from
  query_from-le zero row minimum r = (omega arith, λ a b. omega arith)
  query_from-le (suc n) row minimum r =
      elim (Bool-cases (ltb (cell width item counters row) minimum)) [
        | inl e ↦
            let (a, b) = query_from-le n (row + 1) (cell width item counters row) r in
            rw (e, query_from)
              (
                ground arith,
                λ h k.
                    first r
                      (query_from width item counters n (row + 1) (cell width item counters row))
                      row n h k b a,
              )
        | inr e ↦
            let (a, b) = query_from-le n (row + 1) minimum r in
            rw (e, query_from)
              (
                a,
                λ h k.
                    first r (query_from width item counters n (row + 1) minimum) row n h k b
                      (ground arith),
              )
      ]

  pub query_from-ge :
      (n row minimum bound : ℕ)
      → bound ≤ minimum
      → ((r : ℕ) → row ≤ r → r < row + n → bound ≤ cell width item counters r)
      → bound ≤ query_from width item counters n row minimum
  unfolding query_from
  query_from-ge zero row minimum bound h f = h
  query_from-ge (suc n) row minimum bound h f =
      elim (Bool-cases (ltb (cell width item counters row) minimum)) [
        | inl e ↦
            rw (e, query_from)
              (query_from-ge n (row + 1) (cell width item counters row) bound
                (f row (omega arith) (omega arith)) (λ r a b. f r (omega arith) (omega arith)))
        | inr e ↦
            rw (e, query_from)
              (query_from-ge n (row + 1) minimum bound h (λ r a b. f r (omega arith) (omega arith)))
      ]

  pub rows_fit-le :
      (value n row r : ℕ)
      → rows_fit width item value counters n row ≡ true
      → row ≤ r
      → r < row + n
      → value ≤ max_uint64 - cell width item counters r
  unfolding rows_fit
  rows_fit-le value zero row r e h k = omega arith
  rows_fit-le value (suc n) row r e h k =
      elim (Bool-cases (ltb (max_uint64 - cell width item counters row) value)) [
        | inl b ↦ cc (rw (b, rows_fit) at e)
        | inr b ↦
            let later = rw (b, rows_fit) at e in
            elim (Bool-cases (r == row)) [
              | inl q ↦ rw ((==_iff r row).0 q) (ground arith)
              | inr q ↦ rows_fit-le value n (row + 1) r later (ground arith) (omega arith)
            ]
      ]
