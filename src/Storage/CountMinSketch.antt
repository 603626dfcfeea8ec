-- ===== src/Storage/CountMinSketch.antt =====
-- The count-min sketch of internal/storage/count_min_sketch.go, without the store around it. The
-- counters are numbers below 2^64.
pub mod Counts
pub mod Underestimates
use redis_course.Base.{
  ℕ, zero, suc, ◌+◌, ◌-◌, ◌*◌, ◌%◌, ◌^◌, Bool, true, false, not, ◌||◌, Option, none, some, List, [],
  Bytes, ltb, ◌==◌, if◌then◌else◌, get_or, set, replicate,
}
use redis_course.Base.Made.{Made, made, invalid, too_large, max_alloc}
use redis_course.Base.Int.{max_uint64, max_int64}
use redis_course.Storage.Float64.{Float64, FloatMath, is_rate}
use redis_course.Storage.Hash.{hash_item}

pub record CountMinSketch : Type 0 where
  pub width : ℕ
  pub depth : ℕ
  pub counters : List (List ℕ)
  pub count : ℕ

-- `size`, as the word that the int64 is.
unfoldable pub size : CountMinSketch → ℕ
size s = s.width * s.depth * 8 % 2 ^ 64

-- `invalid` stands for ErrCMSIncompatible. A row header takes 24 bytes, and a counter 8.
unfoldable pub new_count_min_sketch : ℕ → ℕ → Made CountMinSketch
new_count_min_sketch width depth =
    if (width == 0) || (depth == 0) || ltb max_int64 width || ltb max_int64 depth
    then invalid
    else if ltb max_alloc (depth * 24) || ltb max_alloc (width * 8)
    then too_large
    else made (record {
      width = width;
      depth = depth;
      counters = replicate depth (replicate width 0);
      count = 0;
    })

unfoldable pub new_count_min_sketch_by_probability :
    FloatMath → Float64 → Float64 → Made CountMinSketch
unfolding new_count_min_sketch
new_count_min_sketch_by_probability math error_rate probability =
    if not (is_rate error_rate) || not (is_rate probability)
    then invalid
    else new_count_min_sketch (math.sketch_width error_rate) (math.sketch_depth probability)

-- `counters[row][column]`, for the column of the item in the row.
unfoldable pub cell : ℕ → Bytes → List (List ℕ) → ℕ → ℕ
cell width item counters row = get_or (get_or counters row []) (hash_item item row % width) 0

-- The loop of `query`, with `n` rows to go from `row` on.
unfoldable pub query_from : ℕ → Bytes → List (List ℕ) → ℕ → ℕ → ℕ → ℕ
unfolding cell
query_from width item counters zero row minimum = minimum
query_from width item counters (suc n) row minimum =
    let c = cell width item counters row in
    query_from width item counters n (row + 1) (if ltb c minimum then c else minimum)

unfoldable pub query : CountMinSketch → Bytes → ℕ
unfolding query_from
query s item = query_from s.width item s.counters s.depth 0 max_uint64

-- The loops of `CMSIncrBy` over the rows: does no counter overflow, and the additions.
unfoldable pub rows_fit : ℕ → Bytes → ℕ → List (List ℕ) → ℕ → ℕ → Bool
unfolding cell
rows_fit width item value counters zero row = true
rows_fit width item value counters (suc n) row =
    let later = rows_fit width item value counters n (row + 1) in
    if ltb (max_uint64 - cell width item counters row) value then false else later

unfoldable pub add_cell : ℕ → Bytes → ℕ → List (List ℕ) → ℕ → List (List ℕ)
unfolding cell
add_cell width item value counters row = set counters row (
    set (get_or counters row []) (hash_item item row % width)
      ((cell width item counters row + value) % 2 ^ 64))

unfoldable pub add_rows : ℕ → Bytes → ℕ → ℕ → ℕ → List (List ℕ) → List (List ℕ)
unfolding add_cell
add_rows width item value zero row counters = counters
add_rows width item value (suc n) row counters =
    add_rows width item value n (row + 1) (add_cell width item value counters row)

-- One increment of `CMSIncrBy`; `none` stands for ErrCMSOverflow.
unfoldable pub increment : CountMinSketch → Bytes → ℕ → Option CountMinSketch
unfolding rows_fit add_rows
increment s item value =
    if ltb (max_uint64 - s.count) value
    then none
    else if rows_fit s.width item value s.counters s.depth 0
    then some (record s {
      counters = add_rows s.width item value s.depth 0 s.counters;
      count = (s.count + value) % 2 ^ 64;
    })
    else none
