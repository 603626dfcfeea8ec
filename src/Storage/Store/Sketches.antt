-- ===== src/Storage/Store/Sketches.antt =====
-- The operations on count-min sketches of internal/storage/count_min_sketch.go. A record and the
-- caller share a sketch: a change of it shows in the store.
pub mod Keeps
pub mod Merges
use redis_course.Base.{
  suc, ℕ, ◌+◌, ◌-◌, ◌*◌, ◌/◌, Bool, true, false, not, ◌&&◌, ◌||◌, Option, none, some, List, [], ◌∷◌,
  map, Bytes, ltb, ◌==◌, if◌then◌else◌, length,
}
use redis_course.Base.Made.{Made, made, invalid, too_large}
use redis_course.Base.GoMap.{lookup}
use redis_course.Base.Int.{max_uint64}
use redis_course.Storage.Float64.{Float64, FloatMath}
use redis_course.Storage.CountMinSketch.{
  CountMinSketch, new_count_min_sketch, new_count_min_sketch_by_probability, query, increment,
}
use redis_course.Storage.Eviction.{EvictionPolicy}
use redis_course.Storage.Store.{
  SortedSets, Value, string, simple_set, sorted_set, count_min_sketch, bloom_filter, ValueType,
  string_type, simple_set_type, sorted_set_type, count_min_sketch_type, bloom_filter_type, Record,
  Store, put, notify_access, remove_expired, is_expired,
}
use redis_course.Storage.Store.Strings.{insert_record, overwrite_record}

-- ErrWrongType, ErrCMSKeyNotFound, ErrCMSIncompatible, ErrCMSOverflow and ErrKeyExists, and the
-- panic of `make`.
pub data SketchError : Type 0 where
  wrong_type : SketchError
  key_not_found : SketchError
  incompatible : SketchError
  overflow : SketchError
  key_exists : SketchError
  make_panics : SketchError

pub data SketchReply (A : Type 0) : Type 0 where
  ok : A → SketchReply A
  err : SketchError → SketchReply A

-- `CMSIncrement` and `CMSInfo`.
pub record CmsIncrement : Type 0 where
  pub item : Bytes
  pub value : ℕ

pub record CmsInfo : Type 0 where
  pub width : ℕ
  pub depth : ℕ
  pub count : ℕ

is_sketch_type : ValueType → Bool
is_sketch_type string_type = false
is_sketch_type simple_set_type = false
is_sketch_type sorted_set_type = false
is_sketch_type count_min_sketch_type = true
is_sketch_type bloom_filter_type = false

module _ {Z : SortedSets} where
  sketch_value : Value Z → Option CountMinSketch
  sketch_value (string s) = none
  sketch_value (simple_set s) = none
  sketch_value (sorted_set s) = none
  sketch_value (count_min_sketch s) = some s
  sketch_value (bloom_filter f) = none

  -- The sketch of a record that passes both tests.
  unfoldable pub as_sketch : Record Z → Option CountMinSketch
  unfolding is_sketch_type sketch_value
  as_sketch r = if is_sketch_type r.type then sketch_value r.value else none

  sketch_record : CountMinSketch → Record Z
  sketch_record s = record { type = count_min_sketch_type; value = count_min_sketch s; ttl = none }

-- The loop of `CMSIncrBy`: the increments before one that overflows stay made.
unfoldable pub increments :
    List CmsIncrement → CountMinSketch → CountMinSketch × SketchReply (List ℕ)
unfolding increment query
increments [] sketch = (sketch, ok [])
increments (i ∷ is) sketch = elim (increment sketch i.item i.value) [
  | none ↦ (sketch, err overflow)
  | some next ↦
      let (last, reply) = increments is next in
      elim reply [ err e ↦ (last, err e) | ok counts ↦ (last, ok (query next i.item ∷ counts)) ]
]

-- The inner loops of `CMSMerge`, over the columns of a row and over the rows. A product and a sum
-- that overflow are refused.
unfoldable pub weighted : ℕ → ℕ → ℕ → Option ℕ
weighted weight counter sum =
    if not (counter == 0) && ltb (max_uint64 / counter) weight
    then none
    else if ltb (max_uint64 - sum) (counter * weight)
    then none
    else some (sum + counter * weight)

unfoldable pub merge_row : ℕ → List ℕ → List ℕ → Option (List ℕ)
unfolding weighted
merge_row weight [] sums = some sums
merge_row weight (c ∷ cs) [] = some []
merge_row weight (c ∷ cs) (m ∷ sums) = elim (weighted weight c m) [
  | none ↦ none
  | some n ↦ elim (merge_row weight cs sums) [ none ↦ none | some rest ↦ some (n ∷ rest) ]
]

unfoldable pub merge_rows : ℕ → List (List ℕ) → List (List ℕ) → Option (List (List ℕ))
unfolding merge_row
merge_rows weight [] sums = some sums
merge_rows weight (c ∷ cs) [] = some []
merge_rows weight (c ∷ cs) (m ∷ sums) = elim (merge_row weight c m) [
  | none ↦ none
  | some n ↦ elim (merge_rows weight cs sums) [ none ↦ none | some rest ↦ some (n ∷ rest) ]
]

-- The loop of `CMSMerge` over the sources, each with its weight.
unfoldable pub merge_sources :
    List (CountMinSketch × ℕ) → CountMinSketch → SketchReply CountMinSketch
unfolding weighted merge_rows
merge_sources [] merged = ok merged
merge_sources ((source, weight) ∷ sources) merged =
    if not (source.width == merged.width) || not (source.depth == merged.depth)
    then err incompatible
    else elim (merge_rows weight source.counters merged.counters) [
      | none ↦ err overflow
      | some counters ↦ elim (weighted weight source.count merged.count) [
        | none ↦ err overflow
        | some count ↦ merge_sources sources (record merged { counters = counters; count = count })
      ]
    ]

zip : List CountMinSketch → List ℕ → List (CountMinSketch × ℕ)
zip [] weights = []
zip (s ∷ sources) [] = []
zip (s ∷ sources) (w ∷ weights) = (s, w) ∷ zip sources weights

-- The sources merged into a new sketch of the first one's size.
merge_collected : List CountMinSketch → List ℕ → SketchReply CountMinSketch
unfolding zip merge_sources new_count_min_sketch
merge_collected [] weights = err incompatible
merge_collected (first ∷ sources) weights = elim (new_count_min_sketch first.width first.depth) [
  | invalid ↦ err incompatible
  | too_large ↦ err make_panics
  | made merged ↦ merge_sources (zip (first ∷ sources) weights) merged
]

module _ {P : EvictionPolicy} {Z : SortedSets} where
  -- `countMinSketchLocked`
  unfoldable pub count_min_sketch_locked : ℕ → Bytes → Store P Z → SketchReply CountMinSketch
  unfolding is_expired as_sketch
  count_min_sketch_locked now key s = elim (lookup key s.records) [
    | none ↦ err key_not_found
    | some r ↦
        if is_expired now r
        then err key_not_found
        else elim (as_sketch r) [ none ↦ err wrong_type | some f ↦ ok f ]
  ]

  -- The sketch as the caller has changed it, in the store.
  unfoldable pub write_sketch : Bytes → CountMinSketch → Store P Z → Store P Z
  unfolding put
  write_sketch key sketch s = elim (lookup key s.records) [
    | none ↦ s
    | some r ↦ put key (record r { value = count_min_sketch sketch }) s
  ]

  unfoldable pub cms_init_sketch :
      ℕ → (ℕ → ℕ) → Bytes → Made CountMinSketch → Store P Z → Store P Z × SketchReply (Unit {0})
  unfolding remove_expired is_expired insert_record sketch_record
  cms_init_sketch now draws key invalid s = (s, err incompatible)
  cms_init_sketch now draws key too_large s = (s, err make_panics)
  cms_init_sketch now draws key (made sketch) s = elim (lookup key s.records) [
    | none ↦ (insert_record draws key (sketch_record sketch) s, ok tt)
    | some r ↦
        if is_expired now r
        then (insert_record draws key (sketch_record sketch) (remove_expired key r s), ok tt)
        else (s, err key_exists)
  ]

  unfoldable pub cms_init :
      ℕ → (ℕ → ℕ) → Bytes → ℕ → ℕ → Store P Z → Store P Z × SketchReply (Unit {0})
  unfolding cms_init_sketch new_count_min_sketch
  cms_init now draws key width depth s =
      cms_init_sketch now draws key (new_count_min_sketch width depth) s

  unfoldable pub cms_init_by_probability :
      FloatMath
      → ℕ
      → (ℕ → ℕ)
      → Bytes
      → Float64
      → Float64
      → Store P Z
      → Store P Z × SketchReply (Unit {0})
  unfolding cms_init_sketch new_count_min_sketch_by_probability
  cms_init_by_probability math now draws key rate probability s =
      cms_init_sketch now draws key (new_count_min_sketch_by_probability math rate probability) s

  unfoldable pub cms_incr_by :
      ℕ → Bytes → List CmsIncrement → Store P Z → Store P Z × SketchReply (List ℕ)
  unfolding count_min_sketch_locked increments write_sketch notify_access
  cms_incr_by now key is s = elim (count_min_sketch_locked now key s) [
    | err e ↦ (s, err e)
    | ok sketch ↦
        let (last, reply) = increments is sketch in
        let t = write_sketch key last s in
        elim reply [ err e ↦ (t, err e) | ok counts ↦ (notify_access key t, ok counts) ]
  ]

  unfoldable pub cms_query : ℕ → Bytes → List Bytes → Store P Z → Store P Z × SketchReply (List ℕ)
  unfolding count_min_sketch_locked notify_access query
  cms_query now key items s = elim (count_min_sketch_locked now key s) [
    | err e ↦ (s, err e)
    | ok sketch ↦ (notify_access key s, ok (map (λ item. query sketch item) items))
  ]

  unfoldable pub cms_info : ℕ → Bytes → Store P Z → Store P Z × SketchReply CmsInfo
  unfolding count_min_sketch_locked notify_access
  cms_info now key s = elim (count_min_sketch_locked now key s) [
    | err e ↦ (s, err e)
    | ok k ↦
        (notify_access key s, ok (record { width = k.width; depth = k.depth; count = k.count }))
  ]

  -- The loop of `CMSMerge` that collects the sources; the source number `i` is tested for expiry
  -- with the reading `now i`.
  unfoldable pub collect_sources :
      (ℕ → ℕ) → ℕ → List Bytes → Store P Z → Store P Z × SketchReply (List CountMinSketch)
  unfolding count_min_sketch_locked notify_access
  collect_sources now i [] s = (s, ok [])
  collect_sources now i (key ∷ keys) s = elim (count_min_sketch_locked (now i) key s) [
    | err e ↦ (s, err e)
    | ok sketch ↦
        let (t, reply) = collect_sources now (suc i) keys (notify_access key s) in
        elim reply [ err e ↦ (t, err e) | ok sketches ↦ (t, ok (sketch ∷ sketches)) ]
  ]

  write_merged :
      ℕ → (ℕ → ℕ) → Bytes → CountMinSketch → Store P Z → Store P Z × SketchReply (Unit {0})
  unfolding is_expired is_sketch_type sketch_record overwrite_record insert_record remove_expired
  write_merged now draws destination merged s = elim (lookup destination s.records) [
    | none ↦ (insert_record draws destination (sketch_record merged) s, ok tt)
    | some r ↦
        if is_expired now r
        then (
          insert_record draws destination (sketch_record merged) (remove_expired destination r s),
          ok tt,
        )
        else if is_sketch_type r.type
        then (overwrite_record draws destination r (sketch_record merged) s, ok tt)
        else (s, err wrong_type)
  ]

  unfoldable pub cms_merge :
      (ℕ → ℕ)
      → (ℕ → ℕ)
      → Bytes
      → List Bytes
      → List ℕ
      → Store P Z
      → Store P Z × SketchReply (Unit {0})
  unfolding collect_sources merge_collected write_merged
  cms_merge now draws destination keys weights s =
      if (length keys == 0) || not (length keys == length weights)
      then (s, err incompatible)
      else let (t, collected) = collect_sources now 0 keys s in
        elim collected [
          | err e ↦ (t, err e)
          | ok sources ↦ elim (merge_collected sources weights) [
            | err e ↦ (t, err e)
            | ok merged ↦ write_merged (now (length keys)) draws destination merged t
          ]
        ]
