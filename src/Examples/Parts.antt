-- ===== src/Examples/Parts.antt =====
-- The theorems on the parts of internal/storage below the store at concrete inputs.
use redis_course.Base.{
  All, same, ◌<◌, ℕ, ◌≤◌, ◌≡◌, refl, true, some, List, [], ◌∷◌, ◌++◌, arith, Bytes, codes, same,
}
use redis_course.Base.Made.{made}
use redis_course.Base.GoMap.{has, delete, GoMap, lookup, insert}
use redis_course.Storage.BloomFilter.{BloomFilter, exists}
use redis_course.Storage.BloomFilter.Members.{IsValid as IsValidFilter, add_all, no_false_negatives}
use redis_course.Storage.Hash.{hash_item}
use redis_course.Storage.CountMinSketch.{
  CountMinSketch, new_count_min_sketch, query, increment, rows_fit, add_rows, add_cell, cell,
}
use redis_course.Storage.CountMinSketch.Underestimates.{
  increment_all, true_count, never_underestimates,
}
use redis_course.Storage.Eviction.Lru.{victim, new_lru, touch, on_remove}
use redis_course.Storage.Eviction.Lru.Recency.{
  Event, touched, removed, after, age, victim-is_oldest,
}
use redis_course.Storage.Eviction.Lfu.{
  LfuEntry, new_lfu, on_insert as lfu_insert, on_access as lfu_access, on_remove as lfu_remove,
  victim as lfu_victim,
}
use redis_course.Storage.Eviction.Lfu.Uses.{
  Event as LfuEvent, inserted as lfu_inserted, accessed as lfu_accessed, removed as lfu_removed,
  uses, after as lfu_after, LessUsed, victim-is_least_used,
}
use redis_course.Storage.Eviction.Lfu.Policy.{sampled}

abbrev calls : List Event
calls = touched (codes "a") ∷ removed (codes "c") ∷ touched (codes "b") ∷ touched (codes "a") ∷ []

b_victim : victim (after calls) ≡ some (codes "b")
unfolding victim after touch lookup on_remove new_lru insert same
b_victim = refl

a_age : age (codes "a") calls ≡ some 0
unfolding age same
a_age = refl

victim-is_oldest_example : (a : ℕ) × (age (codes "b") calls ≡ some a) × (0 ≤ a)
victim-is_oldest_example = victim-is_oldest calls (codes "b") (codes "a") 0 b_victim a_age

abbrev filter : BloomFilter
filter = record { bits = 0 ∷ 0 ∷ []; bit_count = 100; hash_count = 3; capacity = 10; count = 0 }

filter-IsValid : IsValidFilter filter
filter-IsValid = record { some_bits = omega arith; room = omega arith }

no_false_negatives_example :
    exists (add_all ((codes "a" ∷ []) ++ codes "b" ∷ codes "c" ∷ []) filter) (codes "b") ≡ true
no_false_negatives_example =
    no_false_negatives filter (codes "a" ∷ []) (codes "b") (codes "c" ∷ []) filter-IsValid

abbrev in_order : ℕ → GoMap LfuEntry → GoMap LfuEntry
in_order draw m = m

-- The latest call stands first: "b" was used twice, "a" and "c" once, and "a" longer ago.
abbrev lfu_events : List LfuEvent
lfu_events =
    lfu_inserted (codes "c")
    ∷ lfu_accessed (codes "b")
    ∷ lfu_inserted (codes "a")
    ∷ lfu_removed (codes "a")
    ∷ lfu_inserted (codes "b")
    ∷ lfu_accessed (codes "a")
    ∷ lfu_inserted (codes "a")
    ∷ []

lfu_victim_a : lfu_victim in_order 0 (lfu_after lfu_events) ≡ some (codes "a")
unfolding lfu_victim lfu_after lfu_insert lfu_access lfu_remove new_lfu insert delete lookup same
lfu_victim_a = refl

victim-is_least_used_example :
    (0 < uses (codes "a") lfu_events)
    × (has (codes "a") (sampled in_order 0 (lfu_after lfu_events)) ≡ true)
    × All (λ e. LessUsed lfu_events (codes "a") e.0) (sampled in_order 0 (lfu_after lfu_events))
victim-is_least_used_example =
    victim-is_least_used in_order 0 lfu_events (codes "a") (λ draw m d. (d, λ k. refl)) lfu_victim_a

-- One row of one column, in which all items meet.
abbrev sketch : ℕ → CountMinSketch
sketch n = record { width = 1; depth = 1; counters = (n ∷ []) ∷ []; count = n }

abbrev bumps : List (Bytes × ℕ)
bumps = (codes "a", 3) ∷ (codes "b", 2) ∷ []

sketch_new : new_count_min_sketch 1 1 ≡ made (sketch 0)
unfolding new_count_min_sketch
sketch_new = refl

sketch_bumped : increment_all bumps (sketch 0) ≡ some (sketch 5)
unfolding increment rows_fit add_rows add_cell cell hash_item
sketch_bumped = refl

never_underestimates_example : true_count bumps (codes "a") ≤ query (sketch 5) (codes "a")
never_underestimates_example =
    never_underestimates 1 1 bumps (sketch 0) (sketch 5) (codes "a") sketch_new sketch_bumped
