-- ===== src/Examples/Stores.antt =====
-- The theorems on internal/storage at concrete inputs.
use redis_course.Base.{◌-◌, ℕ, ◌^◌, ◌≡◌, ◌≢◌, refl, false, none, some, Bytes, codes, same}
use redis_course.Base.Decimal.{format_int, format_nat}
use redis_course.Base.Int.{negsuc, pos}
use redis_course.Base.GoMap.{lookup, insert, delete}
use redis_course.Storage.Eviction.Lru.{victim, new_lru, touch}
use redis_course.Storage.Eviction.Lru.Policy.{lru, lru-Laws}
use redis_course.Storage.Store.{
  is_expired, Record, Store, skip_list, string, string_type, expired_at,
}
use redis_course.Storage.SortedSet.Sorted.{sorted_lists, sorted_lists-Laws}
use redis_course.Storage.Store.Valid.{IsValid}
use redis_course.Storage.Store.Capacity.{new_store, evict_locked, sweep}
use redis_course.Storage.Store.Capacity.Evicts.{Evicts, Ends, evict_locked-Evicts}
use redis_course.Storage.Store.Capacity.Sweeps.{sweep-IsValid, new_store-IsValid}
use redis_course.Storage.Store.Strings.{ok, store_set, store_get, store_incr, deadline}
use redis_course.Storage.Store.Strings.Keeps.{store_set-IsValid}
use redis_course.Storage.Store.Strings.Lookup.{Writes, store_set-Writes, get-after_set}
use redis_course.Storage.Store.Strings.Counts.{incr_wraps}

abbrev Shop : Type 0
Shop = Store lru sorted_lists

-- At most one key.
abbrev empty_shop : Shop
empty_shop = new_store skip_list (pos 1) (pos 0) (some new_lru)

abbrev draws : ℕ → ℕ
draws n = 0

-- A store with the key "a".
abbrev shop : Shop
shop = store_set 5 5 draws (codes "a") (codes "41") (pos 10) empty_shop

empty_shop-IsValid : IsValid lru-Laws sorted_lists-Laws empty_shop
empty_shop-IsValid = new_store-IsValid lru-Laws sorted_lists-Laws skip_list (pos 1) (pos 0)

shop-IsValid : IsValid lru-Laws sorted_lists-Laws shop
shop-IsValid =
    store_set-IsValid lru-Laws sorted_lists-Laws 5 5 draws (codes "a") (codes "41") (pos 10)
      empty_shop empty_shop-IsValid

-- The second key evicts the first one.
shop_evicts :
    (lookup (codes "a") (store_set 6 6 draws (codes "b") (codes "1") (pos 0) shop).records ≡ none)
    × ((store_get 7 7 (codes "b") (store_set 6 6 draws (codes "b") (codes "1") (pos 0) shop)).1
        ≡ some (codes "1"))
unfolding new_lru store_set store_get lookup new_store insert same victim touch delete
shop_evicts = (refl, refl)

evict_locked-Evicts_example : Evicts lru-Laws sorted_lists-Laws shop (evict_locked draws shop)
evict_locked-Evicts_example = evict_locked-Evicts lru-Laws sorted_lists-Laws draws shop shop-IsValid

sweep-IsValid_example :
    IsValid lru-Laws sorted_lists-Laws (sweep (λ key. 20) draws shop).0
    × Ends (sweep (λ key. 20) draws shop).0
sweep-IsValid_example = sweep-IsValid lru-Laws sorted_lists-Laws (λ key. 20) draws shop shop-IsValid

abbrev written : Record sorted_lists
written = record { type = string_type; value = string (codes "1"); ttl = deadline 6 (pos 0) }

store_set-Writes_example :
    Writes lru-Laws sorted_lists-Laws draws
      (codes "b")
      written
      shop
      (store_set 6 6 draws (codes "b") (codes "1") (pos 0) shop)
store_set-Writes_example =
    store_set-Writes lru-Laws sorted_lists-Laws 6 6 draws (codes "b") (codes "1") (pos 0) shop
      shop-IsValid

b_record :
    lookup (codes "b") (store_set 6 6 draws (codes "b") (codes "1") (pos 9) shop).records
    ≡ some (record { type = string_type; value = string (codes "1"); ttl = some 15 })
unfolding new_lru store_set store_get lookup new_store insert same victim touch delete
b_record = refl

b_stored :
    lookup (codes "b") (store_set 6 6 draws (codes "b") (codes "1") (pos 9) shop).records ≢ none
b_stored = cc b_record

b_lives : expired_at (deadline 6 (pos 9)) 15 ≡ false
unfolding deadline expired_at
b_lives = refl

get-after_set_example :
    (store_get 15 16 (codes "b") (store_set 6 6 draws (codes "b") (codes "1") (pos 9) shop)).1
    ≡ some (codes "1")
get-after_set_example =
    get-after_set lru-Laws sorted_lists-Laws 6 6 15 16 draws (codes "b") (codes "1") (pos 9) shop
      shop-IsValid b_stored b_lives

-- The record of "a" in the store, and one with the largest int64.
abbrev counter : Bytes → Record sorted_lists
counter text = record { type = string_type; value = string text; ttl = some 15 }

counter_lives : (text : Bytes) → is_expired 12 (counter text) ≡ false
unfolding is_expired expired_at
counter_lives text = refl

abbrev largest : Bytes
largest = codes "9223372036854775807"

abbrev full_shop : Shop
full_shop = store_set 5 5 draws (codes "a") largest (pos 10) empty_shop

largest_stored : lookup (codes "a") full_shop.records ≡ some (counter largest)
unfolding new_lru store_set lookup new_store insert same victim touch delete
largest_stored = refl

largest_text : (counter largest).value ≡ string (format_int (pos (2 ^ 63 - 1)))
unfolding format_int format_nat
largest_text = refl

incr_wraps_example : (store_incr 12 draws (codes "a") full_shop).1 ≡ ok (negsuc (2 ^ 63 - 1))
incr_wraps_example =
    incr_wraps lru-Laws sorted_lists-Laws 12 draws (codes "a") (counter largest) full_shop
      largest_stored (counter_lives largest) largest_text
