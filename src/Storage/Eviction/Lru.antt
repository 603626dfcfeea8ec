-- ===== src/Storage/Eviction/Lru.antt =====
-- internal/storage/eviction_lru.go. The linked list is a list of keys, the front first. The map
-- points at the list's elements; here it holds the keys, and an element is found by its key.
pub mod Recency
pub mod Policy
use redis_course.Base.{
  ℕ, suc, ◌<◌, ◌≡◌, refl, Bool, true, false, Option, none, some, List, [], ◌∷◌, Bytes, codes, same,
  if◌then◌else◌,
}
use redis_course.Base.GoMap.{GoMap, has, insert, delete}

pub record Lru : Type 0 where
  pub order : List Bytes
  pub entries : GoMap (Unit {0})

unfoldable pub new_lru : Lru
new_lru = record { order = []; entries = [] }

-- `order.Remove(element)`, for the element that holds the key.
unfoldable pub remove_key : Bytes → List Bytes → List Bytes
remove_key k [] = []
remove_key k (j ∷ order) = if same k j then order else j ∷ remove_key k order

-- `touchLocked`
unfoldable pub touch : Bytes → Lru → Lru
unfolding remove_key
touch key p =
    if has key p.entries
    then record p { order = key ∷ remove_key key p.order }
    else record { order = key ∷ p.order; entries = insert key tt p.entries }

unfoldable pub on_remove : Bytes → Lru → Lru
unfolding remove_key
on_remove key p =
    if has key p.entries
    then record { order = remove_key key p.order; entries = delete key p.entries }
    else p

-- `order.Back()`
pub back : List Bytes → Option Bytes
back [] = none
back (k ∷ []) = some k
back (k ∷ j ∷ order) = back (j ∷ order)

unfoldable pub victim : Lru → Option Bytes
unfolding back
victim p = back p.order
