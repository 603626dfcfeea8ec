-- ===== src/Storage/Eviction/Random.antt =====
-- internal/storage/eviction_random.go, and the laws of the interface for it. The key at which Go
-- begins to range over the map is the one that the draw names.
use redis_course.Base.{
  ℕ, zero, suc, ◌%◌, ◌≤◌, ◌<◌, ◌≡◌, refl, true, false, Option, none, some, [], ◌∷◌, Bytes, codes,
  same_iff, arith, length, get_elem?,
}
use redis_course.Base.GoMap.{
  GoMap, has, lookup, insert, delete, has-insert, has-delete, has-true, length-delete,
  insert-IsDistinct, delete-IsDistinct, IsDistinct,
}
use redis_course.Storage.Eviction.{EvictionPolicy, Laws}

abbrev Keys : Type 0
Keys = GoMap (Unit {0})

-- `p.keys[key] = struct{}{}`
pub track : Bytes → Keys → Keys
track key keys = insert key tt keys

key_of : Option (Bytes × Unit {0}) → Option Bytes
key_of none = none
key_of (some (k, _)) = some k

-- The first key of the range, if there is one.
pub victim : ℕ → Keys → Option Bytes
unfolding key_of
victim draw keys = key_of (get_elem? keys (draw % length keys))

abbrev pub random : EvictionPolicy
random = record {
  State = Keys;
  name = codes "random";
  initial = [];
  on_insert = track;
  on_access = track;
  on_remove = delete;
  victim = victim;
}

get_elem?-has :
    (keys : Keys) (i : ℕ) (k : Bytes) → key_of (get_elem? keys i) ≡ some k → has k keys ≡ true
unfolding key_of lookup
get_elem?-has [] i k h = cc
get_elem?-has ((j, u) ∷ keys) zero k h = ground (arith, same_iff k j)
get_elem?-has ((j, u) ∷ keys) (suc i) k h = ground (arith, get_elem?-has keys i k)

get_elem?-none : (keys : Keys) (i : ℕ) → key_of (get_elem? keys i) ≡ none → length keys ≤ i
unfolding key_of
get_elem?-none [] i h = omega arith
get_elem?-none (e ∷ keys) zero h = cc
get_elem?-none (e ∷ keys) (suc i) h = omega (arith, get_elem?-none keys i h)

untracked : (keys : Keys) (k : Bytes) → length keys ≡ 0 → has k keys ≡ false
unfolding lookup
untracked [] k h = refl
untracked (e ∷ keys) k h = absurd (omega arith)

victim_none : (draw : ℕ) (keys : Keys) (k : Bytes) → victim draw keys ≡ none → has k keys ≡ false
unfolding victim
victim_none draw [] k h = untracked [] k refl
victim_none draw (e ∷ keys) k h =
    absurd (omega (arith, get_elem?-none (e ∷ keys) (draw % length (e ∷ keys)) h))

count_falls :
    (k : Bytes) (keys : Keys)
    → IsDistinct keys
    → has k keys ≡ true
    → length (delete k keys) < length keys
count_falls k keys d h = let (u, e) = has-true k keys h in omega (arith, length-delete k u keys d e)

-- Random eviction keeps every promise of the `EvictionPolicy` interface, whatever the draws.
pub random-Laws : Laws random
unfolding track victim
random-Laws = record {
  Valid = IsDistinct;
  tracks = has;
  count = length;
  initial-Valid = tt;
  on_insert-Valid = λ k s d. insert-IsDistinct k tt s d;
  on_access-Valid = λ k s d. insert-IsDistinct k tt s d;
  on_remove-Valid = delete-IsDistinct;
  tracks-initial = λ j. untracked [] j refl;
  tracks-on_insert = λ k j s d. has-insert k j tt s;
  tracks-on_access = λ k j s d. has-insert k j tt s;
  tracks-on_remove = λ k j s d. has-delete k j s;
  count-on_remove = count_falls;
  victim-tracked = λ draw s k d h. get_elem?-has s (draw % length s) k h;
  victim-none = λ draw s k d h. victim_none draw s k h;
}
