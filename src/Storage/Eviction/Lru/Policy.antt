-- ===== src/Storage/Eviction/Lru/Policy.antt =====
-- `NewLRU` of internal/storage/eviction_lru.go as an eviction policy, with the interface's laws.
use redis_course.Base.{
  ◌<◌, ◌≡◌, refl, sym, ◌∙◌, true, false, some, List, [], ◌∷◌, Bytes, codes, same_iff, arith, length,
}
use redis_course.Base.GoMap.{has, lookup}
use redis_course.Storage.Eviction.{EvictionPolicy, Laws}
use redis_course.Storage.Eviction.Lru.{Lru, new_lru, remove_key, touch, on_remove, back, victim}
use redis_course.Storage.Eviction.Lru.Recency.{
  after, Event, touched, removed, Tracks, member, after-Tracks, touch-Tracks, on_remove-Tracks,
  touch-entries, on_remove-entries, on_remove-order, back-none,
}

abbrev pub lru : EvictionPolicy
lru = record {
  State = Lru;
  name = codes "lru";
  initial = new_lru;
  on_insert = touch;
  on_access = touch;
  on_remove = on_remove;
  victim = λ draw p. victim p;
}

length-remove_key :
    (k : Bytes) (order : List Bytes)
    → member k order ≡ true
    → length (remove_key k order) < length order
unfolding remove_key member
length-remove_key k [] h = cc
length-remove_key k (j ∷ order) h =
    ground (arith, same_iff k j, same_iff j k, length-remove_key k order)

back-member : (order : List Bytes) (v : Bytes) → back order ≡ some v → member v order ≡ true
unfolding back member
back-member [] v h = cc
back-member (k ∷ []) v h = ground (arith, same_iff k v)
back-member (k ∷ j ∷ order) v h = ground (arith, back-member (j ∷ order) v)

count_falls :
    (k : Bytes) (p : Lru) (es : List Event)
    → Tracks p es
    → has k p.entries ≡ true
    → length (on_remove k p).order < length p.order
count_falls k p es t h =
    rw (on_remove-order k p (t.entries k)) (length-remove_key k p.order (sym (t.entries k) ∙ h))

nothing : (order : List Bytes) (k : Bytes) → order ≡ [] → member k order ≡ false
unfolding member
nothing order k e = rw e

untracked : (j : Bytes) → has j new_lru.entries ≡ false
unfolding new_lru lookup
untracked j = refl

-- LRU keeps every promise of the `EvictionPolicy` interface.
pub lru-Laws : Laws lru
unfolding victim after
lru-Laws = record {
  Valid = λ p. (es : List Event) × Tracks p es;
  tracks = λ j p. has j p.entries;
  count = λ p. length p.order;
  initial-Valid = ([], after-Tracks []);
  on_insert-Valid = λ k p (es, t). (touched k ∷ es, touch-Tracks k p es t);
  on_access-Valid = λ k p (es, t). (touched k ∷ es, touch-Tracks k p es t);
  on_remove-Valid = λ k p (es, t). (removed k ∷ es, on_remove-Tracks k p es t);
  tracks-initial = untracked;
  tracks-on_insert = λ k j p v. touch-entries k j p;
  tracks-on_access = λ k j p v. touch-entries k j p;
  tracks-on_remove = λ k j p v. on_remove-entries k j p;
  count-on_remove = λ k p (es, t) h. count_falls k p es t h;
  victim-tracked = λ draw p k (es, t) h. t.entries k ∙ back-member p.order k h;
  victim-none = λ draw p k (es, t) h. t.entries k ∙ nothing p.order k (back-none p.order h);
}
