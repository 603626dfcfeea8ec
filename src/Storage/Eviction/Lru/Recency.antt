-- ===== src/Storage/Eviction/Lru/Recency.antt =====
-- The victim of internal/storage/eviction_lru.go against the history of the calls.
use redis_course.Base.{
  ℕ, suc, ◌≤◌, ◌<◌, ◌≡◌, refl, sym, ap, ◌∙◌, inl, inr, Bool, true, false, ◌||◌, Option, none, some,
  List, [], ◌∷◌, Bytes, same, same_iff, same_refl, if◌then◌else◌, arith, Bool-cases,
}
use mathlib.Core.Path.{subst}
use redis_course.Base.GoMap.{has, lookup, has-insert, has-delete}
use redis_course.Storage.Eviction.Lru.{Lru, new_lru, remove_key, touch, on_remove, back, victim}

-- A call of `OnInsert` or `OnAccess`, and one of `OnRemove`.
pub data Event : Type 0 where
  touched removed : Bytes → Event

later : Option ℕ → Option ℕ
later none = none
later (some a) = some (suc a)

-- How many calls ago the key was last touched, the latest call first; none if it is not tracked.
unfoldable pub age : Bytes → List Event → Option ℕ
unfolding later
age k [] = none
age k (touched j ∷ es) = if same j k then some 0 else later (age k es)
age k (removed j ∷ es) = if same j k then none else later (age k es)

-- The policy after the calls.
unfoldable pub after : List Event → Lru
after [] = new_lru
after (touched k ∷ es) = touch k (after es)
after (removed k ∷ es) = on_remove k (after es)

unfoldable pub member : Bytes → List Bytes → Bool
member k [] = false
member k (j ∷ order) = same j k || member k order

-- The keys from the front on have ages of at least `low`, each greater than the one before.
abbrev pub Ages : List Event → ℕ → List Bytes → Type 0
Ages es low [] = Unit
Ages es low (k ∷ order) = (a : ℕ) × (age k es ≡ some a) × (low ≤ a) × Ages es (suc a) order

pub record Tracks (p : Lru) (es : List Event) : Type 0 where
  pub ages : Ages es 0 p.order
  pub entries : (k : Bytes) → has k p.entries ≡ member k p.order
  pub complete : (k : Bytes) → member k p.order ≡ false → age k es ≡ none

Ages-weaken :
    (es : List Event) (low low' : ℕ) (order : List Bytes)
    → low' ≤ low
    → Ages es low order
    → Ages es low' order
Ages-weaken es low low' [] h g = tt
Ages-weaken es low low' (k ∷ order) h (a, e, l, g) = (a, e, omega arith, g)

Ages-remove_key :
    (es : List Event) (low : ℕ) (k : Bytes) (order : List Bytes)
    → Ages es low order
    → Ages es low (remove_key k order)
unfolding remove_key
Ages-remove_key es low k [] g = tt
Ages-remove_key es low k (j ∷ order) (a, e, l, g) = elim (Bool-cases (same k j)) [
  | inl s ↦ rw s (Ages-weaken es (suc a) low order (omega arith) g)
  | inr s ↦ rw s (a, e, l, Ages-remove_key es (suc a) k order g)
]

-- A key whose age is below the bound is not there.
Ages-absent :
    (es : List Event) (low : ℕ) (k : Bytes) (order : List Bytes) (a : ℕ)
    → Ages es low order
    → age k es ≡ some a
    → a < low
    → member k order ≡ false
unfolding member
Ages-absent es low k [] a g e h = refl
Ages-absent es low k (j ∷ order) a (b, e', l, g) e h =
    ground (arith, same_iff j k, Ages-absent es (suc b) k order a g e (omega arith))

member-remove_key :
    (es : List Event) (low : ℕ) (k j : Bytes) (order : List Bytes)
    → Ages es low order
    → member j (remove_key k order) ≡ (if same k j then false else member j order)
unfolding member remove_key
member-remove_key es low k j [] g = ground arith
member-remove_key es low k j (i ∷ order) (a, e, l, g) = ground (
  arith,
  same_iff k j,
  same_iff k i,
  same_iff i j,
  member-remove_key es (suc a) k j order g,
  Ages-absent es (suc a) i order a g e (omega arith),
)

-- One more call on another key makes every age greater by one.
Ages-touched :
    (es : List Event) (low : ℕ) (k : Bytes) (order : List Bytes)
    → member k order ≡ false
    → Ages es low order
    → Ages (touched k ∷ es) (suc low) order
unfolding member age
Ages-touched es low k [] h g = tt
Ages-touched es low k (j ∷ order) h (a, e, l, g) = (
  suc a,
  ground (arith, same_iff j k, same_iff k j),
  omega arith,
  Ages-touched es (suc a) k order (ground arith) g,
)

Ages-removed :
    (es : List Event) (low : ℕ) (k : Bytes) (order : List Bytes)
    → member k order ≡ false
    → Ages es low order
    → Ages (removed k ∷ es) (suc low) order
unfolding member age
Ages-removed es low k [] h g = tt
Ages-removed es low k (j ∷ order) h (a, e, l, g) = (
  suc a,
  ground (arith, same_iff j k, same_iff k j),
  omega arith,
  Ages-removed es (suc a) k order (ground arith) g,
)

remove_key_absent :
    (k : Bytes) (order : List Bytes) → member k order ≡ false → remove_key k order ≡ order
unfolding member remove_key
remove_key_absent k [] h = refl
remove_key_absent k (j ∷ order) h =
    ground (arith, same_iff j k, same_iff k j, remove_key_absent k order)

touch-order :
    (k : Bytes) (p : Lru)
    → (has k p.entries ≡ member k p.order)
    → (touch k p).order ≡ k ∷ remove_key k p.order
unfolding touch
touch-order k p h = elim (Bool-cases (has k p.entries)) [
  | inl e ↦ rw e
  | inr e ↦ rw e (ap (◌∷◌ k) (sym (remove_key_absent k p.order (sym h ∙ e))))
]

pub touch-entries :
    (k j : Bytes) (p : Lru)
    → has j (touch k p).entries ≡ (if same k j then true else has j p.entries)
unfolding touch
touch-entries k j p = elim (Bool-cases (has k p.entries)) [
  | inl e ↦ rw e (ground (arith, same_iff k j))
  | inr e ↦ rw e (has-insert k j tt p.entries)
]

-- One more touch.
pub touch-Tracks :
    (k : Bytes) (p : Lru) (es : List Event) → Tracks p es → Tracks (touch k p) (touched k ∷ es)
unfolding member age
touch-Tracks k p es t =
    let o = touch-order k p (t.entries k) in
    let m = λ (j : Bytes). member-remove_key es 0 k j p.order t.ages in
    record {
      ages = rw o (
        0,
        rw (same_refl k) refl,
        omega arith,
        Ages-touched es 0 k (remove_key k p.order) (rw (m k) (rw (same_refl k)))
            (Ages-remove_key es 0 k p.order t.ages),
      );
      entries = λ j. rw (touch-entries k j p, o) (ground (arith, m j, t.entries j));
      complete = λ j. rw o (λ h. ground (arith, m j, t.complete j));
    }

pub on_remove-order :
    (k : Bytes) (p : Lru)
    → (has k p.entries ≡ member k p.order)
    → (on_remove k p).order ≡ remove_key k p.order
unfolding on_remove
on_remove-order k p h = elim (Bool-cases (has k p.entries)) [
  | inl e ↦ rw e
  | inr e ↦ rw e (sym (remove_key_absent k p.order (sym h ∙ e)))
]

pub on_remove-entries :
    (k j : Bytes) (p : Lru)
    → has j (on_remove k p).entries ≡ (if same k j then false else has j p.entries)
unfolding on_remove
on_remove-entries k j p = elim (Bool-cases (has k p.entries)) [
  | inl e ↦ rw e (has-delete k j p.entries)
  | inr e ↦ rw e (ground (arith, same_iff k j))
]

-- One more removal.
pub on_remove-Tracks :
    (k : Bytes) (p : Lru) (es : List Event) → Tracks p es → Tracks (on_remove k p) (removed k ∷ es)
unfolding member age
on_remove-Tracks k p es t =
    let o = on_remove-order k p (t.entries k) in
    let m = λ (j : Bytes). member-remove_key es 0 k j p.order t.ages in
    record {
      ages = rw o (
          Ages-weaken (removed k ∷ es) 1 0 (remove_key k p.order) (omega arith) (
            Ages-removed es 0 k (remove_key k p.order) (rw (m k) (rw (same_refl k)))
              (Ages-remove_key es 0 k p.order t.ages)));
      entries = λ j. rw (on_remove-entries k j p, o) (ground (arith, m j, t.entries j));
      complete = λ j. rw o (λ h. ground (arith, m j, t.complete j));
    }

pub after-Tracks : (es : List Event) → Tracks (after es) es
unfolding after new_lru age
after-Tracks [] = record {
  ages = tt;
  entries = λ k. unfold lookup member in refl;
  complete = λ k h. refl;
}
after-Tracks (touched k ∷ es) = touch-Tracks k (after es) es (after-Tracks es)
after-Tracks (removed k ∷ es) = on_remove-Tracks k (after es) es (after-Tracks es)

-- The back of the list is tracked, and no tracked key is older.
back-oldest :
    (es : List Event) (low : ℕ) (k : Bytes) (order : List Bytes)
    → Ages es low (k ∷ order)
    → (v : Bytes) × (back (k ∷ order) ≡ some v)
      × (member v (k ∷ order) ≡ true)
      × ((a : ℕ) × (age v es ≡ some a)
          × (low ≤ a)
          × ((j : Bytes) → member j (k ∷ order) ≡ true → (b : ℕ) × (age j es ≡ some b) × (b ≤ a)))
unfolding back member
back-oldest es low k [] (a, e, l, g) = (
  k,
  refl,
  rw (same_refl k),
  (a, e, l, λ j m. let q : k ≡ j = ground (arith, same_iff k j) in (a, rw (← q) e, omega arith)),
)
back-oldest es low k (i ∷ order) (a, e, l, g) =
    let (v, p, m, (c, e', l', old)) = back-oldest es (suc a) i order g in
    (
      v,
      p,
      ground arith,
      (
        c,
        e',
        omega arith,
        λ j h. elim (Bool-cases (same k j)) [
          | inl s ↦ let q : k ≡ j = (same_iff k j).0 s in (a, rw (← q) e, omega arith)
          | inr n ↦ old j (ground arith)
        ],
      ),
    )

pub back-none : (order : List Bytes) → back order ≡ none → order ≡ []
unfolding back
back-none [] h = refl
back-none (k ∷ []) h = cc
back-none (k ∷ j ∷ order) h = cc (back-none (j ∷ order) h)

-- What `Victim` returns in terms of the ages: none only if no key is tracked.
IsOldest : List Event → Option Bytes → Type 0
IsOldest es none = (j : Bytes) → age j es ≡ none
IsOldest es (some v) =
    (a : ℕ) × (age v es ≡ some a) × ((j : Bytes) (b : ℕ) → age j es ≡ some b → b ≤ a)

pub tracked-of_age :
    (p : Lru) (es : List Event)
    → Tracks p es
    → (j : Bytes) (b : ℕ) → age j es ≡ some b
    → member j p.order ≡ true
tracked-of_age p es t j b e = elim (Bool-cases (member j p.order)) [
  | inl m ↦ m
  | inr n ↦ cc (t.complete j n)
]

order-IsOldest :
    (order : List Bytes) (es : List Event)
    → Ages es 0 order
    → ((k : Bytes) → member k order ≡ false → age k es ≡ none)
    → ((j : Bytes) (b : ℕ) → age j es ≡ some b → member j order ≡ true)
    → IsOldest es (back order)
unfolding IsOldest back
order-IsOldest [] es g c t = λ j. c j (unfold member in refl)
order-IsOldest (k ∷ order) es g c t =
    let (v, p, m, (a, e, l, old)) = back-oldest es 0 k order g in
    rw p (a, e, λ j b h. let (b', e', le) = old j (t j b h) in ground arith)

-- After any calls, the victim is a tracked key that no tracked key is older than, and there is no
-- victim only if no key is tracked.
victim-oldest :
    (es : List Event)
    → (victim (after es) ≡ none → (j : Bytes) → age j es ≡ none)
      × ((v : Bytes)
          → victim (after es) ≡ some v
          → (a : ℕ) × (age v es ≡ some a) × ((j : Bytes) (b : ℕ) → age j es ≡ some b → b ≤ a))
unfolding victim
victim-oldest es =
    let t = after-Tracks es in
    let o = order-IsOldest (after es).order es t.ages t.complete (tracked-of_age (after es) es t) in
    (
      λ h. let o' = subst (IsOldest es) h o in unfold IsOldest in o',
      λ v h. let o' = subst (IsOldest es) h o in unfold IsOldest in o',
    )

-- Exact LRU: after any calls, the victim is a tracked key, and no tracked key was touched longer ago.
pub victim-is_oldest :
    (es : List Event) (v j : Bytes) (b : ℕ)
    → victim (after es) ≡ some v
    → age j es ≡ some b
    → (a : ℕ) × (age v es ≡ some a) × (b ≤ a)
victim-is_oldest es v j b h e = let (a, f, old) = (victim-oldest es).1 v h in (a, f, old j b e)
