-- ===== src/Storage/Eviction/Lfu/Uses.antt =====
-- The victim of internal/storage/eviction_lfu.go against the history of the calls.
use redis_course.Base.{
  ℕ, zero, suc, ◌≤◌, ◌<◌, ◌≡◌, ◌⊎◌, refl, sym, ◌∙◌, inl, inr, true, false, Option, none, some, List,
  [], ◌∷◌, Bytes, same, same_refl, same_iff, ap, if◌then◌else◌, ◌==◌, arith, Bool-cases, All,
}
use mathlib.Core.Option.{some-injective}
use redis_course.Base.GoMap.{
  GoMap, has, lookup, lookup-insert, lookup-delete, insert-IsDistinct, delete-IsDistinct,
}
use redis_course.Storage.Eviction.Lfu.{
  Lfu, LfuEntry, new_lfu, on_insert, on_access, on_remove, less_frequent, victim, entry_or_zero,
}
use redis_course.Storage.Eviction.Lfu.Policy.{
  Ranges, IsValid, In, In-take, lookup-In, NoneBefore, sampled, victim-first,
}

-- A call of `OnInsert`, of `OnAccess` and of `OnRemove`.
pub data Event : Type 0 where
  inserted accessed removed : Bytes → Event

-- How often the key was used since it was put in, the putting in included; 0 if it is not tracked.
-- The latest call stands first.
unfoldable pub uses : Bytes → List Event → ℕ
uses k [] = 0
uses k (inserted j ∷ es) = if same j k then 1 else uses k es
uses k (accessed j ∷ es) = let n = uses k es in if same j k then suc n else n
uses k (removed j ∷ es) = if same j k then 0 else uses k es

-- The number of uses of all keys.
unfoldable pub all_uses : List Event → ℕ
all_uses [] = 0
all_uses (inserted j ∷ es) = suc (all_uses es)
all_uses (accessed j ∷ es) = suc (all_uses es)
all_uses (removed j ∷ es) = all_uses es

-- Which one of them was the latest use of the key, the first one being number 1.
unfoldable pub last_use : Bytes → List Event → ℕ
unfolding all_uses
last_use k [] = 0
last_use k (inserted j ∷ es) = if same j k then suc (all_uses es) else last_use k es
last_use k (accessed j ∷ es) = if same j k then suc (all_uses es) else last_use k es
last_use k (removed j ∷ es) = last_use k es

-- The policy after the calls.
unfoldable pub after : List Event → Lfu
after [] = new_lfu
after (inserted k ∷ es) = on_insert k (after es)
after (accessed k ∷ es) = on_access k (after es)
after (removed k ∷ es) = on_remove k (after es)

-- `v` was used less often than `k`, or as often, and its latest use is no later.
abbrev pub LessUsed : List Event → Bytes → Bytes → Type 0
LessUsed es v k =
    (uses v es < uses k es) ⊎ ((uses v es ≡ uses k es) × (last_use v es ≤ last_use k es))

-- The entry that the history calls for.
entry_of : ℕ → ℕ → Option LfuEntry
entry_of zero last = none
entry_of (suc n) last = some (record { freq = suc n; last = last })

seq-after : (es : List Event) → (after es).seq ≡ all_uses es
unfolding after all_uses on_insert on_access on_remove new_lfu
seq-after [] = refl
seq-after (inserted j ∷ es) = let e = seq-after es in omega arith
seq-after (accessed j ∷ es) = let e = seq-after es in omega arith
seq-after (removed j ∷ es) = seq-after es

freq-entry_of : (n last : ℕ) → (entry_or_zero (entry_of n last)).freq ≡ n
unfolding entry_of entry_or_zero
freq-entry_of zero last = refl
freq-entry_of (suc n) last = refl

abbrev entry : ℕ → ℕ → LfuEntry
entry n last = record { freq = n; last = last }

same_entries : (f g a b : ℕ) → f ≡ g → a ≡ b → some (entry f a) ≡ some (entry g b)
same_entries f g a b e h = rw e (rw h refl)

-- The entries count what the history says.
lookup-after :
    (k : Bytes) (es : List Event)
    → lookup k (after es).entries ≡ entry_of (uses k es) (last_use k es)
unfolding after uses last_use on_insert on_access on_remove new_lfu entry_of lookup
lookup-after k [] = refl
lookup-after k (inserted j ∷ es) =
    let s = seq-after es in
    let i = lookup-after k es in
    lookup-insert j k _ (after es).entries ∙ elim (Bool-cases (same j k)) [
      | inl e ↦ rw e (same_entries 1 1 _ _ refl (omega arith))
      | inr e ↦ rw e i
    ]
lookup-after k (accessed j ∷ es) =
    let s = seq-after es in
    let i = lookup-after k es in
    lookup-insert j k _ (after es).entries ∙ elim (Bool-cases (same j k)) [
      | inl e ↦ rw e (
          let k_j : j ≡ k = (same_iff j k).0 e in
          let q : (entry_or_zero (lookup k (after es).entries)).freq ≡ uses k es =
            rw (← freq-entry_of (uses k es) (last_use k es)) (ap (λ o. (entry_or_zero o).freq) i) in
          same_entries _ _ _ _ (rw k_j (omega arith)) (omega arith))
      | inr e ↦ rw e i
    ]
lookup-after k (removed j ∷ es) =
    lookup-delete j k (after es).entries
    ∙ elim (Bool-cases (same j k)) [ inl e ↦ rw e refl | inr e ↦ rw e (lookup-after k es) ]

after-IsValid : (es : List Event) → IsValid (after es)
unfolding after on_insert on_access on_remove new_lfu
after-IsValid [] = record { distinct = tt; five = refl }
after-IsValid (inserted k ∷ es) =
    let v = after-IsValid es in
    record { distinct = insert-IsDistinct k _ (after es).entries v.distinct; five = v.five }
after-IsValid (accessed k ∷ es) =
    let v = after-IsValid es in
    record { distinct = insert-IsDistinct k _ (after es).entries v.distinct; five = v.five }
after-IsValid (removed k ∷ es) =
    let v = after-IsValid es in
    record { distinct = delete-IsDistinct k (after es).entries v.distinct; five = v.five }

not_before :
    (a b : LfuEntry)
    → less_frequent a b ≡ false
    → (b.freq < a.freq) ⊎ ((b.freq ≡ a.freq) × (b.last ≤ a.last))
unfolding less_frequent
not_before a b h = elim (Bool-cases (a.freq == b.freq)) [
  | inl e ↦ inr (ground arith)
  | inr e ↦ inl (ground arith)
]

entry_of-uses :
    (n last : ℕ) (b : LfuEntry)
    → entry_of n last ≡ some b
    → (0 < n) × (b.freq ≡ n) × (b.last ≡ last)
unfolding entry_of
entry_of-uses zero last b h = cc
entry_of-uses (suc n) last b h =
    let e = some-injective _ _ h in (omega arith, rw (← e) refl, rw (← e) refl)

tracked :
    (k : Bytes) (es : List Event) (b : LfuEntry)
    → lookup k (after es).entries ≡ some b
    → (0 < uses k es) × (b.freq ≡ uses k es) × (b.last ≡ last_use k es)
tracked k es b h = entry_of-uses (uses k es) (last_use k es) b (sym (lookup-after k es) ∙ h)

NoneBefore-LessUsed :
    (es : List Event) (v : Bytes) (b : LfuEntry) (m : GoMap LfuEntry)
    → lookup v (after es).entries ≡ some b
    → ((k : Bytes) (c : LfuEntry) → In k c m → lookup k (after es).entries ≡ some c)
    → NoneBefore b m
    → All (λ e. LessUsed es v e.0) m
NoneBefore-LessUsed es v b [] h f n = tt
NoneBefore-LessUsed es v b ((k, c) ∷ m) h f (n, ns) = (
  (let (p, q, r) = tracked v es b h in
      let (s, t, u) = tracked k es c (f k c (inl (refl, refl))) in
      elim (not_before c b n) [
        | inl l ↦ inl (omega arith)
        | inr (d, l) ↦ inr (omega arith, omega arith)
      ]),
  NoneBefore-LessUsed es v b m h (λ j a i. f j a (inr i)) ns,
)

In-has : (v : Bytes) (b : LfuEntry) (m : GoMap LfuEntry) → In v b m → has v m ≡ true
unfolding lookup
In-has v b [] h = absurd h
In-has v b ((k, a) ∷ m) (inl (e, _)) = rw (e, same_refl k, has) refl
In-has v b ((k, a) ∷ m) (inr h) = let i = In-has v b m h in ground arith

-- The victim, after any calls of `OnInsert`, `OnAccess` and `OnRemove` on a new policy and whatever
-- the order in which Go ranges over the map, is a tracked key among those that `Victim` examines; of
-- these none was used less often since it was put in, and one that was used as often was used last no
-- earlier than the victim.
pub victim-is_least_used :
    (order : ℕ → GoMap LfuEntry → GoMap LfuEntry) (draw : ℕ) (es : List Event) (v : Bytes)
    → Ranges order
    → victim order draw (after es) ≡ some v
    → (0 < uses v es)
      × (has v (sampled order draw (after es)) ≡ true)
      × All (λ e. LessUsed es v e.0) (sampled order draw (after es))
victim-is_least_used order draw es v ranges h =
    let p = after es in
    let (b, e, i, n) = victim-first order draw p v ranges (after-IsValid es) h in
    let (d, l) = ranges draw p.entries (after-IsValid es).distinct in
    let (q, _, _) = tracked v es b e in
    (
      q,
      In-has v b (sampled order draw p) i,
      NoneBefore-LessUsed es v b (sampled order draw p) e
          (λ k c j.
            sym (l k)
            ∙ lookup-In (order draw p.entries) k c d
                (In-take p.sample (order draw p.entries) k c j))
          n,
    )
