-- ===== src/Storage/Eviction/Lfu/Policy.antt =====
-- `NewLFU` of internal/storage/eviction_lfu.go: its victim, and the interface's laws.
use redis_course.Base.{
  ℕ, zero, suc, ◌<◌, ◌≡◌, ◌⊎◌, refl, sym, ◌∙◌, inl, inr, true, false, none, some, [], ◌∷◌, Bytes,
  codes, same_iff, arith, length, take, Bool-cases, All,
}
use redis_course.Base.GoMap.{
  GoMap, has, lookup, has-insert, has-delete, has-true, length-delete, insert-IsDistinct,
  delete-IsDistinct, IsDistinct,
}
use mathlib.Core.Path.{subst}
use mathlib.Core.Option.{some-injective}
use redis_course.Storage.Eviction.{EvictionPolicy, Laws}
use redis_course.Storage.Eviction.Lfu.{
  Lfu, LfuEntry, new_lfu, on_insert, on_access, on_remove, less_frequent, choose, key_of, victim,
  eviction_sample_size,
}

-- A range over a map visits its entries.
abbrev pub Ranges : (ℕ → GoMap LfuEntry → GoMap LfuEntry) → Type 0
Ranges order =
    (draw : ℕ) (m : GoMap LfuEntry)
    → IsDistinct m
    → IsDistinct (order draw m) × ((k : Bytes) → lookup k (order draw m) ≡ lookup k m)

abbrev Entry : Type 0
Entry = Bytes × LfuEntry

-- `b` is to be evicted no later than the entries of the list.
abbrev pub NoneBefore : LfuEntry → GoMap LfuEntry → Type 0
NoneBefore b es = All (λ e. less_frequent e.1 b ≡ false) es

not_less_trans :
    (a b c : LfuEntry)
    → less_frequent a b ≡ false
    → less_frequent b c ≡ false
    → less_frequent a c ≡ false
unfolding less_frequent
not_less_trans a b c h k = ground arith

less_asym : (a b : LfuEntry) → less_frequent a b ≡ true → less_frequent b a ≡ false
unfolding less_frequent
less_asym a b h = ground arith

less_irrefl : (a : LfuEntry) → less_frequent a a ≡ false
unfolding less_frequent
less_irrefl a = ground arith

-- `v` stands in the list with the entry `b`.
abbrev pub In : Bytes → LfuEntry → GoMap LfuEntry → Type 0
In v b [] = ⊥
In v b ((k, a) ∷ es) = ((v ≡ k) × (b ≡ a)) ⊎ In v b es

In-skip :
    (v k j : Bytes) (b a c : LfuEntry) (es : GoMap LfuEntry)
    → In v b ((k, a) ∷ es)
    → In v b ((k, a) ∷ (j, c) ∷ es)
In-skip v k j b a c es (inl h) = inl h
In-skip v k j b a c es (inr h) = inr (inr h)

choose-some :
    (k : Bytes) (a : LfuEntry) (es : GoMap LfuEntry)
    → (v : Bytes) × (b : LfuEntry) × (choose (some (k, a)) es ≡ some (v, b))
      × (less_frequent a b ≡ false)
      × NoneBefore b es
      × In v b ((k, a) ∷ es)
unfolding choose
choose-some k a [] = (k, a, refl, less_irrefl a, tt, inl (refl, refl))
choose-some k a ((j, c) ∷ es) = elim (Bool-cases (less_frequent c a)) [
  | inl e ↦
      let (v, b, p, q, n, w) = choose-some j c es in
      (v, b, rw e p, not_less_trans a c b (less_asym c a e) q, (q, n), inr w)
  | inr e ↦
      let (v, b, p, q, n, w) = choose-some k a es in
      (v, b, rw e p, q, (not_less_trans c a b e q, n), In-skip v k j b a c es w)
]

choose-key :
    (es : GoMap LfuEntry) (v : Bytes)
    → key_of (choose none es) ≡ some v
    → (b : LfuEntry) × In v b es × NoneBefore b es
unfolding choose key_of
choose-key [] v h = cc
choose-key ((k, a) ∷ es) v h =
    let (w, b, p, q, n, m) = choose-some k a es in
    let e : w ≡ v = some-injective _ _ (rw p at h) in
    (b, subst (λ u. In u b ((k, a) ∷ es)) e m, (q, n))

choose-none : (es : GoMap LfuEntry) → key_of (choose none es) ≡ none → es ≡ []
unfolding choose key_of
choose-none [] h = refl
choose-none ((k, a) ∷ es) h = let (w, b, p, q, n, m) = choose-some k a es in cc (rw p at h)

pub In-take :
    (n : ℕ) (es : GoMap LfuEntry) (v : Bytes) (b : LfuEntry) → In v b (take n es) → In v b es
In-take zero es v b h = absurd h
In-take (suc n) [] v b h = h
In-take (suc n) ((j, c) ∷ es) v b (inl h) = inl h
In-take (suc n) ((j, c) ∷ es) v b (inr h) = inr (In-take n es v b h)

pub lookup-In :
    (es : GoMap LfuEntry) (v : Bytes) (b : LfuEntry)
    → IsDistinct es
    → In v b es
    → lookup v es ≡ some b
unfolding lookup
lookup-In [] v b d h = absurd h
lookup-In ((k, a) ∷ es) v b d (inl h) = ground (arith, same_iff v k)
lookup-In ((k, a) ∷ es) v b d (inr h) =
    let i = lookup-In es v b d.1 h in ground (arith, same_iff v k)

take-nil : (n : ℕ) (es : GoMap LfuEntry) → 0 < n → take n es ≡ [] → es ≡ []
take-nil zero es h e = elim h [ ]
take-nil (suc n) [] h e = refl
take-nil (suc n) (x ∷ es) h e = cc

has-nil : (es : GoMap LfuEntry) (k : Bytes) → es ≡ [] → has k es ≡ false
unfolding lookup
has-nil es k e = rw e

has-some : (es : GoMap LfuEntry) (k : Bytes) (b : LfuEntry) → lookup k es ≡ some b → has k es ≡ true
has-some es k b e = rw (e, has)

has-cong : (es fs : GoMap LfuEntry) (k : Bytes) → lookup k es ≡ lookup k fs → has k es ≡ has k fs
has-cong es fs k e = rw (e, has)

module _ (order : ℕ → GoMap LfuEntry → GoMap LfuEntry) where
  abbrev pub lfu : EvictionPolicy
  lfu = record {
    State = Lfu;
    name = codes "lfu";
    initial = new_lfu;
    on_insert = on_insert;
    on_access = on_access;
    on_remove = on_remove;
    victim = victim order;
  }

  -- The keys that one call of `Victim` examines.
  abbrev pub sampled : ℕ → Lfu → GoMap LfuEntry
  sampled draw p = take p.sample (order draw p.entries)

pub record IsValid (p : Lfu) : Type 0 where
  pub distinct : IsDistinct p.entries
  pub five : p.sample ≡ eviction_sample_size

-- The victim of a valid policy is an examined key with its entry, and no examined entry goes before
-- its entry.
pub victim-first :
    (order : ℕ → GoMap LfuEntry → GoMap LfuEntry) (draw : ℕ) (p : Lfu) (v : Bytes)
    → Ranges order
    → IsValid p
    → victim order draw p ≡ some v
    → (b : LfuEntry) × (lookup v p.entries ≡ some b)
      × In v b (sampled order draw p)
      × NoneBefore b (sampled order draw p)
unfolding victim
victim-first order draw p v ranges h e =
    let (b, i, n) = choose-key (sampled order draw p) v e in
    let (d, l) = ranges draw p.entries h.distinct in
    (
      b,
      sym (l v)
          ∙ lookup-In (order draw p.entries) v b d (In-take p.sample (order draw p.entries) v b i),
      i,
      n,
    )

victim_none :
    (order : ℕ → GoMap LfuEntry → GoMap LfuEntry) (draw : ℕ) (p : Lfu) (k : Bytes)
    → Ranges order
    → IsValid p
    → victim order draw p ≡ none
    → has k p.entries ≡ false
unfolding victim
victim_none order draw p k ranges h e =
    let (d, l) = ranges draw p.entries h.distinct in
    sym (has-cong (order draw p.entries) p.entries k (l k))
    ∙ has-nil (order draw p.entries) k (
        take-nil p.sample (order draw p.entries) (omega (arith, h.five))
          (choose-none (sampled order draw p) e))

-- LFU keeps every promise of the `EvictionPolicy` interface, however Go orders a range over a map.
pub lfu-Laws : (order : ℕ → GoMap LfuEntry → GoMap LfuEntry) → Ranges order → Laws (lfu order)
unfolding on_insert on_access on_remove new_lfu lookup
lfu-Laws order ranges = record {
  Valid = IsValid;
  tracks = λ k p. has k p.entries;
  count = λ p. length p.entries;
  initial-Valid = record { distinct = tt; five = refl };
  on_insert-Valid =
      λ k p v. record { distinct = insert-IsDistinct k _ p.entries v.distinct; five = v.five };
  on_access-Valid =
      λ k p v. record { distinct = insert-IsDistinct k _ p.entries v.distinct; five = v.five };
  on_remove-Valid =
      λ k p v. record { distinct = delete-IsDistinct k p.entries v.distinct; five = v.five };
  tracks-initial = λ j. refl;
  tracks-on_insert = λ k j p v. has-insert k j _ p.entries;
  tracks-on_access = λ k j p v. has-insert k j _ p.entries;
  tracks-on_remove = λ k j p v. has-delete k j p.entries;
  count-on_remove = λ k p v h.
      let (b, e) = has-true k p.entries h in
      omega (arith, length-delete k b p.entries v.distinct e);
  victim-tracked = λ draw p k v h.
      let (b, e, i, n) = victim-first order draw p k ranges v h in has-some p.entries k b e;
  victim-none = λ draw p k v h. victim_none order draw p k ranges v h;
}
