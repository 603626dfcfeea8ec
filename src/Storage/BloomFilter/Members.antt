-- ===== src/Storage/BloomFilter/Members.antt =====
-- The members of a filter of internal/storage/bloom_filter.go.
use Prim.Native.Nat.{bit_or}
use redis_course.Base.{
  ℕ, zero, suc, ◌+◌, ◌-◌, ◌*◌, ◌/◌, ◌%◌, ◌^◌, ◌≤◌, ◌<◌, ◌≡◌, inl, inr, refl, ap, ◌∙◌, true, false,
  not, ◌||◌, List, [], ◌∷◌, ◌++◌, Bytes, ltb, ◌==◌, if◌then◌else◌, length, get_or, replicate, arith,
  Bool-cases, length-set, get_or-set_self, get_or-set_ne, get_or-replicate, length-replicate,
}
use mathlib.Core.Path.{subst}
use redis_course.Base.Bits.{bit, bit_and-pow-zero_iff, bit-or_pow, bit-zero}
use redis_course.Base.Made.{made, made-injective, max_alloc}
use redis_course.Base.Int.{max_int64}
use native.Mathlib.Nat.{mod-lt}
use redis_course.Storage.Float64.{Float64, FloatMath, is_rate}
use redis_course.Storage.BloomFilter.{
  BloomFilter, position, clear, set_bit, exists_from, add_from, exists, add, new_bloom_filter,
}

-- Every position lies in the bit array.
pub record IsValid (f : BloomFilter) : Type 0 where
  pub some_bits : 0 < f.bit_count
  pub room : f.bit_count ≤ length f.bits * 64

abbrev bit_at : List ℕ → ℕ → ℕ
bit_at bits p = bit (get_or bits (p / 64) 0) (p % 64)

clear-bit_at : (bits : List ℕ) (p : ℕ) → clear bits p ≡ (bit_at bits p == 0)
unfolding clear
clear-bit_at bits p = bit_and-pow-zero_iff (p % 64) (get_or bits (p / 64) 0)

bit_at-set_bit :
    (bits : List ℕ) (p q : ℕ)
    → p / 64 < length bits
    → bit_at (set_bit bits p) q ≡ (if p == q then 1 else bit_at bits q)
unfolding set_bit
bit_at-set_bit bits p q h = elim (Bool-cases (p / 64 == q / 64)) [
  | inl e ↦
      let e' : q / 64 ≡ p / 64 = ground arith in
      rw e' (
        rw (get_or-set_self bits (p / 64) (bit_or (get_or bits (p / 64) 0) (2 ^ (p % 64))) 0 h)
          (rw (bit-or_pow (p % 64) (q % 64) (get_or bits (p / 64) 0)) (ground arith)))
  | inr n ↦
      rw
        (get_or-set_ne bits (p / 64) (q / 64) (bit_or (get_or bits (p / 64) 0) (2 ^ (p % 64))) 0
          (ground arith))
        (ground arith)
]

-- A bit that is set.
abbrev Marked : List ℕ → ℕ → Type 0
Marked bits p = clear bits p ≡ false

set_bit-marks : (bits : List ℕ) (p : ℕ) → p / 64 < length bits → Marked (set_bit bits p) p
set_bit-marks bits p h = ground (arith, clear-bit_at (set_bit bits p) p, bit_at-set_bit bits p p h)

set_bit-keeps :
    (bits : List ℕ) (p q : ℕ) → p / 64 < length bits → Marked bits q → Marked (set_bit bits p) q
set_bit-keeps bits p q h m =
    ground (arith, clear-bit_at (set_bit bits p) q, clear-bit_at bits q, bit_at-set_bit bits p q h)

length-set_bit : (bits : List ℕ) (p : ℕ) → length (set_bit bits p) ≡ length bits
unfolding set_bit
length-set_bit bits p = length-set bits (p / 64) _

module _ (b : ℕ) (item : Bytes) where
  position-lt : (i : ℕ) → 0 < b → position b item i < b
  unfolding position
  position-lt i h = mod-lt _ h

  in_range :
      (i : ℕ) (bits : List ℕ) → 0 < b → b ≤ length bits * 64 → position b item i / 64 < length bits
  in_range i bits h k = omega (arith, position-lt i h)

  -- The item's positions from round `i` on are set.
  abbrev AllMarked : List ℕ → ℕ → ℕ → Type 0
  AllMarked bits zero i = Unit
  AllMarked bits (suc n) i = Marked bits (position b item i) × AllMarked bits n (i + 1)

  exists_from_sound :
      (bits : List ℕ) (n i : ℕ) → exists_from bits b item n i ≡ true → AllMarked bits n i
  unfolding exists_from
  exists_from_sound bits zero i h = tt
  exists_from_sound bits (suc n) i h = elim (Bool-cases (clear bits (position b item i))) [
    | inl e ↦ cc (rw e at h)
    | inr e ↦ (e, exists_from_sound bits n (i + 1) (rw e at h))
  ]

  exists_from_complete :
      (bits : List ℕ) (n i : ℕ) → AllMarked bits n i → exists_from bits b item n i ≡ true
  unfolding exists_from
  exists_from_complete bits zero i h = refl
  exists_from_complete bits (suc n) i h = rw (h.0) (exists_from_complete bits n (i + 1) h.1)

  module _ (h : 0 < b) where
    length-add_from : (n i : ℕ) (bits : List ℕ) → length (add_from b item n i bits) ≡ length bits
    unfolding add_from
    length-add_from zero i bits = refl
    length-add_from (suc n) i bits =
        length-add_from n (i + 1) (set_bit bits (position b item i))
        ∙ length-set_bit bits (position b item i)

    add_from-keeps :
        (n i : ℕ) (bits : List ℕ) (q : ℕ)
        → b ≤ length bits * 64
        → Marked bits q
        → Marked (add_from b item n i bits) q
    unfolding add_from
    add_from-keeps zero i bits q k m = m
    add_from-keeps (suc n) i bits q k m =
        let p = position b item i in
        add_from-keeps n (i + 1) (set_bit bits p) q (rw (length-set_bit bits p) k)
          (set_bit-keeps bits p q (in_range i bits h k) m)

    add_from-marks :
        (n i : ℕ) (bits : List ℕ) → b ≤ length bits * 64 → AllMarked (add_from b item n i bits) n i
    unfolding add_from
    add_from-marks zero i bits k = tt
    add_from-marks (suc n) i bits k =
        let p = position b item i in
        let k' : b ≤ length (set_bit bits p) * 64 = rw (length-set_bit bits p) k in
        (
          add_from-keeps n (i + 1) (set_bit bits p) p k'
              (set_bit-marks bits p (in_range i bits h k)),
          add_from-marks n (i + 1) (set_bit bits p) k',
        )
    -- Setting more positions keeps all that were set.

module _ (b : ℕ) (item other : Bytes) (h : 0 < b) where
  AllMarked-add_from :
      (bits : List ℕ) (n i m j : ℕ)
      → b ≤ length bits * 64
      → AllMarked b other bits m j
      → AllMarked b other (add_from b item n i bits) m j
  AllMarked-add_from bits n i zero j k a = tt
  AllMarked-add_from bits n i (suc m) j k a = (
    add_from-keeps b item h n i bits (position b other j) k a.0,
    AllMarked-add_from bits n i m (j + 1) k a.1,
  )

-- `add` keeps the filter valid.
pub add-IsValid : (f : BloomFilter) (item : Bytes) → IsValid f → IsValid (add f item).0
unfolding add
add-IsValid f item v = record {
  some_bits = v.some_bits;
  room = rw (length-add_from f.bit_count item v.some_bits f.hash_count 0 f.bits) v.room;
}

exists-add_self : (f : BloomFilter) (item : Bytes) → IsValid f → exists (add f item).0 item ≡ true
unfolding add exists
exists-add_self f item v =
    exists_from_complete f.bit_count item (add f item).0.bits f.hash_count 0
      (add_from-marks f.bit_count item v.some_bits f.hash_count 0 f.bits v.room)

exists-add :
    (f : BloomFilter) (item other : Bytes)
    → IsValid f
    → exists f other ≡ true
    → exists (add f item).0 other ≡ true
unfolding add exists
exists-add f item other v e =
    exists_from_complete f.bit_count other (add f item).0.bits f.hash_count 0 (
      AllMarked-add_from f.bit_count item other v.some_bits f.bits f.hash_count 0 f.hash_count 0
        v.room (exists_from_sound f.bit_count other f.bits f.hash_count 0 e))

-- The filter after a series of additions.
abbrev pub add_all : List Bytes → BloomFilter → BloomFilter
add_all [] f = f
add_all (item ∷ items) f = add_all items (add f item).0

exists-add_all :
    (items : List Bytes) (f : BloomFilter) (item : Bytes)
    → IsValid f
    → exists f item ≡ true
    → exists (add_all items f) item ≡ true
exists-add_all [] f item v e = e
exists-add_all (x ∷ xs) f item v e =
    exists-add_all xs (add f x).0 item (add-IsValid f x v) (exists-add f x item v e)

-- No false negatives: an item that was added to a valid filter is found, whatever was added before
-- and after it.
pub no_false_negatives :
    (f : BloomFilter) (before : List Bytes) (item : Bytes) (after : List Bytes)
    → IsValid f
    → exists (add_all (before ++ item ∷ after) f) item ≡ true
no_false_negatives f [] item after v =
    exists-add_all after (add f item).0 item (add-IsValid f item v) (exists-add_self f item v)
no_false_negatives f (x ∷ before) item after v =
    no_false_negatives (add f x).0 before item after (add-IsValid f x v)

clear-replicate : (w p : ℕ) → clear (replicate w 0) p ≡ true
clear-replicate w p =
    let z = ap (λ (t : ℕ). bit t (p % 64)) (get_or-replicate w (p / 64) 0) in
    ground (arith, clear-bit_at (replicate w 0) p, bit-zero (p % 64), z)

exists_from-fresh :
    (w b : ℕ) (item : Bytes) (n i : ℕ) → 0 < n → exists_from (replicate w 0) b item n i ≡ false
unfolding exists_from
exists_from-fresh w b item zero i h = elim h [ ]
exists_from-fresh w b item (suc n) i h = rw (clear-replicate w (position b item i))

-- What `NewBloomFilter` builds from its sizes, once they passed its tests.
abbrev fresh : ℕ → ℕ → ℕ → BloomFilter
fresh bit_count hash_count capacity = record {
  bits = replicate ((bit_count + 63) / 64) 0;
  bit_count = bit_count;
  hash_count = if hash_count == 0 then 1 else hash_count;
  capacity = capacity;
  count = 0;
}

abbrev IsFresh : ℕ → BloomFilter → Type 0
IsFresh capacity f =
    IsValid f × ((item : Bytes) → exists f item ≡ false) × (f.count ≡ 0) × (f.capacity ≡ capacity)

fresh-IsFresh : (b k capacity : ℕ) → 0 < b → IsFresh capacity (fresh b k capacity)
unfolding exists
fresh-IsFresh b k capacity h =
    let l : length (replicate {A = ℕ} ((b + 63) / 64) 0) ≡ (b + 63) / 64 =
      length-replicate ((b + 63) / 64) 0 in
    (
      record { some_bits = h; room = omega arith },
      λ item. exists_from-fresh ((b + 63) / 64) b item (if k == 0 then 1 else k) 0 (ground arith),
      refl,
      refl,
    )

-- A filter that `NewBloomFilter` returns is valid, empty, and answers no item with "present".
pub new_bloom_filter-IsFresh :
    (math : FloatMath) (rate : Float64) (capacity : ℕ) (f : BloomFilter)
    → new_bloom_filter math rate capacity ≡ made f
    → IsValid f × ((item : Bytes) → exists f item ≡ false) × (f.count ≡ 0) × (f.capacity ≡ capacity)
unfolding new_bloom_filter
new_bloom_filter-IsFresh math rate capacity f h =
    let b = math.bloom_bits rate capacity in
    elim (Bool-cases (not (is_rate rate) || (capacity == 0))) [
      | inl e ↦ cc (rw e at h)
      | inr e₁ ↦ elim (Bool-cases ((b == 0) || ltb (2 ^ 64 - 64) b)) [
        | inl e ↦ cc (rw (e₁, e) at h)
        | inr e₂ ↦ elim (Bool-cases (ltb max_int64 ((b + 63) / 64))) [
          | inl e ↦ cc (rw (e₁, e₂, e) at h)
          | inr e₃ ↦ elim (Bool-cases (ltb max_alloc ((b + 63) / 64 * 8))) [
            | inl e ↦ cc (rw (e₁, e₂, e₃, e) at h)
            | inr e₄ ↦
                let q : made (fresh b (math.bloom_hashes b capacity) capacity) ≡ made f =
                  rw (e₁, e₂, e₃, e₄) at h in
                subst (IsFresh capacity) (made-injective _ _ q)
                  (fresh-IsFresh b (math.bloom_hashes b capacity) capacity (ground arith))
          ]
        ]
      ]
    ]

length-add_any :
    (b : ℕ) (item : Bytes) (n i : ℕ) (bits : List ℕ)
    → length (add_from b item n i bits) ≡ length bits
unfolding add_from
length-add_any b item zero i bits = refl
length-add_any b item (suc n) i bits =
    length-add_any b item n (i + 1) (set_bit bits (position b item i))
    ∙ length-set_bit bits (position b item i)

-- `add` does not change the number of words.
pub length-add : (f : BloomFilter) (item : Bytes) → length (add f item).0.bits ≡ length f.bits
unfolding add
length-add f item = length-add_any f.bit_count item f.hash_count 0 f.bits
