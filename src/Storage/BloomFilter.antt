-- ===== src/Storage/BloomFilter.antt =====
-- The Bloom filter of internal/storage/bloom_filter.go, without the store around it. Words of the
-- bit array are numbers below 2^64.
pub mod Members
use Prim.Native.Nat.{bit_and, bit_or}
use redis_course.Base.{
  ℕ, zero, suc, ◌+◌, ◌-◌, ◌*◌, ◌/◌, ◌%◌, ◌^◌, ◌≡◌, refl, Bool, true, false, not, ◌||◌, Option, none,
  some, List, [], ◌∷◌, Bytes, codes, ltb, ◌==◌, if◌then◌else◌, length, get_or, set, replicate,
}
use redis_course.Base.Made.{Made, made, invalid, too_large, max_alloc}
use redis_course.Base.Int.{max_uint64, max_int64}
use redis_course.Storage.Float64.{Float64, FloatMath, is_rate}
use redis_course.Storage.Hash.{hash_item}

abbrev pub default_bloom_filter_capacity : ℕ
default_bloom_filter_capacity = 1000

pub record BloomFilter : Type 0 where
  pub bits : List ℕ
  pub bit_count : ℕ
  pub hash_count : ℕ
  pub capacity : ℕ
  pub count : ℕ

unfoldable pub size : BloomFilter → ℕ
size f = length f.bits * 8

-- `invalid` stands for ErrBloomFilterIncompatible. A word takes 8 bytes.
unfoldable pub new_bloom_filter : FloatMath → Float64 → ℕ → Made BloomFilter
new_bloom_filter math error_rate capacity =
    if not (is_rate error_rate) || (capacity == 0)
    then invalid
    else let bit_count = math.bloom_bits error_rate capacity in
      let word_count = (bit_count + 63) / 64 in
      let hash_count = math.bloom_hashes bit_count capacity in
      if (bit_count == 0) || ltb (2 ^ 64 - 64) bit_count
      then invalid
      else if ltb max_int64 word_count
      then invalid
      else if ltb max_alloc (word_count * 8)
      then too_large
      else made (record {
        bits = replicate word_count 0;
        bit_count = bit_count;
        hash_count = if hash_count == 0 then 1 else hash_count;
        capacity = capacity;
        count = 0;
      })

unfoldable pub position : ℕ → Bytes → ℕ → ℕ
position bit_count item hash_index = hash_item item hash_index % bit_count

-- `f.bits[position/64] & (1 << (position%64)) == 0`
clear : List ℕ → ℕ → Bool
clear bits p = bit_and (get_or bits (p / 64) 0) (2 ^ (p % 64)) == 0

-- `f.bits[position/64] |= 1 << (position%64)`
set_bit : List ℕ → ℕ → List ℕ
set_bit bits p = set bits (p / 64) (bit_or (get_or bits (p / 64) 0) (2 ^ (p % 64)))

-- The loops of `exists` and `add`, with `n` rounds to go from `hash_index` on.
exists_from : List ℕ → ℕ → Bytes → ℕ → ℕ → Bool
unfolding clear
exists_from bits bit_count item zero hash_index = true
exists_from bits bit_count item (suc n) hash_index =
    let later = exists_from bits bit_count item n (hash_index + 1) in
    if clear bits (position bit_count item hash_index) then false else later

add_from : ℕ → Bytes → ℕ → ℕ → List ℕ → List ℕ
unfolding set_bit
add_from bit_count item zero hash_index bits = bits
add_from bit_count item (suc n) hash_index bits =
    add_from bit_count item n (hash_index + 1) (set_bit bits (position bit_count item hash_index))

unfoldable pub exists : BloomFilter → Bytes → Bool
unfolding exists_from
exists f item = exists_from f.bits f.bit_count item f.hash_count 0

-- The filter with the item, and whether the item was new.
unfoldable pub add : BloomFilter → Bytes → BloomFilter × Bool
unfolding add_from exists
add f item =
    let present = exists f item in
    let bits = add_from f.bit_count item f.hash_count 0 f.bits in
    (
      record f { bits = bits; count = if present then f.count else (f.count + 1) % 2 ^ 64 },
      not present,
    )

abbrev small : BloomFilter
small = record { bits = 0 ∷ 0 ∷ []; bit_count = 100; hash_count = 3; capacity = 10; count = 0 }

small_runs :
    (exists small (codes "a") ≡ false)
    × (exists (add small (codes "a")).0 (codes "a") ≡ true)
    × ((add small (codes "a")).0.count ≡ 1)
unfolding add exists position hash_item
small_runs = (refl, refl, refl)
