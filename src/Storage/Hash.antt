-- ===== src/Storage/Hash.antt =====
-- The hash of internal/storage/bloom_filter.go (hashBloomItem) and of
-- internal/storage/count_min_sketch.go (hashItem): FNV-1a over the item and eight bytes of seed.
use Prim.Native.Nat.{bit_xor}
use redis_course.Base.{ℕ, zero, suc, ◌*◌, ◌/◌, ◌%◌, ◌^◌, ◌≡◌, refl, [], ◌∷◌, ◌++◌, Bytes, codes}
use mathlib.Core.List.{foldl}

-- hash/fnv, New64a and Sum64.
fnv_1a : Bytes → ℕ
fnv_1a = foldl (λ hash byte. bit_xor hash byte * 1099511628211 % 2 ^ 64) 14695981039346656037

-- `byte(index >> (byteIndex * 8))`, for `count` bytes.
seed_bytes : ℕ → ℕ → Bytes
seed_bytes zero index = []
seed_bytes (suc count) index = (index % 256) ∷ seed_bytes count (index / 256)

unfoldable pub hash_item : Bytes → ℕ → ℕ
unfolding fnv_1a seed_bytes
hash_item item index = fnv_1a (item ++ seed_bytes 8 index)

-- The published FNV-1a value of "a".
fnv_1a_a : fnv_1a (codes "a") ≡ 0xaf63dc4c8601ec8c
unfolding fnv_1a
fnv_1a_a = refl
