-- ===== src/Storage.antt =====
-- internal/storage.
pub mod Float64
pub mod Hash
pub mod BloomFilter
pub mod CountMinSketch
pub mod Eviction
pub mod SortedSet
pub mod SkipList
pub mod Store
