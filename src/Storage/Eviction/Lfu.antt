-- ===== src/Storage/Eviction/Lfu.antt =====
-- internal/storage/eviction_lfu.go. The order in which Go ranges over the entries is a parameter,
-- `order`, that depends on the draw and lists the entries.
pub mod Policy
pub mod Uses
use redis_course.Base.{
  ℕ, zero, suc, ◌+◌, ◌%◌, ◌^◌, ◌≡◌, refl, Bool, true, false, not, Option, none, some, List, [], ◌∷◌,
  Bytes, codes, ltb, ◌==◌, if◌then◌else◌, take,
}
use redis_course.Base.GoMap.{GoMap, lookup, insert, delete}

-- evictionSampleSize of internal/storage/eviction.go.
abbrev pub eviction_sample_size : ℕ
eviction_sample_size = 5

-- `lfuEntry`; its counters are int64 that only count up.
pub record LfuEntry : Type 0 where
  pub freq : ℕ
  pub last : ℕ

pub record Lfu : Type 0 where
  pub entries : GoMap LfuEntry
  pub seq : ℕ
  pub sample : ℕ

unfoldable pub new_lfu : Lfu
new_lfu = record { entries = []; seq = 0; sample = eviction_sample_size }

unfoldable pub on_insert : Bytes → Lfu → Lfu
on_insert key p = record p {
  entries = insert key (record { freq = 1; last = p.seq + 1 }) p.entries;
  seq = p.seq + 1;
}

-- A missing key reads as the zero entry.
unfoldable pub entry_or_zero : Option LfuEntry → LfuEntry
entry_or_zero none = record { freq = 0; last = 0 }
entry_or_zero (some entry) = entry

unfoldable pub on_access : Bytes → Lfu → Lfu
unfolding entry_or_zero
on_access key p =
    let entry = entry_or_zero (lookup key p.entries) in
    record p {
      entries = insert key (record { freq = entry.freq + 1; last = p.seq + 1 }) p.entries;
      seq = p.seq + 1;
    }

unfoldable pub on_remove : Bytes → Lfu → Lfu
on_remove key p = record p { entries = delete key p.entries }

unfoldable pub less_frequent : LfuEntry → LfuEntry → Bool
less_frequent a b = if not (a.freq == b.freq) then ltb a.freq b.freq else ltb a.last b.last

-- The loop of `Victim` over the sampled entries, with the best one so far.
pub choose : Option (Bytes × LfuEntry) → GoMap LfuEntry → Option (Bytes × LfuEntry)
unfolding less_frequent
choose found [] = found
choose none (e ∷ es) = choose (some e) es
choose (some (k, a)) ((j, b) ∷ es) = choose (some (if less_frequent b a then (j, b) else (k, a))) es

pub key_of : Option (Bytes × LfuEntry) → Option Bytes
key_of none = none
key_of (some (k, _)) = some k

module _ (order : ℕ → GoMap LfuEntry → GoMap LfuEntry) where
  unfoldable pub victim : ℕ → Lfu → Option Bytes
  unfolding choose key_of
  victim draw p = key_of (choose none (take p.sample (order draw p.entries)))
