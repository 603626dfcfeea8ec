-- ===== src/Storage/Store/Capacity.antt =====
-- The eviction of internal/storage/eviction.go: `overCapacity`, `evictLocked`, `Evict`, `Sweep`,
-- the store's configuration, and `Stats` of internal/storage/stats.go. A loop on fuel returns the
-- store that it has reached when the fuel is used up.
pub mod Evicts
pub mod Sweeps
use redis_course.Base.{
  ℕ, zero, suc, ◌+◌, ◌-◌, ◌%◌, ◌^◌, Bool, true, false, ◌&&◌, ◌||◌, Option, none, some, List, [],
  ◌∷◌, Bytes, codes, ltb, if◌then◌else◌, length,
}
use redis_course.Base.GoMap.{GoMap, lookup}
use redis_course.Base.Int.{ℤ, pos, negsuc, ltb_ℤ, wrap}
use redis_course.Storage.Eviction.{EvictionPolicy}
use redis_course.Storage.Store.{
  SortedSets, SortedSetType, skip_list, Record, Store, add64, track_remove, drop_key, notify_remove,
  remove_expired, is_expired,
}

pub counted : Bool → ℕ → ℕ
counted b n = if b then suc n else n

-- The policy's choice; `none` also where there is no policy.
unfoldable pub victim_of : {A : Type 0} → (A → Option Bytes) → Option A → Option Bytes
victim_of choose none = none
victim_of choose (some p) = choose p

policy_name : {A : Type 0} → Bytes → Option A → Bytes
policy_name name none = codes "noeviction"
policy_name name (some p) = name

pub record StoreStats : Type 0 where
  pub keys : ℕ
  pub expired_keys : ℕ
  pub evicted_keys : ℕ
  pub hits : ℕ
  pub misses : ℕ
  pub used_memory : ℕ
  pub max_memory : ℤ
  pub eviction_policy : Bytes

module _ {P : EvictionPolicy} {Z : SortedSets} where
  -- `New` with the options that set the sorted set's type, the limits and the policy.
  unfoldable pub new_store : SortedSetType → ℤ → ℤ → Option P.State → Store P Z
  new_store t max_entries max_memory policy = record {
    records = [];
    sorted_set_type = t;
    max_entries = max_entries;
    max_memory = max_memory;
    eviction_policy = policy;
    hits = 0;
    misses = 0;
    expired_keys = 0;
    evicted_keys = 0;
    used_memory = 0;
  }

  unfoldable pub over_capacity : Store P Z → Bool
  over_capacity s =
      (ltb_ℤ (pos 0) s.max_entries && ltb_ℤ s.max_entries (pos (length s.records)))
      || (ltb_ℤ (pos 0) s.max_memory && ltb_ℤ s.max_memory (wrap s.used_memory))

  -- The body of the loop of `evictLocked` with the victim in hand: the store, and whether a key was
  -- evicted.
  unfoldable pub evict_key : Bytes → Store P Z → Store P Z × Bool
  evict_key key s = elim (lookup key s.records) [
    | none ↦ (notify_remove key s, false)
    | some r ↦
        let t = track_remove key r (drop_key key s) in
        (record t { evicted_keys = add64 t.evicted_keys 1 }, true)
  ]

  -- The loop, on fuel; the round with `n` fuel to go draws `draws n`.
  unfoldable pub evict_loop : (ℕ → ℕ) → ℕ → Store P Z → Store P Z × ℕ
  unfolding evict_key victim_of over_capacity counted
  evict_loop draws zero s = (s, 0)
  evict_loop draws (suc n) s =
      if over_capacity s
      then elim (victim_of (P.victim (draws n)) s.eviction_policy) [
        | none ↦ (s, 0)
        | some key ↦
            let (t, one) = evict_key key s in
            let (u, more) = evict_loop draws n t in (u, counted one more)
      ]
      else (s, 0)

  -- `evictLocked`: the store, and the number of keys evicted.
  unfoldable pub evict_locked : (ℕ → ℕ) → Store P Z → Store P Z × ℕ
  unfolding evict_loop
  evict_locked draws s = evict_loop draws (length s.records) s

  -- The loop of `Sweep` over the entries, in an order of Go's choice; `clock` gives the reading for
  -- a key.
  unfoldable pub sweep_entries : (Bytes → ℕ) → GoMap (Record Z) → Store P Z → Store P Z × ℕ
  unfolding remove_expired is_expired
  sweep_entries clock [] s = (s, 0)
  sweep_entries clock ((key, r) ∷ es) s =
      let expired = is_expired (clock key) r in
      let (t, n) = sweep_entries clock es (if expired then remove_expired key r s else s) in
      (t, if expired then suc n else n)

  unfoldable pub sweep : (Bytes → ℕ) → (ℕ → ℕ) → Store P Z → Store P Z × ℕ × ℕ
  unfolding sweep_entries evict_locked
  sweep clock draws s =
      let (t, expired) = sweep_entries clock s.records s in
      let (u, evicted) = evict_locked draws t in (u, expired, evicted)

  -- `Stats`
  unfoldable pub stats : Store P Z → StoreStats
  unfolding policy_name
  stats s = record {
    keys = length s.records;
    expired_keys = s.expired_keys;
    evicted_keys = s.evicted_keys;
    hits = s.hits;
    misses = s.misses;
    used_memory = s.used_memory;
    max_memory = s.max_memory;
    eviction_policy = policy_name P.name s.eviction_policy;
  }
