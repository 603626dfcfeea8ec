-- ===== src/Protocol/Dispatch/Keeps.antt =====
-- The commands of internal/protocol and the invariant of the store: dispatched one after the other,
-- they keep it.
use redis_course.Base.{
  ◌≡◌, inl, inr, some, List, [], ◌∷◌, Bytes, codes, same, true, false, ◌⊎◌, Bool-cases,
  Option-cases, All,
}
use mathlib.Core.Path.{subst}
use mathlib.Core.Option.{some-injective}
use redis_course.Base.Int.{ℤ}
use redis_course.Base.GoMap.{GoMap, lookup}
use redis_course.Protocol.Resp.{Command}
use redis_course.Storage.SortedSet.{SetLaws, untrusted}
use redis_course.Storage.Eviction.{EvictionPolicy, Laws}
use redis_course.Storage.Store.{SortedSets, SortedSetType, Store}
use redis_course.Storage.Store.Valid.{IsValid}
use redis_course.Storage.Store.Capacity.Sweeps.{new_store-IsValid}
use redis_course.Storage.Store.Capacity.{new_store}
use redis_course.Protocol.Handlers.{Env, Answer-cases}
use redis_course.Protocol.Handlers.Keeps.{Keeps, replying-Keeps}
use redis_course.Protocol.Handlers.Strings.Keeps.{
  handle_ping-Keeps, handle_set-Keeps, handle_get-Keeps, handle_expire-Keeps, handle_ttl-Keeps,
  handle_del-Keeps, handle_exists-Keeps, handle_incr-Keeps,
}
use redis_course.Protocol.Handlers.Sets.Keeps.{
  handle_sadd-Keeps, handle_srem-Keeps, handle_sismember-Keeps, handle_smembers-Keeps,
}
use redis_course.Protocol.Handlers.Zsets.Keeps.{
  handle_zadd-Keeps, handle_zscore-Keeps, handle_zrank-Keeps, handle_zrange-Keeps,
  handle_zrem-Keeps,
}
use redis_course.Protocol.Handlers.Sketches.Keeps.{
  handle_cms_init_by_dim-Keeps, handle_cms_init_by_prob-Keeps, handle_cms_incr_by-Keeps,
  handle_cms_query-Keeps, handle_cms_info-Keeps, handle_cms_merge-Keeps,
}
use redis_course.Protocol.Handlers.Filters.Keeps.{
  handle_bf_reserve-Keeps, handle_bf_add-Keeps, handle_bf_exists-Keeps, handle_bf_multi_add-Keeps,
  handle_bf_multi_exists-Keeps, handle_bf_info-Keeps,
}
use redis_course.Protocol.Handlers.Strings.{
  handle_ping, handle_set, handle_get, handle_expire, handle_ttl, handle_del, handle_exists,
  handle_incr,
}
use redis_course.Protocol.Handlers.Sets.{
  handle_sadd, handle_srem, handle_sismember, handle_smembers,
}
use redis_course.Protocol.Handlers.Zsets.{
  handle_zadd, handle_zscore, handle_zrank, handle_zrange, handle_zrem,
}
use redis_course.Protocol.Handlers.Info.{handle_info}
use redis_course.Protocol.Dispatch.{handlers, dispatch_command, run_commands}

infixr 5 ◌&◌
◌&◌ : {A B : Type 0} → A → B → A × B
a & b = (a, b)

-- What holds of every entry of a map that the key fits holds of the one that is found.
lookup-All :
    {V : Type 0} (Q : V → Type 0) (k : Bytes) (m : GoMap V) (v : V)
    → All (λ e. same k e.0 ≡ true → Q e.1) m
    → lookup k m ≡ some v
    → Q v
unfolding lookup
lookup-All Q k [] v h e = absurd (cc)
lookup-All Q k ((j, w) ∷ m) v (h, hs) e = elim (Bool-cases (same k j)) [
  | inl b ↦ subst Q (some-injective w v (rw b at e)) (h b)
  | inr b ↦ lookup-All Q k m v hs (rw b at e)
]

module _ {P : EvictionPolicy} {Z : SortedSets} (L : Laws P) (K : SetLaws Z) where
  handle_info-Keeps : Keeps L K handle_info
  unfolding handle_info
  handle_info-Keeps env args s v = v

  -- A command that may run: any but ZADD, or any at all if the index of a sorted set is trusted.
  abbrev Allowed : Bytes → Type 0
  Allowed name = (same name (codes "ZADD") ≡ false) ⊎ K.Trusted

  trusted : (name : Bytes) → same name (codes "ZADD") ≡ true → Allowed name → K.Trusted
  trusted name b (inl e) = absurd (cc)
  trusted name b (inr t) = t

  handlers-Keep :
      (name : Bytes) → Allowed name → All (λ e. same name e.0 ≡ true → Keeps L K e.1) handlers
  unfolding handlers
  handlers-Keep name allowed =
      (λ b. replying-Keeps L K handle_ping (handle_ping-Keeps L K))
      & (λ b. replying-Keeps L K handle_set (handle_set-Keeps L K))
      & (λ b. replying-Keeps L K handle_get (handle_get-Keeps L K))
      & (λ b. replying-Keeps L K handle_expire (handle_expire-Keeps L K))
      & (λ b. replying-Keeps L K handle_ttl (handle_ttl-Keeps L K))
      & (λ b. replying-Keeps L K handle_del (handle_del-Keeps L K))
      & (λ b. replying-Keeps L K handle_exists (handle_exists-Keeps L K))
      & (λ b. replying-Keeps L K handle_incr (handle_incr-Keeps L K))
      & (λ b. replying-Keeps L K handle_sadd (handle_sadd-Keeps L K))
      & (λ b. replying-Keeps L K handle_srem (handle_srem-Keeps L K))
      & (λ b. replying-Keeps L K handle_sismember (handle_sismember-Keeps L K))
      & (λ b. replying-Keeps L K handle_smembers (handle_smembers-Keeps L K))
      & (λ b. replying-Keeps L K handle_zadd (handle_zadd-Keeps L K (trusted name b allowed)))
      & (λ b. replying-Keeps L K handle_zscore (handle_zscore-Keeps L K))
      & (λ b. replying-Keeps L K handle_zrank (handle_zrank-Keeps L K))
      & (λ b. replying-Keeps L K handle_zrange (handle_zrange-Keeps L K))
      & (λ b. replying-Keeps L K handle_zrem (handle_zrem-Keeps L K))
      & (λ b. handle_cms_init_by_dim-Keeps L K)
      & (λ b. handle_cms_init_by_prob-Keeps L K)
      & (λ b. handle_cms_incr_by-Keeps L K)
      & (λ b. handle_cms_query-Keeps L K)
      & (λ b. handle_cms_info-Keeps L K)
      & (λ b. handle_cms_merge-Keeps L K)
      & (λ b. handle_bf_reserve-Keeps L K)
      & (λ b. handle_bf_add-Keeps L K)
      & (λ b. handle_bf_exists-Keeps L K)
      & (λ b. handle_bf_multi_add-Keeps L K)
      & (λ b. handle_bf_multi_exists-Keeps L K)
      & (λ b. handle_bf_info-Keeps L K)
      & (λ b. replying-Keeps L K handle_info handle_info-Keeps)
      & tt

  pub All-Allowed :
      (cs : List (Env × Command))
      → All (λ e. same e.1.cmd (codes "ZADD") ≡ false) cs
      → All (λ e. Allowed e.1.cmd) cs
  All-Allowed [] h = tt
  All-Allowed (e ∷ cs) (h, hs) = (inl h, All-Allowed cs hs)

  -- Every command that may run, whatever its arguments and its reply, keeps the store valid.
  pub dispatch_command-IsValid :
      (env : Env) (c : Command) (s : Store P Z)
      → Allowed c.cmd
      → IsValid L K s
      → IsValid L K (dispatch_command env c s).0
  unfolding dispatch_command
  dispatch_command-IsValid env c s h v =
      elim (Option-cases (lookup c.cmd (handlers {P = P} {Z = Z}))) [
        | inl e ↦ rw (e, dispatch_command) v
        | inr (handle, e) ↦
            rw (e, dispatch_command)
              (lookup-All (Keeps L K) c.cmd handlers handle (handlers-Keep c.cmd h) e env c.args s
                v)
      ]

  run_commands-Keeps :
      (cs : List (Env × Command)) (s : Store P Z)
      → All (λ e. Allowed e.1.cmd) cs
      → IsValid L K s
      → IsValid L K (run_commands cs s).0
  unfolding run_commands
  run_commands-Keeps [] s h v = v
  run_commands-Keeps ((env, c) ∷ cs) s (h, hs) v =
      let w = dispatch_command-IsValid env c s h v in
      elim (Answer-cases (dispatch_command env c s).1) [
        | inl e ↦ rw (e, run_commands) w
        | inr (reply, e) ↦
            rw (e, run_commands) (run_commands-Keeps cs (dispatch_command env c s).0 hs w)
      ]

-- Every store that commands other than ZADD, in whatever order, make of a new one is valid: no key
-- stands twice, simple sets have distinct members, there is no sorted set, its counter of used memory
-- is the sum of its records' sizes modulo 2^64, and its policy tracks exactly its keys. Nothing is
-- asked of the index of sorted sets; the policy keeps the promises of `Laws`.
pub run_commands-IsValid :
    {P : EvictionPolicy} (L : Laws P) (Z : SortedSets) (t : SortedSetType)
    (max_entries max_memory : ℤ) (cs : List (Env × Command))
    → All (λ e. same e.1.cmd (codes "ZADD") ≡ false) cs
    → IsValid L
        (untrusted Z)
        (run_commands cs (new_store t max_entries max_memory (some P.initial))).0
run_commands-IsValid {P = P} L Z t max_entries max_memory cs h =
    run_commands-Keeps L (untrusted Z) cs (new_store t max_entries max_memory (some P.initial))
      (All-Allowed L (untrusted Z) cs h)
      (new_store-IsValid L (untrusted Z) t max_entries max_memory)
