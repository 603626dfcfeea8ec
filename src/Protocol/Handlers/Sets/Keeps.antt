-- ===== src/Protocol/Handlers/Sets/Keeps.antt =====
-- The commands on sets and the invariant of the store.
use redis_course.Base.{[], ◌∷◌}
use redis_course.Storage.SortedSet.{SetLaws}
use redis_course.Storage.Eviction.{EvictionPolicy, Laws}
use redis_course.Storage.Store.{SortedSets}
use redis_course.Protocol.Handlers.Keeps.{Keeps}
use redis_course.Storage.Store.Sets.{store_sismember, store_smembers}
use redis_course.Storage.Store.Sets.Keeps.{store_sadd-IsValid, store_srem-IsValid, read_set-IsValid}
use redis_course.Protocol.Handlers.Sets.{
  handle_sadd, handle_srem, handle_sismember, handle_smembers,
}

module _ {P : EvictionPolicy} {Z : SortedSets} (L : Laws P) (K : SetLaws Z) where
  pub handle_sadd-Keeps : Keeps L K handle_sadd
  unfolding handle_sadd
  handle_sadd-Keeps env [] s v = v
  handle_sadd-Keeps env (key ∷ []) s v = v
  handle_sadd-Keeps env (key ∷ member ∷ members) s v =
      store_sadd-IsValid L K (env.now 0) env.draws key (member ∷ members) s v

  pub handle_srem-Keeps : Keeps L K handle_srem
  unfolding handle_srem
  handle_srem-Keeps env [] s v = v
  handle_srem-Keeps env (key ∷ []) s v = v
  handle_srem-Keeps env (key ∷ member ∷ members) s v =
      store_srem-IsValid L K (env.now 0) key (member ∷ members) s v

  pub handle_sismember-Keeps : Keeps L K handle_sismember
  unfolding handle_sismember store_sismember
  handle_sismember-Keeps env [] s v = v
  handle_sismember-Keeps env (key ∷ []) s v = v
  handle_sismember-Keeps env (key ∷ member ∷ []) s v =
      read_set-IsValid L K (env.now 0) (env.now 1) _ _ key s v
  handle_sismember-Keeps env (key ∷ member ∷ c ∷ args) s v = v

  pub handle_smembers-Keeps : Keeps L K handle_smembers
  unfolding handle_smembers store_smembers
  handle_smembers-Keeps env [] s v = v
  handle_smembers-Keeps env (key ∷ []) s v =
      read_set-IsValid L K (env.now 0) (env.now 1) _ _ key s v
  handle_smembers-Keeps env (key ∷ b ∷ args) s v = v
