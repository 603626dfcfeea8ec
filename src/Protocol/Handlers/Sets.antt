-- ===== src/Protocol/Handlers/Sets.antt =====
-- command_sadd.go, command_srem.go, command_sismember.go and command_smembers.go.
pub mod Keeps
use redis_course.Base.{ℕ, List, [], ◌∷◌, Bytes, codes}
use redis_course.Base.Int.{pos}
use redis_course.Protocol.Resp.{encode_integer, encode_array_bulk_strings}
use redis_course.Storage.Eviction.{EvictionPolicy}
use redis_course.Storage.Store.{SortedSets, Store}
use redis_course.Storage.Store.Sets.{store_sadd, store_srem, store_sismember, store_smembers}
use redis_course.Protocol.Handlers.{Env, Handler, encode_wrong_arity, store_reply}

module _ {P : EvictionPolicy} {Z : SortedSets} where
  unfoldable pub handle_sadd : Handler P Z
  unfolding store_sadd store_reply encode_wrong_arity encode_integer
  handle_sadd env (key ∷ member ∷ members) s =
      let (t, reply) = store_sadd (env.now 0) env.draws key (member ∷ members) s in
      (t, store_reply (λ n. encode_integer (pos n)) reply)
  handle_sadd env args s = (s, encode_wrong_arity (codes "sadd"))

  unfoldable pub handle_srem : Handler P Z
  unfolding store_srem store_reply encode_wrong_arity encode_integer
  handle_srem env (key ∷ member ∷ members) s =
      let (t, reply) = store_srem (env.now 0) key (member ∷ members) s in
      (t, store_reply (λ n. encode_integer (pos n)) reply)
  handle_srem env args s = (s, encode_wrong_arity (codes "srem"))

  unfoldable pub handle_sismember : Handler P Z
  unfolding store_sismember store_reply encode_wrong_arity encode_integer
  handle_sismember env (key ∷ member ∷ []) s =
      let (t, reply) = store_sismember (env.now 0) (env.now 1) key member s in
      (t, store_reply (λ n. encode_integer (pos n)) reply)
  handle_sismember env args s = (s, encode_wrong_arity (codes "sismember"))

  unfoldable pub handle_smembers : Handler P Z
  unfolding store_smembers store_reply encode_wrong_arity encode_array_bulk_strings
  handle_smembers env (key ∷ []) s =
      let (t, reply) = store_smembers (env.now 0) (env.now 1) key s in
      (t, store_reply encode_array_bulk_strings reply)
  handle_smembers env args s = (s, encode_wrong_arity (codes "smembers"))
