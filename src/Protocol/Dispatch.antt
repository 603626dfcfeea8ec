-- ===== src/Protocol/Dispatch.antt =====
-- `DispatchCommand` of command_dispatch.go: the commands by name, and the shared store of
-- command_store.go passed through them.
pub mod Keeps
pub mod Replies
use redis_course.Base.{ℕ, Option, none, some, List, [], ◌∷◌, Bytes, codes}
use redis_course.Base.GoMap.{GoMap, lookup}
use redis_course.Protocol.Resp.{Command}
use redis_course.Storage.Eviction.{EvictionPolicy}
use redis_course.Storage.Store.{SortedSets, Store}
use redis_course.Protocol.Handlers.{
  Env, Answer, replies, panics, RiskyHandler, replying, encode_unknown_command,
}
use redis_course.Protocol.Handlers.Strings.{
  handle_ping, handle_set, handle_get, handle_expire, handle_ttl, handle_del, handle_exists,
  handle_incr,
}
use redis_course.Protocol.Handlers.Sets.{
  handle_sadd, handle_srem, handle_sismember, handle_smembers,
}
use redis_course.Protocol.Handlers.Zsets.{
  handle_zadd, handle_zscore, handle_zrank, handle_zrange, handle_zrem,
}
use redis_course.Protocol.Handlers.Sketches.{
  handle_cms_init_by_dim, handle_cms_init_by_prob, handle_cms_incr_by, handle_cms_query,
  handle_cms_info, handle_cms_merge,
}
use redis_course.Protocol.Handlers.Filters.{
  handle_bf_reserve, handle_bf_add, handle_bf_exists, handle_bf_multi_add, handle_bf_multi_exists,
  handle_bf_info,
}
use redis_course.Protocol.Handlers.Info.{handle_info}

module _ {P : EvictionPolicy} {Z : SortedSets} where
  -- The commands of the filters and the sketches may panic.
  unfoldable pub handlers : GoMap (RiskyHandler P Z)
  unfolding replying handle_ping handle_set handle_get handle_expire handle_ttl handle_del
      handle_exists handle_incr handle_sadd handle_srem handle_sismember handle_smembers handle_zadd
      handle_zscore handle_zrank handle_zrange handle_zrem handle_cms_init_by_dim
      handle_cms_init_by_prob handle_cms_incr_by handle_cms_query handle_cms_info handle_cms_merge
      handle_bf_reserve handle_bf_add handle_bf_exists handle_bf_multi_add handle_bf_multi_exists
      handle_bf_info handle_info
  handlers =
      (codes "PING", replying handle_ping)
      ∷ (codes "SET", replying handle_set)
      ∷ (codes "GET", replying handle_get)
      ∷ (codes "EXPIRE", replying handle_expire)
      ∷ (codes "TTL", replying handle_ttl)
      ∷ (codes "DEL", replying handle_del)
      ∷ (codes "EXISTS", replying handle_exists)
      ∷ (codes "INCR", replying handle_incr)
      ∷ (codes "SADD", replying handle_sadd)
      ∷ (codes "SREM", replying handle_srem)
      ∷ (codes "SISMEMBER", replying handle_sismember)
      ∷ (codes "SMEMBERS", replying handle_smembers)
      ∷ (codes "ZADD", replying handle_zadd)
      ∷ (codes "ZSCORE", replying handle_zscore)
      ∷ (codes "ZRANK", replying handle_zrank)
      ∷ (codes "ZRANGE", replying handle_zrange)
      ∷ (codes "ZREM", replying handle_zrem)
      ∷ (codes "CMS.INITBYDIM", handle_cms_init_by_dim)
      ∷ (codes "CMS.INITBYPROB", handle_cms_init_by_prob)
      ∷ (codes "CMS.INCRBY", handle_cms_incr_by)
      ∷ (codes "CMS.QUERY", handle_cms_query)
      ∷ (codes "CMS.INFO", handle_cms_info)
      ∷ (codes "CMS.MERGE", handle_cms_merge)
      ∷ (codes "BF.RESERVE", handle_bf_reserve)
      ∷ (codes "BF.ADD", handle_bf_add)
      ∷ (codes "BF.EXISTS", handle_bf_exists)
      ∷ (codes "BF.MADD", handle_bf_multi_add)
      ∷ (codes "BF.MEXISTS", handle_bf_multi_exists)
      ∷ (codes "BF.INFO", handle_bf_info)
      ∷ (codes "INFO", replying handle_info)
      ∷ []

  unfoldable pub dispatch_command : Env → Command → Store P Z → Store P Z × Answer
  unfolding handlers encode_unknown_command
  dispatch_command env c s = elim (lookup c.cmd handlers) [
    | none ↦ (s, replies (encode_unknown_command c.cmd))
    | some handle ↦ handle env c.args s
  ]

  -- Commands one after the other, each in its own environment, with the answers in a row; a panic is
  -- the last of them.
  unfoldable pub run_commands : List (Env × Command) → Store P Z → Store P Z × List Answer
  unfolding dispatch_command
  run_commands [] s = (s, [])
  run_commands ((env, c) ∷ cs) s =
      let (t, answer) = dispatch_command env c s in
      elim answer [
        | panics ↦ (t, panics ∷ [])
        | replies reply ↦ let (u, answers) = run_commands cs t in (u, replies reply ∷ answers)
      ]
