-- ===== src/Protocol/Handlers/Info.antt =====
-- command_info.go.
use redis_course.Base.{
  ◌+◌, Bool, false, ◌&&◌, ◌||◌, List, [], ◌∷◌, ◌++◌, map, Bytes, codes, ltb, leb, same,
  if◌then◌else◌,
}
use redis_course.Base.Int.{ℤ, pos, wrap}
use redis_course.Base.Decimal.{format_int}
use redis_course.Protocol.Resp.{is_ascii, cr, lf, encode_bulk_string}
use redis_course.Storage.Eviction.{EvictionPolicy}
use redis_course.Storage.Store.{SortedSets}
use redis_course.Storage.Store.Capacity.{StoreStats, stats}
use redis_course.Protocol.Handlers.{Handler}

-- `strings.ToLower`, where `unicode` is what it makes of a string that is not all ASCII.
unfoldable pub to_lower : (Bytes → Bytes) → Bytes → Bytes
unfolding is_ascii
to_lower unicode s =
    if is_ascii s then map (λ c. if leb b'A' c && leb c b'Z' then c + 32 else c) s else unicode s

unfoldable pub info_default_sections : List Bytes
info_default_sections = codes "memory" ∷ codes "stats" ∷ codes "keyspace" ∷ []

unfoldable pub info_section_supported : Bytes → Bool
info_section_supported name =
    same name (codes "memory") || same name (codes "stats") || same name (codes "keyspace")

-- A name of all sections, or of the default ones, which are the same.
names_all : (Bytes → Bytes) → Bytes → Bool
unfolding to_lower
names_all unicode arg =
    same (to_lower unicode arg) (codes "all")
    || same (to_lower unicode arg) (codes "everything")
    || same (to_lower unicode arg) (codes "default")

any_names_all : (Bytes → Bytes) → List Bytes → Bool
unfolding names_all
any_names_all unicode [] = false
any_names_all unicode (arg ∷ args) = names_all unicode arg || any_names_all unicode args

supported_sections : (Bytes → Bytes) → List Bytes → List Bytes
unfolding to_lower info_section_supported
supported_sections unicode [] = []
supported_sections unicode (arg ∷ args) =
    let rest = supported_sections unicode args in
    if info_section_supported (to_lower unicode arg) then to_lower unicode arg ∷ rest else rest

unfoldable pub requested_info_sections : (Bytes → Bytes) → List Bytes → List Bytes
unfolding any_names_all info_default_sections supported_sections
requested_info_sections unicode args =
    if any_names_all unicode args then info_default_sections else supported_sections unicode args

-- A line of a text, and a line with a number behind its name.
line : Bytes → Bytes → Bytes
line text rest = text ++ (cr ∷ lf ∷ rest)

numbered : Bytes → ℤ → Bytes → Bytes
unfolding line format_int
numbered name n rest = line (name ++ format_int n) rest

render_memory : StoreStats → Bytes
unfolding line numbered
render_memory t = line (codes "# Memory") (
    numbered (codes "used_memory:") (wrap t.used_memory) (
      numbered (codes "maxmemory:") t.max_memory
        (line (codes "maxmemory_policy:" ++ t.eviction_policy) [])))

render_stats : StoreStats → Bytes
unfolding line numbered
render_stats t = line (codes "# Stats") (
    numbered (codes "keyspace_hits:") (wrap t.hits) (
      numbered (codes "keyspace_misses:") (wrap t.misses) (
        numbered (codes "expired_keys:") (wrap t.expired_keys)
          (numbered (codes "evicted_keys:") (wrap t.evicted_keys) []))))

render_keyspace : StoreStats → Bytes
unfolding line format_int
render_keyspace t = line (codes "# Keyspace") (
    if ltb 0 t.keys
    then line (codes "db0:keys=" ++ (format_int (pos t.keys) ++ codes ",expires=0,avg_ttl=0")) []
    else [])

unfoldable pub render_info_section : StoreStats → Bytes → Bytes
unfolding render_memory render_stats render_keyspace
render_info_section t name =
    (if same name (codes "memory")
      then render_memory t
      else if same name (codes "stats")
      then render_stats t
      else if same name (codes "keyspace")
      then render_keyspace t
      else [])
    ++ (cr ∷ lf ∷ [])

render_all : StoreStats → List Bytes → Bytes
unfolding render_info_section
render_all t [] = []
render_all t (name ∷ names) = render_info_section t name ++ render_all t names

unfoldable pub info_sections : (Bytes → Bytes) → List Bytes → List Bytes
unfolding info_default_sections requested_info_sections
info_sections unicode [] = info_default_sections
info_sections unicode (arg ∷ args) = requested_info_sections unicode (arg ∷ args)

module _ {P : EvictionPolicy} {Z : SortedSets} where
  unfoldable pub handle_info : Handler P Z
  unfolding stats info_sections render_all encode_bulk_string
  handle_info env args s =
      (s, encode_bulk_string (render_all (stats s) (info_sections env.unicode_lower args)))
