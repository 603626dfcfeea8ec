-- ===== src/Storage/SkipList.antt =====
-- internal/storage/skip_list.go. The nodes stand in a heap, a list that only grows, and a pointer is
-- a node's index in it; the head is node 0. The tosses of rand.IntN are a stream, `flips`, of which a
-- list has read the first `drawn`. A walk over a chain has as much fuel as there are nodes.
pub mod Reads
use redis_course.Base.{
  ℕ, zero, suc, ◌+◌, ◌-◌, ◌≡◌, refl, Bool, true, false, not, ◌&&◌, ◌||◌, Option, none, some, List,
  [], ◌∷◌, ◌++◌, Bytes, codes, ltb, leb, ◌==◌, if◌then◌else◌, length, get_elem?, get_or, set,
  replicate, same,
}
use redis_course.Base.GoMap.{GoMap, lookup, has, insert, delete}
use redis_course.Base.Int.{ℤ, pos, negsuc}
use redis_course.Storage.Float64.{Float64, float_zero, float_eq}
use redis_course.Storage.SortedSet.{SortedSets, less}

abbrev pub max_skip_list_height : ℕ
max_skip_list_height = 32

pub record SkipListNode : Type 0 where
  pub member : Bytes
  pub score : Float64
  pub next : List (Option ℕ)

pub record SkipList : Type 0 where
  pub heap : List SkipListNode
  pub members : GoMap ℕ
  pub len : ℕ
  pub drawn : ℕ

unfoldable pub new_node : Bytes → Float64 → SkipListNode
new_node m x = record { member = m; score = x; next = replicate max_skip_list_height none }

unfoldable pub new_skip_list : SkipList
unfolding new_node
new_skip_list = record { heap = new_node [] float_zero ∷ []; members = []; len = 0; drawn = 0 }

-- `node.next[level]`, and a write to it.
unfoldable pub next_of : List SkipListNode → ℕ → ℕ → Option ℕ
next_of heap node level = elim (get_elem? heap node) [
  | none ↦ none
  | some n ↦ get_or n.next level none
]

unfoldable pub set_next : ℕ → ℕ → Option ℕ → List SkipListNode → List SkipListNode
set_next node level target heap = elim (get_elem? heap node) [
  | none ↦ heap
  | some n ↦ set heap node (record n { next = set n.next level target })
]

-- Whether the node stands before the score and the member.
node_less : List SkipListNode → ℕ → Float64 → Bytes → Bool
unfolding less
node_less heap node x m = elim (get_elem? heap node) [
  | none ↦ false
  | some n ↦ less n.score n.member x m
]

-- The inner loop of `predecessors`, along one level.
unfoldable pub walk : ℕ → List SkipListNode → Float64 → Bytes → ℕ → ℕ → ℕ
unfolding next_of node_less
walk zero heap x m level node = node
walk (suc f) heap x m level node = elim (next_of heap node level) [
  | none ↦ node
  | some next ↦
      let further = walk f heap x m level next in if node_less heap next x m then further else node
]

-- The loop over the levels below `levels`, from the highest down: the node reached on each level, by
-- level.
unfoldable pub descend : ℕ → List SkipListNode → Float64 → Bytes → ℕ → List ℕ
unfolding walk
descend zero heap x m node = []
descend (suc level) heap x m node =
    let reached = walk (length heap) heap x m level node in
    descend level heap x m reached ++ (reached ∷ [])

unfoldable pub predecessors : Float64 → Bytes → SkipList → List ℕ
unfolding descend
predecessors x m s = descend max_skip_list_height s.heap x m 0

-- The tosses of `randomHeight` from the one numbered `i` on, with at most `f` more levels: the height
-- that they add, and the number of tosses.
tosses : (ℕ → Bool) → ℕ → ℕ → ℕ × ℕ
tosses flips zero i = (0, 0)
tosses flips (suc f) i =
    let (height, n) = tosses flips f (suc i) in if flips i then (suc height, suc n) else (0, 1)

points_to : ℕ → Option ℕ → Bool
points_to node none = false
points_to node (some n) = n == node

-- The loop of `remove` over the levels from `level` on.
unfoldable pub unlink : ℕ → ℕ → ℕ → List ℕ → List SkipListNode → List SkipListNode
unfolding next_of set_next points_to
unlink zero level node update heap = heap
unlink (suc f) level node update heap =
    let before = get_or update level 0 in
    unlink f (suc level) node update (
      if points_to node (next_of heap before level)
      then set_next before level (next_of heap node level) heap
      else heap)

score_of : List SkipListNode → ℕ → Float64
score_of heap node = elim (get_elem? heap node) [ none ↦ float_zero | some n ↦ n.score ]

unfoldable pub remove : Bytes → SkipList → SkipList × Bool
unfolding predecessors unlink score_of
remove m s = elim (lookup m s.members) [
  | none ↦ (s, false)
  | some node ↦
      let update = predecessors (score_of s.heap node) m s in
      (
        record s {
          heap = unlink max_skip_list_height 0 node update s.heap;
          members = delete m s.members;
          len = s.len - 1;
        },
        true,
      )
]

unfoldable pub get_member_score : Bytes → SkipList → Option Float64
unfolding score_of
get_member_score m s = elim (lookup m s.members) [
  | none ↦ none
  | some node ↦ some (score_of s.heap node)
]

module _ (flips : ℕ → Bool) where
  unfoldable pub random_height : ℕ → ℕ × ℕ
  unfolding tosses
  random_height drawn =
      let (height, n) = tosses flips (max_skip_list_height - 1) drawn in (suc height, drawn + n)

  -- The loop of `add` that links the new node, whose test draws a height again in each round; `f` is
  -- the number of levels that are left.
  unfoldable pub link : ℕ → ℕ → ℕ → List ℕ → SkipList → SkipList
  unfolding random_height next_of set_next
  link zero level node update s = record s { drawn = (random_height s.drawn).1 }
  link (suc f) level node update s =
      let (height, drawn) = random_height s.drawn in
      let before = get_or update level 0 in
      let heap = set_next node level (next_of s.heap before level) s.heap in
      let linked = record s { heap = set_next before level (some node) heap; drawn = drawn } in
      let rest = link f (suc level) node update linked in
      if ltb level height then rest else record s { drawn = drawn }

  -- `add` of a member that is not in the map.
  unfoldable pub add_new : Bytes → Float64 → SkipList → SkipList
  unfolding predecessors new_node link
  add_new m x s =
      let node = length s.heap in
      let update = predecessors x m s in
      let t =
        link max_skip_list_height 0 node update
          (record s { heap = s.heap ++ (new_node m x ∷ []) }) in
      record t { members = insert m node t.members; len = suc t.len }

  -- `update`: its call of `add` finds the member gone from the map.
  unfoldable pub update : Bytes → Float64 → SkipList → SkipList × Bool
  unfolding remove add_new score_of
  update m x s = elim (lookup m s.members) [
    | none ↦ (s, false)
    | some node ↦
        if float_eq (score_of s.heap node) x then (s, true) else (add_new m x (remove m s).0, true)
  ]

  unfoldable pub add : Bytes → Float64 → SkipList → SkipList × Bool
  unfolding update add_new score_of
  add m x s = elim (lookup m s.members) [
    | none ↦ (add_new m x s, true)
    | some node ↦
        if float_eq (score_of s.heap node) x then (s, false) else ((update m x s).0, false)
  ]

-- The members along level 0 behind a node.
unfoldable pub chain : ℕ → List SkipListNode → ℕ → List Bytes
unfolding next_of
chain zero heap node = []
chain (suc f) heap node = elim (next_of heap node 0) [
  | none ↦ []
  | some next ↦ elim (get_elem? heap next) [ none ↦ [] | some n ↦ n.member ∷ chain f heap next ]
]

-- The loop of `getRank`.
unfoldable pub rank_from : ℕ → Bytes → List Bytes → Option ℕ
rank_from rank m [] = none
rank_from rank m (n ∷ ns) =
    let rest = rank_from (suc rank) m ns in if same n m then some rank else rest

unfoldable pub get_rank : Bytes → SkipList → Option ℕ
unfolding chain rank_from
get_rank m s = rank_from 0 m (chain (length s.heap) s.heap 0)

-- The ends of a range: a negative one counts from the end of a list of `n` members; `none` is a
-- negative last rank.
unfoldable pub first_index : ℤ → ℕ → ℕ
first_index (pos k) n = k
first_index (negsuc k) n = n - suc k

unfoldable pub last_index : ℤ → ℕ → Option ℕ
last_index (pos k) n = if ltb k n then some k else if n == 0 then none else some (n - 1)
last_index (negsuc k) n = if leb (suc k) n then some (n - suc k) else none

-- The loop of `getRange`, at an index.
collect : ℕ → ℕ → ℕ → List Bytes → List Bytes
collect index start stop [] = []
collect index start stop (m ∷ ms) =
    let rest = collect (suc index) start stop ms in
    if ltb stop index then [] else if leb start index then m ∷ rest else rest

unfoldable pub get_range : ℤ → ℤ → SkipList → List Bytes
unfolding first_index last_index collect chain
get_range start stop s =
    let first = first_index start s.len in
    elim (last_index stop s.len) [
      | none ↦ []
      | some last ↦
          if ltb last first || leb s.len first
          then []
          else collect 0 first last (chain (length s.heap) s.heap 0)
    ]
