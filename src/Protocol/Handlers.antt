-- ===== src/Protocol/Handlers.antt =====
-- The commands of internal/protocol, command_*.go: what the handlers share. A handler takes the
-- command's arguments and the shared store of command_store.go, and returns the store and its reply.
pub mod Keeps
pub mod Strings
pub mod Sets
pub mod Zsets
pub mod Filters
pub mod Sketches
pub mod Info
use redis_course.Base.{
  ◌≡◌, ◌⊎◌, inl, inr, refl, ℕ, zero, suc, Bool, true, false, Option, none, some, List, [], ◌∷◌,
  ◌++◌, Bytes, codes, length, if◌then◌else◌,
}
use redis_course.Base.Int.{ℤ, pos, negsuc, wrap}
use redis_course.Base.Decimal.{parse_uint}
use redis_course.Protocol.Resp.{encode_error, encode_integer, encode_null_bulk_string}
use redis_course.Storage.Float64.{Float64, FloatMath}
use redis_course.Storage.Eviction.{EvictionPolicy}
use redis_course.Storage.Store.{SortedSets, Store}
use redis_course.Storage.Store.Strings.{Reply, ok, err, not_integer, wrong_type}

-- What a run of a handler takes from outside: its readings of the clock, by number, the draws of the
-- eviction policy, the order in which Go ranges over a map, and the parts of math and strconv that
-- deal with float64.
pub record Env : Type 0 where
  pub now : ℕ → ℕ
  pub draws : ℕ → ℕ
  pub order : ℕ → ℕ
  pub float_math : FloatMath
  -- strconv.ParseFloat(s, 64) and strconv.FormatFloat(f, 'f', -1, 64)
  pub parse_float : Bytes → Option Float64
  pub format_float : Float64 → Bytes
  -- strings.ToUpper and strings.ToLower of a string that is not all ASCII
  pub unicode_upper : Bytes → Bytes
  pub unicode_lower : Bytes → Bytes

unfoldable pub encode_unknown_command : Bytes → Bytes
unfolding encode_error
encode_unknown_command name = encode_error (codes "ERR unknown command '" ++ (name ++ codes "'"))

unfoldable pub encode_wrong_arity : Bytes → Bytes
unfolding encode_error
encode_wrong_arity name =
    encode_error (codes "ERR wrong number of arguments for '" ++ (name ++ codes "' command"))

unfoldable pub encode_not_integer : Bytes
unfolding encode_error
encode_not_integer = encode_error (codes "ERR value is not an integer or out of range")

unfoldable pub encode_wrong_type : Bytes
unfolding encode_error
encode_wrong_type =
    encode_error (codes "WRONGTYPE Operation against a key holding the wrong kind of value")

-- The reply to an error that a handler does not expect.
unfoldable pub encode_internal_error : Bytes
unfolding encode_error
encode_internal_error = encode_error (codes "ERR internal error")

-- `positiveUint` of command_cms.go.
unfoldable pub positive_uint : Bytes → Option ℕ
unfolding parse_uint
positive_uint text = elim (parse_uint text) [
  | none ↦ none
  | some zero ↦ none
  | some (suc n) ↦ some (suc n)
]

-- What the set commands make of a reply of the store: an error other than ErrWrongType is not
-- expected.
unfoldable pub store_reply : {A : Type 0} → (A → Bytes) → Reply A → Bytes
unfolding encode_wrong_type encode_internal_error
store_reply encode (ok a) = encode a
store_reply encode (err wrong_type) = encode_wrong_type
store_reply encode (err not_integer) = encode_internal_error

-- Where a found value is wanted: the null bulk string stands for a missing one.
unfoldable pub found_or_null : {A : Type 0} → (A → Bytes) → Option A → Bytes
unfolding encode_null_bulk_string
found_or_null encode none = encode_null_bulk_string
found_or_null encode (some a) = encode a

-- `1` and `0`, as `boolToInt64` makes them.
unfoldable pub encode_bool : Bool → Bytes
unfolding encode_integer
encode_bool b = if b then encode_integer (pos 1) else encode_integer (pos 0)

-- The order of Go's range over a map: the entries, each put in at a place of Go's choice.
insert_at : {A : Type 0} → ℕ → A → List A → List A
insert_at k a [] = a ∷ []
insert_at zero a (b ∷ bs) = a ∷ b ∷ bs
insert_at (suc k) a (b ∷ bs) = b ∷ insert_at k a bs

unfoldable pub in_order : {A : Type 0} → (ℕ → ℕ) → List A → List A
unfolding insert_at
in_order order [] = []
in_order order (a ∷ rest) = insert_at (order (length rest)) a (in_order order rest)

abbrev pub Handler : EvictionPolicy → SortedSets → Type 0
Handler P Z = Env → List Bytes → Store P Z → Store P Z × Bytes

-- What a run of a command ends in: a reply, or a panic, which ends the program.
pub data Answer : Type 0 where
  replies : Bytes → Answer
  panics : Answer

pub Answer-cases : (a : Answer) → (a ≡ panics) ⊎ ((reply : Bytes) × (a ≡ replies reply))
Answer-cases panics = inl refl
Answer-cases (replies reply) = inr (reply, refl)

-- A handler that may panic, and one that does not as such.
abbrev pub RiskyHandler : EvictionPolicy → SortedSets → Type 0
RiskyHandler P Z = Env → List Bytes → Store P Z → Store P Z × Answer

unfoldable pub replying : {P : EvictionPolicy} {Z : SortedSets} → Handler P Z → RiskyHandler P Z
replying handle env args s = let (t, reply) = handle env args s in (t, replies reply)
