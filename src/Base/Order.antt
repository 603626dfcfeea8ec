-- ===== src/Base/Order.antt =====
-- The order of Go's strings.
use Prim.Native.Nat.{compare, Ordering}
use redis_course.Base.{Bool, true, false, not, [], ◌∷◌, Bytes}

-- `a <= b`
unfoldable pub string_le : Bytes → Bytes → Bool
string_le [] b = true
string_le (x ∷ a) [] = false
string_le (x ∷ a) (y ∷ b) = elim (compare x y) [
  | Ordering.lt ↦ true
  | Ordering.eq ↦ string_le a b
  | Ordering.gt ↦ false
]

-- `a < b`
unfoldable pub string_lt : Bytes → Bytes → Bool
unfolding string_le
string_lt a b = not (string_le b a)
