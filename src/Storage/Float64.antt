-- ===== src/Storage/Float64.antt =====
-- Go's float64 as far as internal/storage compares it: a sign and 63 bits of magnitude, ordered as
-- IEEE 754 orders them. What math computes with floats is a parameter, `FloatMath`.
use redis_course.Base.{ℕ, zero, suc, Bool, false, not, ◌&&◌, ◌||◌, ltb, if◌then◌else◌}
use redis_course.Base.Int.{ℤ, pos, negsuc, ltb_ℤ}

pub record Float64 : Type 0 where
  pub negative : Bool
  pub magnitude : ℕ

-- The bits of infinity; a larger magnitude is no number.
abbrev pub infinity_bits : ℕ
infinity_bits = 0x7ff0000000000000

unfoldable pub is_nan : Float64 → Bool
is_nan x = ltb infinity_bits x.magnitude

-- The order of the values is that of the signed magnitudes; both zeros are 0.
negated : ℕ → ℤ
negated n = elim n [ zero ↦ pos 0 | suc m ↦ negsuc m ]

pub signed : Float64 → ℤ
unfolding negated
signed x = if x.negative then negated x.magnitude else pos x.magnitude

unfoldable pub float_lt : Float64 → Float64 → Bool
unfolding is_nan signed
float_lt x y = not (is_nan x) && not (is_nan y) && ltb_ℤ (signed x) (signed y)

unfoldable pub float_eq : Float64 → Float64 → Bool
unfolding is_nan signed
float_eq x y =
    not (is_nan x)
    && not (is_nan y)
    && not (ltb_ℤ (signed x) (signed y))
    && not (ltb_ℤ (signed y) (signed x))

abbrev pub float_zero : Float64
float_zero = record { negative = false; magnitude = 0 }

abbrev pub float_one : Float64
float_one = record { negative = false; magnitude = 0x3ff0000000000000 }

-- `x <= 0 || x >= 1 || math.IsNaN(x)`, negated: the test of a rate.
unfoldable pub is_rate : Float64 → Bool
unfolding float_lt
is_rate x = float_lt float_zero x && float_lt x float_one

-- `x <= 0 || x >= 1`, the test that the handlers refuse a rate by: it is false on NaN.
unfoldable pub outside_unit : Float64 → Bool
unfolding float_lt float_eq
outside_unit x =
    float_lt x float_zero || float_eq x float_zero || float_lt float_one x || float_eq float_one x

-- What the code computes with math.Ceil, math.Log and math.Round, each as a uint64.
pub record FloatMath : Type 0 where
  -- ceil(-capacity * ln(rate) / ln(2)^2)
  pub bloom_bits : Float64 → ℕ → ℕ
  -- round(bits / capacity * ln(2))
  pub bloom_hashes : ℕ → ℕ → ℕ
  -- ceil(e / rate)
  pub sketch_width : Float64 → ℕ
  -- ceil(ln(1 / probability))
  pub sketch_depth : Float64 → ℕ
