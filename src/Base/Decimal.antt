-- ===== src/Base/Decimal.antt =====
-- Go's strconv on decimal integers: FormatInt and Itoa, ParseUint, ParseInt and Atoi at base 10
-- and 64 bits.
use redis_course.Base.{
  ℕ, zero, suc, ◌+◌, ◌-◌, ◌*◌, ◌/◌, ◌%◌, ◌^◌, ◌≤◌, ◌<◌, ◌≡◌, refl, ap, ◌∙◌, Bool, true, false, ◌&&◌,
  Option, none, some, List, [], ◌∷◌, ◌++◌, arith, Bytes, codes, ltb, leb, ◌==◌, if◌then◌else◌, All,
  All-append,
}
pub mod RoundTrip
use redis_course.Base.Int.{ℤ, pos, negsuc, max_int64, max_uint64, InInt64}
use mathlib.Core.List.{foldl, foldl-append}

-- One round for each digit, the last digit last.
digits : ℕ → ℕ → Bytes
digits zero n = []
digits (suc f) n =
    let rest = digits f (n / 10) in
    if ltb n 10 then (b'0' + n) ∷ [] else rest ++ ((b'0' + n % 10) ∷ [])

unfoldable pub format_nat : ℕ → Bytes
unfolding digits
format_nat n = digits (suc n) n

unfoldable pub format_int : ℤ → Bytes
unfolding format_nat
format_int (pos n) = format_nat n
format_int (negsuc n) = b'-' ∷ format_nat (n + 1)

is_digit : ℕ → Bool
is_digit c = leb b'0' c && leb c b'9'

all_digits : Bytes → Bool
unfolding is_digit
all_digits [] = true
all_digits (c ∷ s) = is_digit c && all_digits s

-- The number that digits spell behind `n`.
value : ℕ → Bytes → ℕ
value = foldl (λ n c. n * 10 + (c - b'0'))

-- One or more digits, with a value of at most `limit`.
pub parse_digits : ℕ → Bytes → Option ℕ
unfolding all_digits value
parse_digits limit [] = none
parse_digits limit (c ∷ s) =
    if all_digits (c ∷ s)
    then if leb (value 0 (c ∷ s)) limit then some (value 0 (c ∷ s)) else none
    else none

unfoldable pub parse_uint : Bytes → Option ℕ
unfolding parse_digits
parse_uint s = parse_digits max_uint64 s

negate : ℕ → ℤ
negate zero = pos 0
negate (suc n) = negsuc n

map_option {ℓ} : {A B : Type ℓ} → (A → B) → Option A → Option B
map_option f none = none
map_option f (some a) = some (f a)

-- An optional sign, then digits; -2^63 is the least value.
unfoldable pub parse_int : Bytes → Option ℤ
unfolding parse_digits negate map_option
parse_int [] = none
parse_int (c ∷ s) =
    if c == b'-'
    then map_option negate (parse_digits (2 ^ 63) s)
    else if c == b'+'
    then map_option pos (parse_digits max_int64 s)
    else map_option pos (parse_digits max_int64 (c ∷ s))

parse_int_runs :
    (parse_int (codes "-12") ≡ some (negsuc 11))
    × (parse_int (codes "1x") ≡ none)
    × (parse_int (codes "9223372036854775808") ≡ none)
unfolding parse_int
parse_int_runs = (refl, refl, refl)

format_int_runs : format_int (negsuc 119) ≡ codes "-120"
unfolding format_int
format_int_runs = refl
