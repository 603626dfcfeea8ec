-- ===== src/Base/Decimal/RoundTrip.antt =====
-- `format_int` and `parse_int` one after the other.
use redis_course.Base.{
  ℕ, zero, suc, ◌+◌, ◌-◌, ◌*◌, ◌/◌, ◌%◌, ◌^◌, ◌≤◌, ◌<◌, ◌≡◌, ◌≢◌, refl, ap, ◌∙◌, true, some, none,
  Option, ◌==◌, [], ◌∷◌, ◌++◌, arith, Bytes, ltb, leb, All, Bool-cases, inl, inr,
}
use redis_course.Base.Int.{ℤ, pos, negsuc, max_int64, max_uint64, InInt64}
use redis_course.Base.Decimal.{
  digits, format_nat, format_int, all_digits, value, parse_digits, parse_int, parse_uint,
  map_option, negate,
}
use mathlib.Core.Path.{subst}
use native.Mathlib.Numerals.{add-one}
use mathlib.Core.List.{foldl-append}

-- A decimal digit is no sign and no control character.
abbrev pub IsDigit : ℕ → Type 0
IsDigit c = (b'0' ≤ c) × (c ≤ b'9')

all_digits-append :
    (s t : Bytes) → all_digits s ≡ true → all_digits t ≡ true → all_digits (s ++ t) ≡ true
unfolding all_digits
all_digits-append [] t p q = q
all_digits-append (c ∷ s) t p q = ground (arith, all_digits-append s t)

digit-IsDigit : (n : ℕ) → n < 10 → all_digits ((b'0' + n) ∷ []) ≡ true
unfolding all_digits
digit-IsDigit n h = ground arith

digits-all_digits : (f n : ℕ) → n < f → all_digits (digits f n) ≡ true
unfolding digits
digits-all_digits zero n h = elim h [ ]
digits-all_digits (suc f) n h = elim (Bool-cases (ltb n 10)) [
  | inl small ↦ rw small (digit-IsDigit n (ground arith))
  | inr large ↦ rw large (
      all_digits-append (digits f (n / 10)) _ (digits-all_digits f (n / 10) (ground arith))
        (digit-IsDigit (n % 10) (omega arith)))
]

value_last : (s : Bytes) (m c : ℕ) → value m (s ++ c ∷ []) ≡ value m s * 10 + (c - b'0')
unfolding value
value_last s m c = rw foldl-append

snoc-ne-nil : (s : Bytes) (c : ℕ) → (s ++ c ∷ []) ≢ []
snoc-ne-nil [] c = cc
snoc-ne-nil (d ∷ s) c = cc

le→leb : (a b : ℕ) → a ≤ b → leb a b ≡ true
le→leb a b h = ground arith

value-digits : (f n : ℕ) → n < f → value 0 (digits f n) ≡ n
unfolding digits
value-digits zero n h = elim h [ ]
value-digits (suc f) n h = elim (Bool-cases (ltb n 10)) [
  | inl small ↦ rw small (unfold value in omega arith)
  | inr large ↦ rw (large, value_last) (omega (arith, value-digits f (n / 10) (ground arith)))
]

digits-ne-nil : (f n : ℕ) → n < f → digits f n ≢ []
unfolding digits
digits-ne-nil zero n h = elim h [ ]
digits-ne-nil (suc f) n h = elim (Bool-cases (ltb n 10)) [
  | inl small ↦ rw small (cc)
  | inr large ↦ rw large (snoc-ne-nil (digits f (n / 10)) _)
]

format_nat-ne-nil : (n : ℕ) → format_nat n ≢ []
unfolding format_nat
format_nat-ne-nil n = digits-ne-nil (suc n) n (omega arith)

parse_digits_lem :
    (limit : ℕ) (s : Bytes)
    → s ≢ []
    → all_digits s ≡ true
    → value 0 s ≤ limit
    → parse_digits limit s ≡ some (value 0 s)
unfolding parse_digits
parse_digits_lem limit [] h p q = absurd (h refl)
parse_digits_lem limit (c ∷ s) h p q = rw (p, le→leb _ _ q)

pub parse_digits-format_nat : (limit n : ℕ) → n ≤ limit → parse_digits limit (format_nat n) ≡ some n
unfolding format_nat
parse_digits-format_nat limit n h =
    let e = value-digits (suc n) n (omega arith) in
    parse_digits_lem limit _ (digits-ne-nil (suc n) n (omega arith))
      (digits-all_digits (suc n) n (omega arith)) (omega (arith, e))
    ∙ ap some e

-- Every uint64 is read back from its print.
pub parse_uint-format_nat : (n : ℕ) → n ≤ max_uint64 → parse_uint (format_nat n) ≡ some n
parse_uint-format_nat n h = unfold parse_uint in parse_digits-format_nat max_uint64 n h

-- A print is made of digits and at most one sign: no byte of it is `c` unless `c` is a digit or `-`.
All-digits→All : (s : Bytes) → all_digits s ≡ true → All IsDigit s
unfolding all_digits
All-digits→All [] h = tt
All-digits→All (c ∷ s) h = ((ground arith, ground arith), All-digits→All s (ground arith))

pub format_nat-All-IsDigit : (n : ℕ) → All IsDigit (format_nat n)
unfolding format_nat
format_nat-All-IsDigit n = All-digits→All _ (digits-all_digits (suc n) n (omega arith))

IsDigit-ne : (c : ℕ) → c < b'0' → (s : Bytes) → All IsDigit s → All (λ d. d ≢ c) s
IsDigit-ne c h [] a = tt
IsDigit-ne c h (d ∷ s) a = (λ e. omega arith, IsDigit-ne c h s a.1)

-- Below the digits there are the controls and the signs.
pub format_int-All-ne : (z : ℤ) (c : ℕ) → c < b'-' → All (λ d. d ≢ c) (format_int z)
unfolding format_int
format_int-All-ne (pos n) c h = IsDigit-ne c (omega arith) _ (format_nat-All-IsDigit n)
format_int-All-ne (negsuc n) c h =
    (λ e. omega arith, IsDigit-ne c (omega arith) _ (format_nat-All-IsDigit (n + 1)))

unsigned :
    (s : Bytes) → s ≢ [] → All IsDigit s → parse_int s ≡ map_option pos (parse_digits max_int64 s)
unfolding parse_int
unsigned [] h a = absurd (h refl)
unsigned (c ∷ s) h a = ground arith

-- Every int64 is read back from its print.
pub parse_int-format_int : (z : ℤ) → InInt64 z → parse_int (format_int z) ≡ some z
unfolding format_int
parse_int-format_int (pos n) h =
    rw (unsigned _ (format_nat-ne-nil n) (format_nat-All-IsDigit n))
      (rw (parse_digits-format_nat max_int64 n (omega arith)) (unfold map_option in refl))
parse_int-format_int (negsuc n) h =
    unfold parse_int in
    rw (parse_digits-format_nat (2 ^ 63) (n + 1) (omega arith)) (rw add-one refl)

parse_digits-le : (limit : ℕ) (s : Bytes) (n : ℕ) → parse_digits limit s ≡ some n → n ≤ limit
unfolding parse_digits
parse_digits-le limit [] n h = cc
parse_digits-le limit (c ∷ s) n h = ground arith

map_option-some {ℓ} :
    {A B : Type ℓ} (f : A → B) (o : Option A) {b : B}
    → map_option f o ≡ some b
    → (a : A) × (o ≡ some a) × (f a ≡ b)
unfolding map_option
map_option-some f none h = cc
map_option-some f (some a) h = (a, refl, ground arith)

pos-InInt64 : (s : Bytes) {z : ℤ} → map_option pos (parse_digits max_int64 s) ≡ some z → InInt64 z
pos-InInt64 s h =
    let (n, e, q) = map_option-some pos (parse_digits max_int64 s) h in
    let b = parse_digits-le max_int64 s n e in subst InInt64 q (omega arith, omega arith)

negate-InInt64 : (n : ℕ) → n ≤ 2 ^ 63 → InInt64 (negate n)
unfolding negate
negate-InInt64 zero h = omega arith
negate-InInt64 (suc n) h = omega arith

-- A number that is read fits an int64.
pub parse_int-InInt64 : (s : Bytes) {z : ℤ} → parse_int s ≡ some z → InInt64 z
unfolding parse_int
parse_int-InInt64 [] h = cc
parse_int-InInt64 (c ∷ s) h = elim (Bool-cases (c == b'-')) [
  | inl e ↦
      let (n, p, q) = map_option-some negate (parse_digits (2 ^ 63) s) (rw e at h) in
      subst InInt64 q (negate-InInt64 n (parse_digits-le (2 ^ 63) s n p))
  | inr n₁ ↦ elim (Bool-cases (c == b'+')) [
    | inl e ↦ pos-InInt64 s (rw (n₁, e) at h)
    | inr n₂ ↦ pos-InInt64 (c ∷ s) (rw (n₁, n₂) at h)
  ]
]
