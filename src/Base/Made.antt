-- ===== src/Base/Made.antt =====
-- The result of a constructor of Go that allocates a slice: `make` panics when the slice is larger
-- than what the runtime can allocate, 2^48 bytes on the 64-bit platforms.
use Prim.Native.Nat.{ℕ, ◌^◌}
use mathlib.Core.Path.{◌≡◌, refl, ap}
use mathlib.Core.Logic.{◌⊎◌, inl, inr}

pub data Made (A : Type 0) : Type 0 where
  made : A → Made A
  invalid : Made A
  too_large : Made A

abbrev pub max_alloc : ℕ
max_alloc = 2 ^ 48

value_or : {A : Type 0} → A → Made A → A
value_or a (made b) = b
value_or a invalid = a
value_or a too_large = a

pub made-injective : {A : Type 0} (a b : A) → made a ≡ made b → a ≡ b
unfolding value_or
made-injective a b e = ap (value_or a) e

pub Made-cases :
    {A : Type 0} (m : Made A) → (m ≡ invalid) ⊎ ((m ≡ too_large) ⊎ ((a : A) × (m ≡ made a)))
Made-cases invalid = inl refl
Made-cases too_large = inr (inl refl)
Made-cases (made a) = inr (inr (a, refl))
