-- ===== src/Protocol/Resp/Fuel.antt =====
-- The fuel of the decoder of internal/protocol/resp.go.
use redis_course.Base.{
  ℕ, zero, suc, ◌+◌, ◌<◌, ◌≡◌, ◌≢◌, inl, inr, refl, [], ◌∷◌, arith, Bytes, ltb, length, drop,
  length-drop, Bool-cases, Option, none, some, ◌==◌, ◌&&◌,
}
use redis_course.Base.Int.{ℤ, pos, negsuc, ltb_ℤ, wrap}
use redis_course.Base.Decimal.{parse_int}
use redis_course.Protocol.Resp.{
  Value, Error, Result, ok, err, panic, unfinished, ◌>>=◌, invalid_integer, invalid_length,
  max_capacity, cr, lf, or_error, index, check_crlf, scan_line, read_line, read_integer,
  read_length_line, read_bulk_body, bulk_of, read_bulk_string, read_elements, array_of, read_array,
  decode_simple_string, decode_error, decode_integer, decode_body, decode_fuel, decode_one,
}
use redis_course.Protocol.Resp.Bounds.{dispatch-rel, read_length_line-Consumes}

abbrev Agree : ℕ → (Bytes → Result (Value × ℕ)) → (Bytes → Result (Value × ℕ)) → Type 0
Agree n d d' = (bytes : Bytes) → length bytes < n → d bytes ≡ d' bytes

bind-cong {ℓ κ} :
    {A : Type ℓ} {B : Type κ} (m : Result A) (f g : A → Result B)
    → ((a : A) → m ≡ ok a → f a ≡ g a)
    → (m >>= f) ≡ (m >>= g)
bind-cong (ok a) f g h = h a refl
bind-cong (err e) f g h = refl
bind-cong panic f g h = refl
bind-cong unfinished f g h = refl

module _ (d d' : Bytes → Result (Value × ℕ)) where
  read_elements-Agree :
      (count : ℕ) (bytes : Bytes) (at : ℕ)
      → Agree (length bytes) d d'
      → 0 < at
      → 0 < length bytes
      → read_elements d count bytes at ≡ read_elements d' count bytes at
  unfolding read_elements
  read_elements-Agree zero bytes at agree h k = refl
  read_elements-Agree (suc count) bytes at agree h k =
      let l = length-drop at bytes in
      rw (agree (drop at bytes) (omega arith)) (
        bind-cong (d' (drop at bytes)) _ _
          λ p _. rw (read_elements-Agree count bytes (at + p.1) agree (omega arith) k))

  array_of-Agree :
      (bytes : Bytes) (next : ℕ) (z : ℤ)
      → Agree (length bytes) d d'
      → 0 < next
      → 0 < length bytes
      → array_of d bytes next z ≡ array_of d' bytes next z
  unfolding array_of
  array_of-Agree bytes next (pos n) agree h k = rw (read_elements-Agree n bytes next agree h k)
  array_of-Agree bytes next (negsuc zero) agree h k = refl
  array_of-Agree bytes next (negsuc (suc n)) agree h k = refl

  read_array-Agree :
      (c : ℕ) (rest : Bytes)
      → Agree (length (c ∷ rest)) d d'
      → read_array d (c ∷ rest) ≡ read_array d' (c ∷ rest)
  unfolding read_array
  read_array-Agree c rest agree = bind-cong (read_length_line (c ∷ rest) 1) _ _ λ p e.
      let w = read_length_line-Consumes c rest p.0 p.1 e in
      array_of-Agree (c ∷ rest) p.1 p.0 agree (omega arith) (omega arith)

  decode_body-Agree :
      (bytes : Bytes) → Agree (length bytes) d d' → decode_body d bytes ≡ decode_body d' bytes
  unfolding decode_body
  decode_body-Agree [] agree = refl
  decode_body-Agree (c ∷ rest) agree = rw (read_array-Agree c rest agree)

-- With more fuel than bytes the result does not depend on the fuel.
pub decode_fuel-enough :
    (f g : ℕ) (bytes : Bytes)
    → length bytes < f
    → length bytes < g
    → decode_fuel f bytes ≡ decode_fuel g bytes
unfolding decode_fuel
decode_fuel-enough zero g bytes h k = elim h [ ]
decode_fuel-enough (suc f) zero bytes h k = elim k [ ]
decode_fuel-enough (suc f) (suc g) bytes h k =
    decode_body-Agree (decode_fuel f) (decode_fuel g) bytes
      λ shorter l. decode_fuel-enough f g shorter (omega arith) (omega arith)

abbrev pub Finishes {ℓ} : {A : Type ℓ} → Result A → Type ℓ
Finishes r = r ≢ unfinished

pub bind-Finishes {ℓ} :
    {A B : Type ℓ} (m : Result A) (f : A → Result B)
    → Finishes m
    → ((a : A) → m ≡ ok a → Finishes (f a))
    → Finishes (m >>= f)
bind-Finishes (ok a) f h k = k a refl
bind-Finishes (err e) f h k = cc
bind-Finishes panic f h k = cc
bind-Finishes unfinished f h k = absurd (h refl)

pub ok-Finishes {ℓ} : {A : Type ℓ} (a : A) → Finishes (ok a)
ok-Finishes a = cc

scan_line-Finishes : (bytes : Bytes) (i : ℕ) → Finishes (scan_line bytes i)
unfolding scan_line
scan_line-Finishes [] i = cc
scan_line-Finishes (c ∷ []) i = cc
scan_line-Finishes (c ∷ d ∷ rest) i = elim (Bool-cases ((c == cr) && (d == lf))) [
  | inl e ↦ rw e (cc)
  | inr e ↦ rw e (
      bind-Finishes (scan_line (d ∷ rest) (i + 1)) _ (scan_line-Finishes (d ∷ rest) (i + 1))
        (λ a _. ok-Finishes _))
]

or_error-Finishes : (e : Error) (o : Option ℤ) → Finishes (or_error e o)
unfolding or_error
or_error-Finishes e none = cc
or_error-Finishes e (some z) = cc

index-Finishes : (bytes : Bytes) (z : ℤ) → Finishes (index bytes z)
unfolding index
index-Finishes bytes (negsuc i) = cc
index-Finishes [] (pos i) = cc
index-Finishes (x ∷ xs) (pos zero) = cc
index-Finishes (x ∷ xs) (pos (suc i)) = index-Finishes xs (pos i)

module _ (bytes : Bytes) where
  read_line-Finishes : Finishes (read_line bytes 1)
  unfolding read_line
  read_line-Finishes = scan_line-Finishes (drop 1 bytes) 1

  read_integer-Finishes : Finishes (read_integer bytes)
  unfolding read_integer
  read_integer-Finishes = bind-Finishes (read_line bytes 1) _ read_line-Finishes λ p _.
      bind-Finishes (or_error invalid_integer (parse_int p.0)) _ (or_error-Finishes _ _)
        λ z _. ok-Finishes _

  read_length_line-Finishes : Finishes (read_length_line bytes 1)
  unfolding read_length_line
  read_length_line-Finishes = bind-Finishes (read_line bytes 1) _ read_line-Finishes λ p _.
      bind-Finishes (or_error invalid_length (parse_int p.0)) _ (or_error-Finishes _ _)
        λ z _. ok-Finishes _

  check_crlf-Finishes : (c d : ℕ) (r : Value × ℕ) → Finishes (check_crlf c d r)
  unfolding check_crlf
  check_crlf-Finishes c d r = ground arith

  bulk_of-Finishes : (next : ℕ) (z : ℤ) → Finishes (bulk_of bytes next z)
  unfolding bulk_of read_bulk_body
  bulk_of-Finishes next (pos n) =
      elim (Bool-cases (ltb_ℤ (pos (length bytes)) (wrap (next + n + 2)))) [
        | inl e ↦ rw e (cc)
        | inr e ↦ rw e (
            bind-Finishes (index bytes (wrap (next + n))) _ (index-Finishes bytes _) λ c _.
              bind-Finishes (index bytes (wrap (next + n + 1))) _ (index-Finishes bytes _)
                λ d _. check_crlf-Finishes c d _)
      ]
  bulk_of-Finishes next (negsuc zero) = cc
  bulk_of-Finishes next (negsuc (suc n)) = cc

  decode_simple_string-Finishes : Finishes (decode_simple_string bytes)
  unfolding decode_simple_string
  decode_simple_string-Finishes =
      bind-Finishes (read_line bytes 1) _ read_line-Finishes λ p _. ok-Finishes _

  decode_error-Finishes : Finishes (decode_error bytes)
  unfolding decode_error
  decode_error-Finishes =
      bind-Finishes (read_line bytes 1) _ read_line-Finishes λ p _. ok-Finishes _

  decode_integer-Finishes : Finishes (decode_integer bytes)
  unfolding decode_integer
  decode_integer-Finishes =
      bind-Finishes (read_integer bytes) _ read_integer-Finishes λ p _. ok-Finishes _

  read_bulk_string-Finishes : Finishes (read_bulk_string bytes)
  unfolding read_bulk_string
  read_bulk_string-Finishes =
      bind-Finishes (read_length_line bytes 1) _ read_length_line-Finishes
        λ p _. bulk_of-Finishes p.1 p.0

module _ (d : Bytes → Result (Value × ℕ)) where
  read_elements-Finishes :
      (count : ℕ) (bytes : Bytes) (at : ℕ)
      → ((shorter : Bytes) → length shorter < length bytes → Finishes (d shorter))
      → 0 < at
      → 0 < length bytes
      → Finishes (read_elements d count bytes at)
  unfolding read_elements
  read_elements-Finishes zero bytes at fin h k = cc
  read_elements-Finishes (suc count) bytes at fin h k =
      let l = length-drop at bytes in
      bind-Finishes (d (drop at bytes)) _ (fin (drop at bytes) (omega arith)) λ p _.
        bind-Finishes (read_elements d count bytes (at + p.1)) _
          (read_elements-Finishes count bytes (at + p.1) fin (omega arith) k) λ q _. ok-Finishes _

  array_of-Finishes :
      (bytes : Bytes) (next : ℕ) (z : ℤ)
      → ((shorter : Bytes) → length shorter < length bytes → Finishes (d shorter))
      → 0 < next
      → 0 < length bytes
      → Finishes (array_of d bytes next z)
  unfolding array_of
  array_of-Finishes bytes next (pos n) fin h k = elim (Bool-cases (ltb max_capacity n)) [
    | inl e ↦ rw e (cc)
    | inr e ↦ rw e (
        bind-Finishes (read_elements d n bytes next) _ (read_elements-Finishes n bytes next fin h k)
          λ q _. ok-Finishes _)
  ]
  array_of-Finishes bytes next (negsuc zero) fin h k = cc
  array_of-Finishes bytes next (negsuc (suc n)) fin h k = cc

  decode_body-Finishes :
      (bytes : Bytes)
      → ((shorter : Bytes) → length shorter < length bytes → Finishes (d shorter))
      → Finishes (decode_body d bytes)
  unfolding decode_body read_array
  decode_body-Finishes [] fin = cc
  decode_body-Finishes (c ∷ rest) fin =
      dispatch-rel {A = Result (Value × ℕ)} {B = Unit {0}} (λ r _. Finishes r) c {b₁ = tt} {b₂ = tt}
        {b₃ = tt} {b₄ = tt} {b₅ = tt} {b₆ = tt} (decode_simple_string-Finishes (c ∷ rest))
        (decode_error-Finishes (c ∷ rest)) (decode_integer-Finishes (c ∷ rest))
        (read_bulk_string-Finishes (c ∷ rest))
        (bind-Finishes (read_length_line (c ∷ rest) 1) _ (read_length_line-Finishes (c ∷ rest))
          λ p e.
            let w = read_length_line-Consumes c rest p.0 p.1 e in
            array_of-Finishes (c ∷ rest) p.1 p.0 fin (omega arith) (omega arith))
        (cc)

decode_fuel-Finishes : (f : ℕ) (bytes : Bytes) → length bytes < f → Finishes (decode_fuel f bytes)
unfolding decode_fuel
decode_fuel-Finishes zero bytes h = elim h [ ]
decode_fuel-Finishes (suc f) bytes h =
    decode_body-Finishes (decode_fuel f) bytes
      λ shorter l. decode_fuel-Finishes f shorter (omega arith)

-- `DecodeOne` ends on every buffer: the fuel of the model is enough, and any fuel greater than the
-- buffer's length gives the same.
pub decode_one-total :
    (bytes : Bytes) (f : ℕ)
    → length bytes < f
    → (decode_one bytes ≢ unfinished) × (decode_fuel f bytes ≡ decode_one bytes)
unfolding decode_one
decode_one-total bytes f h = (
  decode_fuel-Finishes (suc (length bytes)) bytes (omega arith),
  decode_fuel-enough f (suc (length bytes)) bytes h (omega arith),
)
