-- ===== src/Protocol/Resp/Bounds.antt =====
-- How many bytes the decoder of internal/protocol/resp.go consumes.
use redis_course.Base.{
  ℕ, zero, suc, ◌+◌, ◌^◌, ◌≤◌, ◌<◌, ◌≡◌, inl, inr, refl, none, some, [], ◌∷◌, arith, Bytes, ltb,
  ◌==◌, length, take, drop, Bool-cases, length-drop, Option,
}
use redis_course.Base.Int.{ℤ, pos, negsuc, wrap, ltb_ℤ, InInt64}
use redis_course.Base.Decimal.RoundTrip.{parse_int-InInt64}
use redis_course.Base.Decimal.{parse_int}
use redis_course.Protocol.Resp.{
  Value, Values, string, resp_error, integer, Error, invalid_integer, Result, ok, err, incomplete,
  unknown_prefix, invalid_length, ◌>>=◌, or_error, read_line, read_integer, read_length_line,
  read_bulk_body, read_bulk_string, index, check_crlf, bulk_of, array_of, null, invalid_bulk_length,
  read_elements, read_array, decode_simple_string, decode_error, decode_integer, dispatch,
  decode_body, decode_fuel, decode_one, max_capacity,
}
use redis_course.Protocol.Resp.Lines.{bind-ok, scan_line_bounds}

-- What holds of each pair of branches holds of the two switches.
pub dispatch-rel {ℓ κ μ} :
    {A : Type ℓ} {B : Type κ} (R : A → B → Type μ) (c : ℕ) {a₁ a₂ a₃ a₄ a₅ a₆ : A}
    {b₁ b₂ b₃ b₄ b₅ b₆ : B}
    → R a₁ b₁
    → R a₂ b₂
    → R a₃ b₃
    → R a₄ b₄
    → R a₅ b₅
    → R a₆ b₆
    → R (dispatch c a₁ a₂ a₃ a₄ a₅ a₆) (dispatch c b₁ b₂ b₃ b₄ b₅ b₆)
unfolding dispatch
dispatch-rel R c r₁ r₂ r₃ r₄ r₅ r₆ = elim (Bool-cases (c == b'+')) [
  | inl e ↦ rw e r₁
  | inr n₁ ↦ elim (Bool-cases (c == b'-')) [
    | inl e ↦ rw (n₁, e) r₂
    | inr n₂ ↦ elim (Bool-cases (c == b':')) [
      | inl e ↦ rw (n₁, n₂, e) r₃
      | inr n₃ ↦ elim (Bool-cases (c == b'$')) [
        | inl e ↦ rw (n₁, n₂, n₃, e) r₄
        | inr n₄ ↦ elim (Bool-cases (c == b'*')) [
          | inl e ↦ rw (n₁, n₂, n₃, n₄, e) r₅
          | inr n₅ ↦ rw (n₁, n₂, n₃, n₄, n₅) r₆
        ]
      ]
    ]
  ]
]

-- A position behind the prefix byte and within the text.
abbrev pub Within : Bytes → ℕ → Type 0
Within bytes n = (3 ≤ n) × (n ≤ length bytes)

-- A slice that a 64-bit address space holds.
abbrev pub InMemory : Bytes → Type 0
InMemory bytes = length bytes < 2 ^ 48

abbrev pub Consumes {ℓ} : {A : Type ℓ} → Bytes → Result (A × ℕ) → Type ℓ
Consumes {A} bytes r = (a : A) (n : ℕ) → r ≡ ok (a, n) → Within bytes n

or_error-ok :
    (o : Option ℤ) (e : Error) (n : ℕ) (z' z : ℤ) {m : ℕ}
    → or_error e o ≡ ok z'
    → ◌≡◌ {A = Result (ℤ × ℕ)} (ok (z', n)) (ok (z, m))
    → o ≡ some z
unfolding or_error
or_error-ok none e n z' z p q = cc
or_error-ok (some a) e n z' z p q = ground arith

pub pair_end {ℓ} :
    {A : Type ℓ} {a b : A} {m n : ℕ} → ◌≡◌ {A = Result (A × ℕ)} (ok (a, m)) (ok (b, n)) → m ≡ n
pair_end h = ground arith

module _ {ℓ} {A : Type ℓ} (bytes : Bytes) where
  Consumes-ok : (a : A) (n : ℕ) → Within bytes n → Consumes bytes (ok (a, n))
  Consumes-ok a n w b m h = let e : n ≡ m = ground arith in omega arith

  Consumes-err : (e : Error) → Consumes bytes (let r : Result (A × ℕ) = err e in r)
  Consumes-err e a n h = cc

module _ {ℓ κ} {A : Type ℓ} {B : Type κ} (bytes : Bytes) where
  Consumes-bind :
      (m : Result (A × ℕ)) (f : A × ℕ → Result (B × ℕ))
      → Consumes bytes m
      → ((a : A) (n : ℕ) → Within bytes n → Consumes bytes (f (a, n)))
      → Consumes bytes (m >>= f)
  Consumes-bind m f cm cf b n h = let ((a, k), e, q) = bind-ok m f h in cf a k (cm a k e) b n q

  -- A step that consumes nothing more.
  Consumes-pure :
      (m : Result A) (f : A → Result (B × ℕ))
      → ((a : A) → Consumes bytes (f a))
      → Consumes bytes (m >>= f)
  Consumes-pure m f cf b n h = let (a, e, q) = bind-ok m f h in cf a b n q

module _ (c : ℕ) (rest : Bytes) where
  read_line-Consumes : Consumes (c ∷ rest) (read_line (c ∷ rest) 1)
  unfolding read_line
  read_line-Consumes a n h = let b = scan_line_bounds rest 1 h in (omega arith, omega arith)

  pub read_length_line-Consumes : Consumes (c ∷ rest) (read_length_line (c ∷ rest) 1)
  unfolding read_length_line
  read_length_line-Consumes =
      Consumes-bind (c ∷ rest) (read_line (c ∷ rest) 1) _ read_line-Consumes λ a n w.
        Consumes-pure (c ∷ rest) (or_error invalid_length (parse_int a)) _
          λ z. Consumes-ok (c ∷ rest) z n w

  decode_simple_string-Consumes : Consumes (c ∷ rest) (decode_simple_string (c ∷ rest))
  unfolding decode_simple_string
  decode_simple_string-Consumes =
      Consumes-bind (c ∷ rest) (read_line (c ∷ rest) 1) _ read_line-Consumes
        λ a n w. Consumes-ok (c ∷ rest) (string a) n w

  decode_error-Consumes : Consumes (c ∷ rest) (decode_error (c ∷ rest))
  unfolding decode_error
  decode_error-Consumes =
      Consumes-bind (c ∷ rest) (read_line (c ∷ rest) 1) _ read_line-Consumes
        λ a n w. Consumes-ok (c ∷ rest) (resp_error a) n w

  read_integer-Consumes : Consumes (c ∷ rest) (read_integer (c ∷ rest))
  unfolding read_integer
  read_integer-Consumes =
      Consumes-bind (c ∷ rest) (read_line (c ∷ rest) 1) _ read_line-Consumes λ a n w.
        Consumes-pure (c ∷ rest) (or_error invalid_integer (parse_int a)) _
          λ z. Consumes-ok (c ∷ rest) z n w

  decode_integer-Consumes : Consumes (c ∷ rest) (decode_integer (c ∷ rest))
  unfolding decode_integer
  decode_integer-Consumes =
      Consumes-bind (c ∷ rest) (read_integer (c ∷ rest)) _ read_integer-Consumes
        λ z n w. Consumes-ok (c ∷ rest) (integer z) n w

-- An index that does not panic lies within the slice.
index_bounds :
    (bytes : Bytes) (z : ℤ) {d : ℕ}
    → index bytes z ≡ ok d
    → (i : ℕ) × (z ≡ pos i) × (i < length bytes)
unfolding index
index_bounds bytes (negsuc i) h = cc
index_bounds [] (pos i) h = cc
index_bounds (x ∷ xs) (pos zero) h = (0, refl, omega arith)
index_bounds (x ∷ xs) (pos (suc i)) h =
    let (j, e, q) = index_bounds xs (pos i) h in (suc i, refl, ground arith)

wrap_pos : (n i : ℕ) → n < 2 ^ 64 → wrap n ≡ pos i → n ≡ i
wrap_pos n i h e = ground arith

check_crlf-ok : (c d : ℕ) (r r' : Value × ℕ) → check_crlf c d r ≡ ok r' → r.1 ≡ r'.1
unfolding check_crlf
check_crlf-ok c d r r' h = ground arith

read_bulk_body-Consumes :
    (bytes : Bytes) (n next : ℕ)
    → n < 2 ^ 63
    → 3 ≤ next
    → next ≤ length bytes
    → InMemory bytes
    → Consumes bytes (read_bulk_body bytes n next)
unfolding read_bulk_body
read_bulk_body-Consumes bytes n next hn lo hnext hlen v end h =
    elim (Bool-cases (ltb_ℤ (pos (length bytes)) (wrap (next + n + 2)))) [
      | inl short ↦ cc (rw short at h)
      | inr fits ↦
          let (c, e, q) = bind-ok (index bytes (wrap (next + n))) _ (rw fits at h) in
          let (d, e', q') = bind-ok (index bytes (wrap (next + n + 1))) _ q in
          let (i, w, lt) = index_bounds bytes (wrap (next + n + 1)) e' in
          let k = wrap_pos (next + n + 1) i (omega arith) w in
          let m = check_crlf-ok c d (string (take n (drop next bytes)), next + n + 2) (v, end) q' in
          omega arith
    ]

module _ (c : ℕ) (rest : Bytes) where
  pub length_range : (z : ℤ) (n : ℕ) → read_length_line (c ∷ rest) 1 ≡ ok (z, n) → InInt64 z
  unfolding read_length_line or_error
  length_range z n h =
      let ((line, next), e, q) = bind-ok (read_line (c ∷ rest) 1) _ h in
      let (z', e', q') = bind-ok (or_error invalid_length (parse_int line)) _ q in
      let k : parse_int line ≡ some z = or_error-ok (parse_int line) _ _ _ _ e' q' in
      parse_int-InInt64 line k

  bulk_of-Consumes :
      (z : ℤ) (n : ℕ)
      → InInt64 z
      → InMemory (c ∷ rest)
      → Within (c ∷ rest) n
      → Consumes (c ∷ rest) (bulk_of (c ∷ rest) n z)
  unfolding bulk_of
  bulk_of-Consumes (pos m) n r hlen w = read_bulk_body-Consumes (c ∷ rest) m n r.0 w.0 w.1 hlen
  bulk_of-Consumes (negsuc zero) n r hlen w = Consumes-ok (c ∷ rest) null n w
  bulk_of-Consumes (negsuc (suc m)) n r hlen w = Consumes-err (c ∷ rest) invalid_bulk_length

  read_bulk_string-Consumes :
      InMemory (c ∷ rest) → Consumes (c ∷ rest) (read_bulk_string (c ∷ rest))
  unfolding read_bulk_string
  read_bulk_string-Consumes hlen v end h =
      let ((z, n), e, q) = bind-ok (read_length_line (c ∷ rest) 1) _ h in
      bulk_of-Consumes z n (length_range z n e) hlen (read_length_line-Consumes c rest z n e) v end
        q

-- The recursive call never consumes more than its slice.
abbrev pub Decodes : (Bytes → Result (Value × ℕ)) → Type 0
Decodes decode = (bytes : Bytes) → InMemory bytes → Consumes bytes (decode bytes)

module _ (decode : Bytes → Result (Value × ℕ)) (ih : Decodes decode) where
  read_elements-end :
      (count : ℕ) (bytes : Bytes) (at : ℕ)
      → InMemory bytes
      → at ≤ length bytes
      → {vs : Values} {end : ℕ} → read_elements decode count bytes at ≡ ok (vs, end)
      → (at ≤ end) × (end ≤ length bytes)
  unfolding read_elements
  read_elements-end zero bytes at m h e = ground arith
  read_elements-end (suc count) bytes at m h {vs} {end} e =
      let ((v, k), p, q) = bind-ok (decode (drop at bytes)) _ e in
      let l = length-drop at bytes in
      let w = ih (drop at bytes) (omega arith) v k p in
      let ((ws, end'), p', q') = bind-ok (read_elements decode count bytes (at + k)) _ q in
      let b = read_elements-end count bytes (at + k) m (omega arith) p' in
      let s : end' ≡ end = pair_end q' in omega arith

  module _ (c : ℕ) (rest : Bytes) where
    array_of-Consumes :
        (z : ℤ) (n : ℕ)
        → InMemory (c ∷ rest)
        → Within (c ∷ rest) n
        → Consumes (c ∷ rest) (array_of decode (c ∷ rest) n z)
    unfolding array_of
    array_of-Consumes (pos m) n hlen w v end h = elim (Bool-cases (ltb max_capacity m)) [
      | inl big ↦ cc (rw big at h)
      | inr fits ↦
          let ((vs, end'), p, q) = bind-ok (read_elements decode m (c ∷ rest) n) _ (rw fits at h) in
          let b = read_elements-end m (c ∷ rest) n hlen w.1 p in
          let s : end' ≡ end = pair_end q in omega arith
    ]
    array_of-Consumes (negsuc zero) n hlen w v end h = Consumes-ok (c ∷ rest) null n w v end h
    array_of-Consumes (negsuc (suc m)) n hlen w v end h = cc

    read_array-Consumes : InMemory (c ∷ rest) → Consumes (c ∷ rest) (read_array decode (c ∷ rest))
    unfolding read_array
    read_array-Consumes hlen =
        Consumes-bind (c ∷ rest) (read_length_line (c ∷ rest) 1) _
          (read_length_line-Consumes c rest) λ z n w. array_of-Consumes z n hlen w

  decode_body-Decodes : Decodes (decode_body decode)
  unfolding decode_body
  decode_body-Decodes [] m = Consumes-err [] incomplete
  decode_body-Decodes (c ∷ rest) m =
      dispatch-rel {A = Result (Value × ℕ)} {B = Unit {0}} (λ r _. Consumes (c ∷ rest) r) c
        {b₁ = tt} {b₂ = tt} {b₃ = tt} {b₄ = tt} {b₅ = tt} {b₆ = tt}
        (decode_simple_string-Consumes c rest) (decode_error-Consumes c rest)
        (decode_integer-Consumes c rest) (read_bulk_string-Consumes c rest m)
        (read_array-Consumes c rest m) (Consumes-err (c ∷ rest) unknown_prefix)

pub decode_fuel-Decodes : (f : ℕ) → Decodes (decode_fuel f)
unfolding decode_fuel
decode_fuel-Decodes zero bytes m v n h = cc
decode_fuel-Decodes (suc f) bytes m v n h =
    decode_body-Decodes (decode_fuel f) (decode_fuel-Decodes f) bytes m v n h

-- A value decoded from a buffer shorter than 2^48 bytes takes at least three bytes, and no more than
-- there are.
pub decode_one-bounds :
    (bytes : Bytes) (v : Value) (n : ℕ)
    → InMemory bytes
    → decode_one bytes ≡ ok (v, n)
    → (3 ≤ n) × (n ≤ length bytes)
unfolding decode_one
decode_one-bounds bytes v n m h = decode_fuel-Decodes (suc (length bytes)) bytes m v n h
