-- ===== src/Protocol/Resp/Extend.antt =====
-- The decoder of internal/protocol/resp.go on a buffer to which more bytes are added.
use redis_course.Base.{
  ℕ, zero, suc, ◌+◌, ◌-◌, ◌^◌, ◌≤◌, ◌<◌, ◌≡◌, ◌≢◌, inl, inr, refl, sym, ◌∙◌, false, [], ◌∷◌, ◌++◌,
  arith, Bytes, ltb, length, drop, take, length-drop, length-append, drop_within, take_within,
  get_elem?-append, Bool-cases,
}
use redis_course.Base.Int.{ℤ, pos, negsuc, ltb_ℤ, wrap, InInt64}
use redis_course.Protocol.Resp.{
  Value, Result, ok, err, panic, unfinished, incomplete, string, ◌>>=◌, max_capacity, index,
  check_crlf, read_line, read_integer, read_length_line, read_bulk_body, bulk_of, read_bulk_string,
  read_elements, array_of, read_array, decode_simple_string, decode_error, decode_integer,
  decode_body, decode_fuel, decode_one,
}
use redis_course.Protocol.Resp.Lines.{bind_complete, bind-extend, scan_line_extend}
use redis_course.Protocol.Resp.Bounds.{
  dispatch-rel, read_length_line-Consumes, length_range, InMemory, Decodes, decode_fuel-Decodes,
}
use redis_course.Protocol.Resp.Fuel.{decode_one-total}

index-outside : (bytes : Bytes) (i : ℕ) → length bytes ≤ i → index bytes (pos i) ≡ panic
unfolding index
index-outside [] i h = refl
index-outside (x ∷ xs) zero h = absurd (omega arith)
index-outside (x ∷ xs) (suc i) h = index-outside xs i (omega arith)

index-extend :
    (bytes more : Bytes) (i : ℕ)
    → i < length bytes
    → index (bytes ++ more) (pos i) ≡ index bytes (pos i)
unfolding index
index-extend bytes more i h = rw (get_elem?-append bytes more i h, index)

wrap-small : (n : ℕ) → n < 2 ^ 63 → wrap n ≡ pos n
wrap-small n h = ground arith

wrap-large : (n : ℕ) → 2 ^ 63 ≤ n → n < 2 ^ 64 → wrap n ≡ negsuc (2 ^ 64 - 1 - n)
wrap-large n h k = ground arith

index-near_max :
    (bytes : Bytes) (k : ℕ)
    → InMemory bytes
    → 2 ^ 63 ≤ k + 2
    → k < 2 ^ 64
    → index bytes (wrap k) ≡ panic
index-near_max bytes k m h l = elim (Bool-cases (ltb k (2 ^ 63))) [
  | inl e ↦ rw (wrap-small k (ground arith)) (index-outside bytes k (omega arith))
  | inr e ↦ rw (wrap-large k (ground arith) l) (unfold index in refl)
]

-- Where the sum of position and length passes the largest `int`, the length test lets it through
-- and the first index is out of range.
pub read_bulk_body-overflow :
    (bytes : Bytes) (n next : ℕ)
    → InMemory bytes
    → next ≤ length bytes
    → n < 2 ^ 63
    → 2 ^ 63 ≤ next + n + 2
    → read_bulk_body bytes n next ≡ panic
unfolding read_bulk_body
read_bulk_body-overflow bytes n next m h r big =
    rw (wrap-large (next + n + 2) big (omega arith))
      (rw (index-near_max bytes (next + n) m (omega arith) (omega arith)) (ground arith))

not_ltb : (a b : ℕ) → b ≤ a → ltb_ℤ (pos a) (pos b) ≡ false
not_ltb a b h = ground arith

-- Elsewhere it is the plain test of the source, over numbers.
pub read_bulk_body-within :
    (bytes : Bytes) (n next : ℕ)
    → next + n + 2 < 2 ^ 63
    → next + n + 2 ≤ length bytes
    → read_bulk_body bytes n next ≡ (do
      c ← index bytes (pos (next + n))
      d ← index bytes (pos (next + n + 1))
      check_crlf c d (string (take n (drop next bytes)), next + n + 2))
unfolding read_bulk_body
read_bulk_body-within bytes n next small fits =
    rw
      (
        wrap-small (next + n + 2) small,
        wrap-small (next + n) (omega arith),
        wrap-small (next + n + 1) (omega arith),
      )
      (rw (not_ltb (length bytes) (next + n + 2) fits))

read_bulk_body-short :
    (bytes : Bytes) (n next : ℕ)
    → next + n + 2 < 2 ^ 63
    → length bytes < next + n + 2
    → read_bulk_body bytes n next ≡ err incomplete
unfolding read_bulk_body
read_bulk_body-short bytes n next small short = rw (wrap-small (next + n + 2) small) (ground arith)

module _ (bytes more : Bytes) (m : InMemory (bytes ++ more)) where
  shorter : InMemory bytes
  shorter = omega (arith, length-append bytes more)

  read_bulk_body-extend :
      (n next : ℕ)
      → n < 2 ^ 63
      → next ≤ length bytes
      → read_bulk_body bytes n next ≢ err incomplete
      → read_bulk_body (bytes ++ more) n next ≡ read_bulk_body bytes n next
  read_bulk_body-extend n next r h complete = elim (Bool-cases (ltb (next + n + 2) (2 ^ 63))) [
    | inr big ↦
        let l = length-append bytes more in
        read_bulk_body-overflow (bytes ++ more) n next m (omega arith) r (ground arith)
        ∙ sym (read_bulk_body-overflow bytes n next shorter h r (ground arith))
    | inl small ↦ elim (Bool-cases (ltb (length bytes) (next + n + 2))) [
      | inl short ↦
          absurd (complete (read_bulk_body-short bytes n next (ground arith) (ground arith)))
      | inr fits ↦
          let l = length-append bytes more in
          let k : next + n + 2 ≤ length bytes = ground arith in
          let w : next + n + 2 < 2 ^ 63 = ground arith in
          read_bulk_body-within (bytes ++ more) n next w (omega arith)
          ∙ rw
              (
                index-extend bytes more (next + n) (omega arith),
                index-extend bytes more (next + n + 1) (omega arith),
                drop_within next bytes more h,
                take_within n (drop next bytes) more (omega (arith, length-drop next bytes)),
              )
              (sym (read_bulk_body-within bytes n next w k))
    ]
  ]

  bulk_of-extend :
      (next : ℕ) (z : ℤ)
      → InInt64 z
      → next ≤ length bytes
      → bulk_of bytes next z ≢ err incomplete
      → bulk_of (bytes ++ more) next z ≡ bulk_of bytes next z
  unfolding bulk_of
  bulk_of-extend next (pos n) r h c = read_bulk_body-extend n next r.0 h c
  bulk_of-extend next (negsuc zero) r h c = refl
  bulk_of-extend next (negsuc (suc n)) r h c = refl

module _ (c : ℕ) (rest more : Bytes) where
  read_line-extend :
      read_line (c ∷ rest) 1 ≢ err incomplete
      → read_line (c ∷ (rest ++ more)) 1 ≡ read_line (c ∷ rest) 1
  unfolding read_line
  read_line-extend h = scan_line_extend rest more 1 h

  read_integer-extend :
      read_integer (c ∷ rest) ≢ err incomplete
      → read_integer (c ∷ (rest ++ more)) ≡ read_integer (c ∷ rest)
  unfolding read_integer
  read_integer-extend h = bind-extend (read_line (c ∷ rest) 1) _ _ read_line-extend h

  read_length_line-extend :
      read_length_line (c ∷ rest) 1 ≢ err incomplete
      → read_length_line (c ∷ (rest ++ more)) 1 ≡ read_length_line (c ∷ rest) 1
  unfolding read_length_line
  read_length_line-extend h = bind-extend (read_line (c ∷ rest) 1) _ _ read_line-extend h

-- Where both binds continue, with continuations that agree there.
bind-extend_both {ℓ κ} :
    {A : Type ℓ} {B : Type κ} (m n : Result A) (f g : A → Result B)
    → (m ≢ err incomplete → n ≡ m)
    → ((a : A) → m ≡ ok a → f a ≢ err incomplete → g a ≡ f a)
    → (m >>= f) ≢ err incomplete
    → (n >>= g) ≡ (m >>= f)
bind-extend_both (ok a) n f g e k h = rw (e (cc)) (k a refl h)
bind-extend_both (err x) n f g e k h = rw (e (bind_complete (err x) f h))
bind-extend_both panic n f g e k h = rw (e (cc))
bind-extend_both unfinished n f g e k h = rw (e (cc))

abbrev Extends : (Bytes → Result (Value × ℕ)) → Type 0
Extends d =
    (bytes more : Bytes)
    → InMemory (bytes ++ more)
    → d bytes ≢ err incomplete
    → d (bytes ++ more) ≡ d bytes

module _ (d : Bytes → Result (Value × ℕ)) (ih : Extends d) (within : Decodes d) where
  read_elements-extend :
      (count : ℕ) (bytes more : Bytes) (at : ℕ)
      → InMemory (bytes ++ more)
      → at ≤ length bytes
      → read_elements d count bytes at ≢ err incomplete
      → read_elements d count (bytes ++ more) at ≡ read_elements d count bytes at
  unfolding read_elements
  read_elements-extend zero bytes more at m h c = refl
  read_elements-extend (suc count) bytes more at m h c =
      let l = length-append bytes more in
      let s = length-drop at bytes in
      let t = length-append (drop at bytes) more in
      bind-extend_both (d (drop at bytes)) (d (drop at (bytes ++ more))) _ _
        (λ k. rw (drop_within at bytes more h) (ih (drop at bytes) more (omega arith) k))
        (λ p e k.
          let w = within (drop at bytes) (omega arith) p.0 p.1 e in
          bind-extend (read_elements d count bytes (at + p.1)) _ _
            (read_elements-extend count bytes more (at + p.1) m (omega arith)) k)
        c

  array_of-extend :
      (bytes more : Bytes) (next : ℕ) (z : ℤ)
      → InMemory (bytes ++ more)
      → next ≤ length bytes
      → array_of d bytes next z ≢ err incomplete
      → array_of d (bytes ++ more) next z ≡ array_of d bytes next z
  unfolding array_of
  array_of-extend bytes more next (pos n) m h c = elim (Bool-cases (ltb max_capacity n)) [
    | inl big ↦ rw big
    | inr fits ↦ rw fits (
        bind-extend (read_elements d n bytes next) _ _ (read_elements-extend n bytes more next m h)
          (rw fits at c))
  ]
  array_of-extend bytes more next (negsuc zero) m h c = refl
  array_of-extend bytes more next (negsuc (suc n)) m h c = refl

  module _ (c : ℕ) (rest more : Bytes) (m : InMemory (c ∷ (rest ++ more))) where
    read_array-extend :
        read_array d (c ∷ rest) ≢ err incomplete
        → read_array d (c ∷ (rest ++ more)) ≡ read_array d (c ∷ rest)
    unfolding read_array
    read_array-extend =
        bind-extend_both (read_length_line (c ∷ rest) 1) _ _ _ (read_length_line-extend c rest more)
          λ p e.
            let w = read_length_line-Consumes c rest p.0 p.1 e in
            array_of-extend (c ∷ rest) more p.1 p.0 m w.1

    read_bulk_string-extend :
        read_bulk_string (c ∷ rest) ≢ err incomplete
        → read_bulk_string (c ∷ (rest ++ more)) ≡ read_bulk_string (c ∷ rest)
    unfolding read_bulk_string
    read_bulk_string-extend =
        bind-extend_both (read_length_line (c ∷ rest) 1) _ _ _ (read_length_line-extend c rest more)
          λ p e.
            let w = read_length_line-Consumes c rest p.0 p.1 e in
            bulk_of-extend (c ∷ rest) more m p.1 p.0 (length_range c rest p.0 p.1 e) w.1

  decode_body-extend : Extends (decode_body d)
  unfolding decode_body decode_simple_string decode_error decode_integer
  decode_body-extend [] more m h = absurd (h refl)
  decode_body-extend (c ∷ rest) more m h =
      dispatch-rel {A = Result (Value × ℕ)} {B = Result (Value × ℕ)}
        (λ r r'. r ≢ err incomplete → r' ≡ r) c
        (bind-extend (read_line (c ∷ rest) 1) _ _ (read_line-extend c rest more))
        (bind-extend (read_line (c ∷ rest) 1) _ _ (read_line-extend c rest more))
        (bind-extend (read_integer (c ∷ rest)) _ _ (read_integer-extend c rest more))
        (read_bulk_string-extend c rest more m) (read_array-extend c rest more m) (λ _. refl) h

decode_fuel-extend : (f : ℕ) → Extends (decode_fuel f)
unfolding decode_fuel
decode_fuel-extend zero bytes more m h = refl
decode_fuel-extend (suc f) bytes more m h =
    decode_body-extend (decode_fuel f) (decode_fuel-extend f) (decode_fuel-Decodes f) bytes more m h

-- A value that was decoded, an error other than "incomplete" and a panic stay what they are when
-- more bytes follow, as long as all of it is shorter than 2^48 bytes.
pub decode_one-extend :
    (bytes more : Bytes)
    → InMemory (bytes ++ more)
    → decode_one bytes ≢ err incomplete
    → decode_one (bytes ++ more) ≡ decode_one bytes
decode_one-extend bytes more m h =
    let f = suc (length (bytes ++ more)) in
    let small = (decode_one-total bytes f (omega (arith, length-append bytes more))).1 in
    sym ((decode_one-total (bytes ++ more) f (omega arith)).1)
    ∙ decode_fuel-extend f bytes more m (λ e. h (sym small ∙ e))
    ∙ small
