-- ===== src/Protocol/Resp/Panics.antt =====
-- `DecodeOne` of internal/protocol/resp.go on large lengths.
use redis_course.Base.{
  ℕ, suc, ◌-◌, ◌^◌, ◌≤◌, ◌<◌, ◌≡◌, ◌∙◌, true, [], ◌∷◌, ◌++◌, arith, Bytes, ltb, length,
  length-append,
}
use redis_course.Base.Decimal.{format_nat}
use redis_course.Protocol.Resp.{
  panic, cr, lf, read_array, array_of, bulk_of, read_bulk_string, decode_one, max_capacity,
}
use redis_course.Protocol.Resp.Bounds.{InMemory}
use redis_course.Protocol.Resp.Extend.{read_bulk_body-overflow}
use redis_course.Protocol.Resp.RoundTrip.{read_length_line_lem, decode_bulk, decode_array}

-- The bytes of a length line.
abbrev pub length_line : ℕ → ℕ → Bytes → Bytes
length_line prefix n rest = prefix ∷ ((format_nat n ++ (cr ∷ lf ∷ [])) ++ rest)

-- A bulk string's length line with one of the five largest int64 values makes `DecodeOne` panic,
-- whatever follows in a buffer shorter than 2^48 bytes.
pub bulk_length_panics :
    (n : ℕ) (rest : Bytes)
    → n < 2 ^ 63
    → 2 ^ 63 - 5 ≤ n
    → InMemory (length_line b'$' n rest)
    → decode_one (length_line b'$' n rest) ≡ panic
bulk_length_panics n rest h k m =
    let line = format_nat n ++ (cr ∷ lf ∷ []) in
    let l₁ = length-append (format_nat n) (cr ∷ lf ∷ []) in
    let l₂ = length-append line rest in
    decode_bulk (line ++ rest)
    ∙ (unfold read_bulk_string bulk_of in
        rw (read_length_line_lem b'$' n rest (omega arith)) (
          read_bulk_body-overflow (b'$' ∷ (line ++ rest)) n (suc (length line)) m (omega arith) h
            (omega arith)))

-- An array's length line with an int64 greater than 2^44, the largest capacity, makes `DecodeOne` panic,
-- whatever follows.
pub array_length_panics :
    (n : ℕ) (rest : Bytes) → n < 2 ^ 63 → 2 ^ 44 < n → decode_one (length_line b'*' n rest) ≡ panic
array_length_panics n rest h k =
    let big : ltb max_capacity n ≡ true = ground arith in
    decode_array ((format_nat n ++ (cr ∷ lf ∷ [])) ++ rest)
    ∙ (unfold read_array array_of in rw (read_length_line_lem b'*' n rest (omega arith)) (rw big))
