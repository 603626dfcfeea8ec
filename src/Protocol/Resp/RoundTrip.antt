-- ===== src/Protocol/Resp/RoundTrip.antt =====
-- The encoders of internal/protocol/resp.go, and `DecodeOne` on what they write.
use redis_course.Base.{
  ℕ, suc, ◌+◌, ◌≤◌, ◌<◌, ◌≡◌, ◌≢◌, refl, sym, ap, ◌∙◌, false, List, [], ◌∷◌, ◌++◌, arith, Bytes,
  ltb, length, drop, map, length-append, some, All, append_assoc, length-map, drop-append,
  take-append,
}
use mathlib.Core.Path.{subst}
use redis_course.Base.Int.{ℤ, pos, InInt64, max_int64}
use redis_course.Base.Decimal.{parse_int, format_int, format_nat}
use redis_course.Base.Decimal.RoundTrip.{parse_int-format_int, format_int-All-ne}
use redis_course.Protocol.Resp.{
  Value, Values, nil, cons, ok, string, resp_error, integer, null, array, max_capacity, cr, lf,
  or_error, index, check_crlf, scan_line, read_line, read_length_line, read_bulk_body, bulk_of,
  read_bulk_string, read_elements, array_of, read_array, decode_fuel, decode_one,
  encode_simple_string, encode_bulk_string, encode_null_bulk_string, encode_integer, write_elements,
  encode_array, encode_array_bulk_strings, encode_error,
}
use redis_course.Protocol.Resp.Lines.{scan_line_lem}
use redis_course.Protocol.Resp.Bounds.{InMemory}
use redis_course.Protocol.Resp.Fuel.{decode_one-total}
use redis_course.Protocol.Resp.Extend.{read_bulk_body-within}

-- `e` stands for `v` whatever follows it, and is consumed exactly.
abbrev pub Encodes : Bytes → Value → Type 0
Encodes e v = (rest : Bytes) → InMemory (e ++ rest) → decode_one (e ++ rest) ≡ ok (v, length e)

-- A text without a carriage return.
abbrev pub IsLine : Bytes → Type 0
IsLine = All (λ c. c ≢ cr)

module _ (c : ℕ) (line rest : Bytes) (h : IsLine line) where
  read_line_lem :
      read_line (c ∷ ((line ++ (cr ∷ lf ∷ [])) ++ rest)) 1
      ≡ ok (line, suc (length (line ++ (cr ∷ lf ∷ []))))
  unfolding read_line
  read_line_lem = rw (append_assoc line (cr ∷ lf ∷ []) rest) (
      scan_line_lem line rest 1 h
      ∙ ap (λ (n : ℕ). ok (line, n)) (omega (arith, length-append line (cr ∷ lf ∷ []))))

-- `EncodeSimpleString` of a text without a carriage return is read back, and exactly its bytes are
-- consumed, whatever follows, as long as all of it is shorter than 2^48 bytes.
pub decode_one-encode_simple_string :
    (s : Bytes)
    → IsLine s
    → (rest : Bytes) → InMemory (encode_simple_string s ++ rest)
    → decode_one (encode_simple_string s ++ rest) ≡ ok (string s, length (encode_simple_string s))
unfolding encode_simple_string decode_one
decode_one-encode_simple_string s h rest m = rw (read_line_lem b'+' s rest h)

-- So is `EncodeError`.
pub encode_error-Encodes : (s : Bytes) → IsLine s → Encodes (encode_error s) (resp_error s)
unfolding encode_error decode_one
encode_error-Encodes s h rest m = rw (read_line_lem b'-' s rest h)

format_int-IsLine : (z : ℤ) → IsLine (format_int z)
format_int-IsLine z = format_int-All-ne z cr (omega arith)

-- `EncodeInteger` of an int64 is read back, and exactly its bytes are consumed, whatever follows, as
-- long as all of it is shorter than 2^48 bytes.
pub decode_one-encode_integer :
    (z : ℤ)
    → InInt64 z
    → (rest : Bytes) → InMemory (encode_integer z ++ rest)
    → decode_one (encode_integer z ++ rest) ≡ ok (integer z, length (encode_integer z))
unfolding encode_integer decode_one or_error
decode_one-encode_integer z h rest m =
    rw (read_line_lem b':' (format_int z) rest (format_int-IsLine z))
      (rw (parse_int-format_int z h))

pub read_length_line_lem :
    (c n : ℕ) (rest : Bytes)
    → n ≤ max_int64
    → read_length_line (c ∷ ((format_nat n ++ (cr ∷ lf ∷ [])) ++ rest)) 1
      ≡ ok (pos n, suc (length (format_nat n ++ (cr ∷ lf ∷ []))))
unfolding read_length_line or_error
read_length_line_lem c n rest h =
    let p : parse_int (format_nat n) ≡ some (pos n) =
      unfold format_int in parse_int-format_int (pos n) (omega arith) in
    let l : IsLine (format_nat n) = unfold format_int in format_int-IsLine (pos n) in
    rw (read_line_lem c (format_nat n) rest l) (rw p)

index-append : (xs : Bytes) (c : ℕ) (ys : Bytes) → index (xs ++ c ∷ ys) (pos (length xs)) ≡ ok c
unfolding index
index-append [] c ys = refl
index-append (x ∷ xs) c ys = index-append xs c ys

index-at :
    (bytes xs : Bytes) (c : ℕ) (ys : Bytes) (i : ℕ)
    → bytes ≡ xs ++ c ∷ ys
    → i ≡ length xs
    → index bytes (pos i) ≡ ok c
index-at bytes xs c ys i e k = rw (e, k) (index-append xs c ys)

-- Behind a header of any kind the payload and its CRLF are read.
read_bulk_body_lem :
    (header value rest : Bytes)
    → InMemory (header ++ (value ++ (cr ∷ lf ∷ rest)))
    → read_bulk_body (header ++ (value ++ (cr ∷ lf ∷ rest))) (length value) (length header)
      ≡ ok (string value, length header + length value + 2)
read_bulk_body_lem header value rest m =
    let bytes = header ++ (value ++ (cr ∷ lf ∷ rest)) in
    let l₁ = length-append header (value ++ (cr ∷ lf ∷ rest)) in
    let l₂ = length-append value (cr ∷ lf ∷ rest) in
    let l₃ = length-append header value in
    let l₄ = length-append (header ++ value) (cr ∷ []) in
    read_bulk_body-within bytes (length value) (length header) (omega arith) (omega arith)
    ∙ rw
        (
          index-at bytes (header ++ value) cr (lf ∷ rest) (length header + length value)
              (sym (append_assoc header value (cr ∷ lf ∷ rest))) (omega arith),
          index-at bytes ((header ++ value) ++ cr ∷ []) lf rest (length header + length value + 1)
              (simp append_assoc) (omega arith),
          drop-append header (value ++ (cr ∷ lf ∷ rest)),
          take-append value (cr ∷ lf ∷ rest),
        )
        (unfold check_crlf in refl)

length_header : (n : ℕ) (payload : Bytes) → InMemory (payload) → length payload ≡ n → n ≤ max_int64
length_header n payload m e = omega arith

read_bulk_string_lem :
    (s rest : Bytes)
    → InMemory ((b'$' ∷ (format_nat (length s) ++ (cr ∷ lf ∷ []))) ++ (s ++ (cr ∷ lf ∷ rest)))
    → read_bulk_string
        ((b'$' ∷ (format_nat (length s) ++ (cr ∷ lf ∷ []))) ++ (s ++ (cr ∷ lf ∷ rest)))
      ≡ ok (string s, suc (length (format_nat (length s) ++ (cr ∷ lf ∷ []))) + length s + 2)
unfolding read_bulk_string bulk_of
read_bulk_string_lem s rest m =
    let header = b'$' ∷ (format_nat (length s) ++ (cr ∷ lf ∷ [])) in
    let l₁ = length-append header (s ++ (cr ∷ lf ∷ rest)) in
    let l₂ = length-append s (cr ∷ lf ∷ rest) in
    rw (read_length_line_lem b'$' (length s) (s ++ (cr ∷ lf ∷ rest)) (omega arith))
      (read_bulk_body_lem header s rest m)

bulk_shape :
    (s rest : Bytes)
    → encode_bulk_string s ++ rest
      ≡ (b'$' ∷ (format_nat (length s) ++ (cr ∷ lf ∷ []))) ++ (s ++ (cr ∷ lf ∷ rest))
unfolding encode_bulk_string
bulk_shape s rest = simp append_assoc

bulk_length :
    (s : Bytes)
    → suc (length (format_nat (length s) ++ (cr ∷ lf ∷ []))) + length s + 2
      ≡ length (encode_bulk_string s)
unfolding encode_bulk_string
bulk_length s = omega (
  arith,
  length-append (format_nat (length s)) (cr ∷ lf ∷ (s ++ (cr ∷ lf ∷ []))),
  length-append (format_nat (length s)) (cr ∷ lf ∷ []),
  length-append s (cr ∷ lf ∷ []),
)

pub decode_bulk : (bytes : Bytes) → decode_one (b'$' ∷ bytes) ≡ read_bulk_string (b'$' ∷ bytes)
unfolding decode_one
decode_bulk bytes = refl

-- `EncodeBulkString` is read back, whatever its bytes, and exactly its bytes are consumed, whatever
-- follows, as long as all of it is shorter than 2^48 bytes.
pub decode_one-encode_bulk_string :
    (s rest : Bytes)
    → InMemory (encode_bulk_string s ++ rest)
    → decode_one (encode_bulk_string s ++ rest) ≡ ok (string s, length (encode_bulk_string s))
decode_one-encode_bulk_string s rest m = rw (bulk_shape s rest) (
    decode_bulk _
    ∙ read_bulk_string_lem s rest (subst InMemory (bulk_shape s rest) m)
    ∙ ap (λ (n : ℕ). ok (string s, n)) (bulk_length s))

-- `EncodeNullBulkString` is read back as the null value.
pub encode_null_bulk_string-Encodes : Encodes encode_null_bulk_string null
unfolding encode_null_bulk_string decode_one bulk_of read_bulk_string read_length_line read_line
    or_error parse_int scan_line
encode_null_bulk_string-Encodes rest m = ground arith

-- One encoding for each value.
abbrev pub EncodesAll : List Bytes → Values → Type 0
EncodesAll [] nil = Unit
EncodesAll (e ∷ es) (cons v vs) = Encodes e v × EncodesAll es vs
EncodesAll _ _ = ⊥

drop_before :
    (bytes before ys : Bytes) (at : ℕ)
    → bytes ≡ before ++ ys
    → at ≡ length before
    → drop at bytes ≡ ys
drop_before bytes before ys at e k = rw (e, k) (drop-append before ys)

module _ (f : ℕ) where
  -- The encodings stand behind `before`, and `rest` behind them.
  elements_lem :
      (es : List Bytes) (vs : Values) (bytes before rest : Bytes) (at : ℕ)
      → EncodesAll es vs
      → InMemory bytes
      → length (write_elements es ++ rest) < f
      → bytes ≡ before ++ (write_elements es ++ rest)
      → at ≡ length before
      → read_elements (decode_fuel f) (length es) bytes at
        ≡ ok (vs, at + length (write_elements es))
  unfolding read_elements write_elements
  elements_lem [] nil bytes before rest at h m l e k = ap (λ (n : ℕ). ok (nil, n)) (omega arith)
  elements_lem [] (cons v vs) bytes before rest at h m l e k = absurd h
  elements_lem (x ∷ es) nil bytes before rest at h m l e k = absurd h
  elements_lem (x ∷ es) (cons v vs) bytes before rest at h m l e k =
      let tail = write_elements es ++ rest in
      let e' : bytes ≡ before ++ (x ++ tail) = e ∙ simp append_assoc in
      let n₁ = ap length e' in
      let n₂ = length-append before (x ++ tail) in
      let n₃ = length-append x tail in
      let n₄ = length-append before x in
      let n₅ = length-append x (write_elements es) in
      let n₆ = length-append (x ++ write_elements es) rest in
      let n₇ = length-append (write_elements es) rest in
      let first : decode_fuel f (drop at bytes) ≡ ok (v, length x) =
        rw (drop_before bytes before (x ++ tail) at e' k)
          ((decode_one-total (x ++ tail) f (omega arith)).1 ∙ h.0 tail (omega arith)) in
      let later =
        elements_lem es vs bytes (before ++ x) rest (at + length x) h.1 m (omega arith)
          (e' ∙ sym (append_assoc before x tail)) (omega arith) in
      rw (first, later) (ap (λ (n : ℕ). ok (cons v vs, n)) (omega arith))

array_shape :
    (es : List Bytes) (rest : Bytes)
    → encode_array es ++ rest
      ≡ (b'*' ∷ (format_nat (length es) ++ (cr ∷ lf ∷ []))) ++ (write_elements es ++ rest)
unfolding encode_array
array_shape es rest = simp append_assoc

array_length :
    (es : List Bytes)
    → suc (length (format_nat (length es) ++ (cr ∷ lf ∷ []))) + length (write_elements es)
      ≡ length (encode_array es)
unfolding encode_array
array_length es = omega (
  arith,
  length-append (format_nat (length es)) (cr ∷ lf ∷ write_elements es),
  length-append (format_nat (length es)) (cr ∷ lf ∷ []),
)

read_array_lem :
    (f : ℕ) (es : List Bytes) (vs : Values) (rest : Bytes)
    → EncodesAll es vs
    → length es ≤ max_capacity
    → InMemory ((b'*' ∷ (format_nat (length es) ++ (cr ∷ lf ∷ []))) ++ (write_elements es ++ rest))
    → length (write_elements es ++ rest) < f
    → read_array
        (decode_fuel f)
        ((b'*' ∷ (format_nat (length es) ++ (cr ∷ lf ∷ []))) ++ (write_elements es ++ rest))
      ≡ ok (
        array vs,
        suc (length (format_nat (length es) ++ (cr ∷ lf ∷ []))) + length (write_elements es),
      )
unfolding read_array array_of
read_array_lem f es vs rest h fits m l =
    let header = b'*' ∷ (format_nat (length es) ++ (cr ∷ lf ∷ [])) in
    let small : ltb max_capacity (length es) ≡ false = ground arith in
    rw (read_length_line_lem b'*' (length es) (write_elements es ++ rest) (omega arith)) (
      rw small (
        rw (
          elements_lem f es vs (header ++ (write_elements es ++ rest)) header rest (length header) h
            m l refl refl)))

pub decode_array :
    (bytes : Bytes)
    → decode_one (b'*' ∷ bytes) ≡ read_array (decode_fuel (suc (length bytes))) (b'*' ∷ bytes)
unfolding decode_one
decode_array bytes = refl

-- `EncodeArray` of encoded elements is read back as the array of their values.
pub encode_array-Encodes :
    (es : List Bytes) (vs : Values)
    → EncodesAll es vs
    → length es ≤ max_capacity
    → Encodes (encode_array es) (array vs)
encode_array-Encodes es vs h fits rest m =
    let bytes = (format_nat (length es) ++ (cr ∷ lf ∷ [])) ++ (write_elements es ++ rest) in
    let l = length-append (format_nat (length es) ++ (cr ∷ lf ∷ [])) (write_elements es ++ rest) in
    rw (array_shape es rest) (
      decode_array bytes
      ∙ read_array_lem (suc (length bytes)) es vs rest h fits
          (subst InMemory (array_shape es rest) m) (omega arith)
      ∙ ap (λ (n : ℕ). ok (array vs, n)) (array_length es))

abbrev pub strings : List Bytes → Values
strings [] = nil
strings (s ∷ ss) = cons (string s) (strings ss)

bulk_strings-EncodesAll : (ss : List Bytes) → EncodesAll (map encode_bulk_string ss) (strings ss)
bulk_strings-EncodesAll [] = tt
bulk_strings-EncodesAll (s ∷ ss) = (decode_one-encode_bulk_string s, bulk_strings-EncodesAll ss)

pub encode_array_bulk_strings-Encodes :
    (ss : List Bytes)
    → length ss ≤ max_capacity
    → Encodes (encode_array_bulk_strings ss) (array (strings ss))
unfolding encode_array_bulk_strings
encode_array_bulk_strings-Encodes ss h =
    encode_array-Encodes (map encode_bulk_string ss) (strings ss) (bulk_strings-EncodesAll ss)
      (rw (length-map encode_bulk_string ss) h)
