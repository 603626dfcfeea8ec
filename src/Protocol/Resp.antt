-- ===== src/Protocol/Resp.antt =====
-- internal/protocol/resp.go: the RESP2 decoder and encoders. Byte slices are lists of bytes, and a
-- slice data[k:] is `drop k data`. Errors are told apart and carry no text.
pub mod Lines
pub mod Bounds
pub mod Fuel
pub mod Extend
pub mod RoundTrip
pub mod Panics
pub mod Commands
use redis_course.Base.{
  ℕ, zero, suc, ◌+◌, ◌-◌, ◌^◌, Bool, true, false, ◌&&◌, ◌||◌, not, Option, none, some, List, [],
  ◌∷◌, ◌++◌, ◌≡◌, refl, Bytes, codes, ltb, ◌==◌, if◌then◌else◌, length, take, drop, get_elem?, map,
  leb,
}
use redis_course.Base.Int.{ℤ, pos, negsuc, ltb_ℤ, wrap}
use redis_course.Base.Decimal.{format_nat, format_int, parse_int}

-- The values of `DecodeOne`. A simple string and a bulk string are one Go `string`; a null bulk
-- string and a null array are `nil`.
mutual
  pub data Value : Type 0 where
    string : Bytes → Value
    resp_error : Bytes → Value
    integer : ℤ → Value
    null : Value
    array : Values → Value

  pub data Values : Type 0 where
    nil : Values
    cons : Value → Values → Values

pub data Error : Type 0 where
  incomplete unknown_prefix invalid_integer invalid_length invalid_bulk_length missing_crlf : Error
  invalid_array_length extra_bytes not_array zero_arity integer_token null_token bad_token : Error

-- A call returns, returns an error, or panics; `unfinished` is the model's own: the fuel ran out.
pub data Result {α} (A : Type α) : Type α where
  panic unfinished : Result A
  err : Error → Result A
  ok : A → Result A

infixl 5 ◌>>=◌
abbrev pub ◌>>=◌ {α β} :
    {A : Type α} {B : Type β} (call : Result A) (continue : A → Result B) → Result B
panic >>= continue = panic
unfinished >>= continue = unfinished
ok value >>= continue = continue value
err e >>= continue = err e

abbrev pub cr : ℕ
cr = 13

abbrev pub lf : ℕ
lf = 10

-- The loop of `readLine` from index `i` on, over what is left of data there.
unfoldable pub scan_line : Bytes → ℕ → Result (Bytes × ℕ)
scan_line [] i = err incomplete
scan_line (c ∷ []) i = err incomplete
scan_line (c ∷ d ∷ rest) i =
    let later = scan_line (d ∷ rest) (i + 1) in
    if (c == cr) && (d == lf) then ok ([], i + 2) else do (line, next) ← later; ok (c ∷ line, next)

unfoldable pub read_line : Bytes → ℕ → Result (Bytes × ℕ)
read_line bytes start = scan_line (drop start bytes) start

unfoldable pub read_simple_string : Bytes → Result (Bytes × ℕ)
read_simple_string bytes = read_line bytes 1

or_error {ℓ} : {A : Type ℓ} → Error → Option A → Result A
or_error e none = err e
or_error e (some a) = ok a

unfoldable pub read_integer : Bytes → Result (ℤ × ℕ)
unfolding or_error
read_integer bytes = do
  (line, next_pos) ← read_line bytes 1
  n ← or_error invalid_integer (parse_int line)
  ok (n, next_pos)

unfoldable pub read_length_line : Bytes → ℕ → Result (ℤ × ℕ)
unfolding or_error
read_length_line bytes start = do
  (line, next_pos) ← read_line bytes start
  n ← or_error invalid_length (parse_int line)
  ok (n, next_pos)

-- `data[i]`: an index out of range panics.
pub index : Bytes → ℤ → Result ℕ
index bytes (pos i) = elim (get_elem? bytes i) [ none ↦ panic | some c ↦ ok c ]
index bytes (negsuc i) = panic

pub check_crlf : ℕ → ℕ → Value × ℕ → Result (Value × ℕ)
check_crlf c d done = if not (c == cr) || not (d == lf) then err missing_crlf else ok done

-- The part of `readBulkString` after its length tests. The sums are `int` sums, which wrap.
pub read_bulk_body : Bytes → ℕ → ℕ → Result (Value × ℕ)
unfolding index check_crlf
read_bulk_body bytes n next_pos =
    if ltb_ℤ (pos (length bytes)) (wrap (next_pos + n + 2)) then err incomplete else do
      c ← index bytes (wrap (next_pos + n))
      d ← index bytes (wrap (next_pos + n + 1))
      check_crlf c d (string (take n (drop next_pos bytes)), next_pos + n + 2)

-- `readBulkString` behind its length line.
bulk_of : Bytes → ℕ → ℤ → Result (Value × ℕ)
unfolding read_bulk_body
bulk_of bytes next_pos (pos n) = read_bulk_body bytes n next_pos
bulk_of bytes next_pos (negsuc zero) = ok (null, next_pos)
bulk_of bytes next_pos (negsuc (suc n)) = err invalid_bulk_length

unfoldable pub read_bulk_string : Bytes → Result (Value × ℕ)
unfolding bulk_of
read_bulk_string bytes = do (len, next_pos) ← read_length_line bytes 1; bulk_of bytes next_pos len

-- The capacity from which `make([]interface{}, 0, n)` panics on a 64-bit platform: 2^48 bytes of
-- address space, 16 bytes to an interface value.
abbrev pub max_capacity : ℕ
max_capacity = 2 ^ 44

-- The loop of `readArray`: `count` more values from `at` on.
read_elements : (Bytes → Result (Value × ℕ)) → ℕ → Bytes → ℕ → Result (Values × ℕ)
read_elements decode zero bytes at = ok (nil, at)
read_elements decode (suc count) bytes at = do
  (v, consumed) ← decode (drop at bytes)
  (vs, end) ← read_elements decode count bytes (at + consumed)
  ok (cons v vs, end)

-- `readArray` behind its length line.
array_of : (Bytes → Result (Value × ℕ)) → Bytes → ℕ → ℤ → Result (Value × ℕ)
unfolding read_elements
array_of decode bytes next_pos (pos n) =
    if ltb max_capacity n
    then panic
    else do (vs, end) ← read_elements decode n bytes next_pos; ok (array vs, end)
array_of decode bytes next_pos (negsuc zero) = ok (null, next_pos)
array_of decode bytes next_pos (negsuc (suc n)) = err invalid_array_length

pub read_array : (Bytes → Result (Value × ℕ)) → Bytes → Result (Value × ℕ)
unfolding array_of
read_array decode bytes = do
  (len, next_pos) ← read_length_line bytes 1
  array_of decode bytes next_pos len

decode_simple_string : Bytes → Result (Value × ℕ)
unfolding read_simple_string
decode_simple_string bytes = do (s, n) ← read_simple_string bytes; ok (string s, n)

decode_error : Bytes → Result (Value × ℕ)
unfolding read_simple_string
decode_error bytes = do (s, n) ← read_simple_string bytes; ok (resp_error s, n)

decode_integer : Bytes → Result (Value × ℕ)
unfolding read_integer
decode_integer bytes = do (i, n) ← read_integer bytes; ok (integer i, n)

-- The `switch` of `DecodeOne`.
pub dispatch {ℓ} : {A : Type ℓ} → ℕ → A → A → A → A → A → A → A
dispatch c simple error int bulk elements other =
    if c == b'+'
    then simple
    else if c == b'-'
    then error
    else if c == b':'
    then int
    else if c == b'$'
    then bulk
    else if c == b'*'
    then elements
    else other

-- The body of `DecodeOne`, over its own recursive call.
decode_body : (Bytes → Result (Value × ℕ)) → Bytes → Result (Value × ℕ)
unfolding dispatch read_array decode_simple_string decode_error decode_integer read_bulk_string
decode_body recur [] = err incomplete
decode_body recur (c ∷ rest) =
    let bytes = c ∷ rest in
    dispatch c (decode_simple_string bytes) (decode_error bytes) (decode_integer bytes)
      (read_bulk_string bytes) (read_array recur bytes) (err unknown_prefix)

-- `DecodeOne` with fuel for the nesting of arrays.
pub decode_fuel : ℕ → Bytes → Result (Value × ℕ)
unfolding decode_body
decode_fuel zero bytes = unfinished
decode_fuel (suc f) bytes = decode_body (decode_fuel f) bytes

-- Every level of nesting takes a byte, so this fuel is enough.
unfoldable pub decode_one : Bytes → Result (Value × ℕ)
unfolding decode_fuel
decode_one bytes = decode_fuel (suc (length bytes)) bytes

unfoldable pub decode : Bytes → Result Value
decode bytes = do
  (v, consumed) ← decode_one bytes
  (if consumed == length bytes then ok v else err extra_bytes)

unfoldable pub encode_simple_string : Bytes → Bytes
encode_simple_string value = b'+' ∷ (value ++ (cr ∷ lf ∷ []))

unfoldable pub encode_bulk_string : Bytes → Bytes
encode_bulk_string value =
    b'$' ∷ (format_nat (length value) ++ (cr ∷ lf ∷ (value ++ (cr ∷ lf ∷ []))))

unfoldable pub encode_null_bulk_string : Bytes
encode_null_bulk_string = b'$' ∷ b'-' ∷ b'1' ∷ cr ∷ lf ∷ []

unfoldable pub encode_integer : ℤ → Bytes
encode_integer value = b':' ∷ (format_int value ++ (cr ∷ lf ∷ []))

unfoldable pub write_elements : List Bytes → Bytes
write_elements [] = []
write_elements (element ∷ elements) = element ++ write_elements elements

unfoldable pub encode_array : List Bytes → Bytes
unfolding write_elements
encode_array elements = b'*' ∷ (format_nat (length elements) ++ (cr ∷ lf ∷ write_elements elements))

unfoldable pub encode_array_bulk_strings : List Bytes → Bytes
unfolding encode_array encode_bulk_string
encode_array_bulk_strings values = encode_array (map encode_bulk_string values)

unfoldable pub encode_error : Bytes → Bytes
encode_error message = b'-' ∷ (message ++ (cr ∷ lf ∷ []))

pub record Command : Type 0 where
  pub cmd : Bytes
  pub args : List Bytes

unfoldable pub token_to_string : Value → Bool → Result Bytes
token_to_string (string s) allow_int = ok s
token_to_string (integer n) allow_int = if allow_int then ok (format_int n) else err integer_token
token_to_string null allow_int = err null_token
token_to_string (resp_error e) allow_int = err bad_token
token_to_string (array vs) allow_int = err bad_token

tokens_to_strings : Values → Result (List Bytes)
tokens_to_strings nil = ok []
tokens_to_strings (cons v vs) = do
  arg ← token_to_string v true
  args ← tokens_to_strings vs
  ok (arg ∷ args)

unfoldable pub is_ascii : Bytes → Bool
is_ascii [] = true
is_ascii (c ∷ cs) = ltb c 128 && is_ascii cs

-- `strings.ToUpper`, where `unicode` is what it makes of a string that is not all ASCII.
unfoldable pub to_upper : (Bytes → Bytes) → Bytes → Bytes
unfolding is_ascii
to_upper unicode s =
    if is_ascii s then map (λ c. if leb b'a' c && leb c b'z' then c - 32 else c) s else unicode s

module _ (unicode : Bytes → Bytes) where
  -- What `ParseCommand` makes of the decoded value.
  unfoldable pub command_of : Value → Result Command
  unfolding token_to_string tokens_to_strings to_upper
  command_of (array nil) = err zero_arity
  command_of (array (cons v vs)) = do
    name ← token_to_string v false
    args ← tokens_to_strings vs
    ok (record { cmd = to_upper unicode name; args = args })
  command_of v = err not_array

  unfoldable pub parse_command : Bytes → Result (Command × ℕ)
  unfolding command_of
  parse_command bytes = do (v, consumed) ← decode_one bytes; c ← command_of v; ok (c, consumed)

  unfoldable pub parse_command_exact : Bytes → Result Command
  parse_command_exact bytes = do
    (c, consumed) ← parse_command bytes
    (if consumed == length bytes then ok c else err extra_bytes)

set_runs :
    parse_command
      (λ s. [])
      (codes "*2"
        ++ (cr
            ∷ lf
            ∷ (codes "$3"
                ++ (cr
                    ∷ lf
                    ∷ (codes "get"
                        ++ (cr
                            ∷ lf
                            ∷ (codes "$1" ++ (cr ∷ lf ∷ (codes "k" ++ (cr ∷ lf ∷ []))))))))))
    ≡ ok (record { cmd = codes "GET"; args = codes "k" ∷ [] }, 20)
unfolding parse_command decode_one parse_int read_length_line read_line scan_line
set_runs = refl
