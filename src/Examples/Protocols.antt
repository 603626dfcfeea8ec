-- ===== src/Examples/Protocols.antt =====
-- The theorems on internal/protocol and internal/server at concrete inputs.
use redis_course.Base.{
  ℕ, suc, ◌-◌, ◌^◌, ◌≤◌, ◌≡◌, ◌≢◌, refl, [], ◌∷◌, ◌++◌, arith, Bytes, codes, length,
}
use redis_course.Base.Decimal.{format_nat, format_int, parse_int}
use redis_course.Base.Int.{negsuc}
use redis_course.Protocol.Resp.{
  Command, ok, err, panic, unfinished, incomplete, string, integer, decode_one, decode_fuel,
  parse_command, to_upper, encode_simple_string, encode_integer, encode_bulk_string,
  encode_array_bulk_strings, encode_array, write_elements, read_length_line, read_line, scan_line,
  cr, lf,
}
use redis_course.Protocol.Resp.Bounds.{decode_one-bounds}
use redis_course.Protocol.Resp.Fuel.{decode_one-total}
use redis_course.Protocol.Resp.Extend.{decode_one-extend}
use redis_course.Protocol.Resp.RoundTrip.{
  decode_one-encode_simple_string, decode_one-encode_integer, decode_one-encode_bulk_string,
}
use redis_course.Protocol.Resp.Commands.{
  parse_command-encode, parse_command-extend, parse_command-bounds,
}
use redis_course.Protocol.Resp.Panics.{length_line, bulk_length_panics, array_length_panics}
use redis_course.Server.{Handled, written, handle_connection, process_resp_buffer, out_of_fuel}
use redis_course.Server.Chunks.{handle_connection-concat}
use redis_course.Server.Pipeline.{process_resp_buffer-total}

-- "PING", as a bulk string and as a request.
abbrev ping : Bytes
ping = codes "$4" ++ (cr ∷ lf ∷ (codes "PING" ++ (cr ∷ lf ∷ [])))

abbrev request : Bytes
request = codes "*1" ++ (cr ∷ lf ∷ ping)

-- No letter but the ASCII ones.
abbrev unicode : Bytes → Bytes
unicode s = s

abbrev count_commands : Command → ℕ → ℕ × Handled
count_commands c n = (suc n, written)

ping_decodes : decode_one ping ≡ ok (string (codes "PING"), 10)
unfolding decode_one read_length_line read_line scan_line parse_int
ping_decodes = refl

request_parses : parse_command unicode request ≡ ok (record { cmd = codes "PING"; args = [] }, 14)
unfolding parse_command decode_one read_length_line read_line scan_line parse_int
request_parses = refl

ping_complete : decode_one ping ≢ err incomplete
ping_complete = cc ping_decodes

request_complete : parse_command unicode request ≢ err incomplete
request_complete = cc request_parses

decode_one-bounds_example : (3 ≤ 10) × (10 ≤ length ping)
decode_one-bounds_example =
    decode_one-bounds ping (string (codes "PING")) 10 (omega arith) ping_decodes

decode_one-total_example : (decode_one ping ≢ unfinished) × (decode_fuel 100 ping ≡ decode_one ping)
decode_one-total_example = decode_one-total ping 100 (omega arith)

decode_one-extend_example : decode_one (ping ++ ping) ≡ decode_one ping
decode_one-extend_example = decode_one-extend ping ping (omega arith) ping_complete

decode_one-encode_simple_string_example :
    decode_one (encode_simple_string (codes "OK") ++ codes "more")
    ≡ ok (string (codes "OK"), length (encode_simple_string (codes "OK")))
unfolding encode_simple_string
decode_one-encode_simple_string_example =
    decode_one-encode_simple_string (codes "OK") (omega arith) (codes "more") (omega arith)

decode_one-encode_integer_example :
    decode_one (encode_integer (negsuc 41) ++ codes "more")
    ≡ ok (integer (negsuc 41), length (encode_integer (negsuc 41)))
unfolding encode_integer format_int format_nat
decode_one-encode_integer_example =
    decode_one-encode_integer (negsuc 41) (omega arith) (codes "more") (omega arith)

decode_one-encode_bulk_string_example :
    decode_one (encode_bulk_string (codes "PING") ++ ping)
    ≡ ok (string (codes "PING"), length (encode_bulk_string (codes "PING")))
unfolding encode_bulk_string format_nat
decode_one-encode_bulk_string_example =
    decode_one-encode_bulk_string (codes "PING") ping (omega arith)

parse_command-encode_example :
    parse_command unicode (encode_array_bulk_strings (codes "get" ∷ codes "k" ∷ []) ++ request)
    ≡ ok (
      record { cmd = to_upper unicode (codes "get"); args = codes "k" ∷ [] },
      length (encode_array_bulk_strings (codes "get" ∷ codes "k" ∷ [])),
    )
unfolding encode_array_bulk_strings encode_array encode_bulk_string write_elements format_nat
parse_command-encode_example =
    parse_command-encode unicode (codes "get") (codes "k" ∷ []) request (omega arith) (omega arith)

parse_command-extend_example :
    parse_command unicode (request ++ request) ≡ parse_command unicode request
parse_command-extend_example =
    parse_command-extend unicode request request (omega arith) request_complete

parse_command-bounds_example : (3 ≤ 14) × (14 ≤ length request)
parse_command-bounds_example =
    parse_command-bounds unicode request (record { cmd = codes "PING"; args = [] }) 14 (omega arith)
      request_parses

bulk_length_panics_example : decode_one (length_line b'$' (2 ^ 63 - 1) []) ≡ panic
unfolding format_nat
bulk_length_panics_example =
    bulk_length_panics (2 ^ 63 - 1) [] (omega arith) (omega arith) (omega arith)

array_length_panics_example : decode_one (length_line b'*' (2 ^ 45) []) ≡ panic
array_length_panics_example = array_length_panics (2 ^ 45) [] (omega arith) (omega arith)

handle_connection-concat_example :
    ((handle_connection unicode count_commands (request ∷ codes "*1" ∷ []) [] 0).state
      ≡ (process_resp_buffer unicode count_commands (request ++ codes "*1") 0).state)
    × ((handle_connection unicode count_commands (request ∷ codes "*1" ∷ []) [] 0).status
        ≡ (process_resp_buffer unicode count_commands (request ++ codes "*1") 0).status)
handle_connection-concat_example =
    handle_connection-concat unicode count_commands (request ∷ codes "*1" ∷ []) 0 (omega arith)

process_resp_buffer-total_example :
    (process_resp_buffer unicode count_commands (request ++ request) 0).status ≢ out_of_fuel
process_resp_buffer-total_example =
    process_resp_buffer-total unicode count_commands (request ++ request) 0 (omega arith)
