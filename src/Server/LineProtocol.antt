-- ===== src/Server/LineProtocol.antt =====
-- The line protocol of internal/server/server.go: the part of `handleConnection` without RESP, which
-- answers every line with OK.
pub mod Wire
use redis_course.Base.{
  ℕ, zero, suc, ◌+◌, ◌*◌, ◌<◌, ◌≡◌, refl, sym, ap, ◌∙◌, arith, inl, inr, Option, none, some, List,
  [], ◌∷◌, ◌++◌, append-nil, append_assoc, Bytes, codes, ◌==◌, if◌then◌else◌, length, Bool-cases,
  ==_iff, Option-cases, length-append,
}
use redis_course.Protocol.Resp.{lf}
use redis_course.Server.Chunks.{concat}

-- The line before the first line feed, and what follows it.
unfoldable pub cut_line : Bytes → Option (Bytes × Bytes)
cut_line [] = none
cut_line (c ∷ cs) =
    let rest = cut_line cs in
    if c == lf then some ([], cs) else elim rest [ none ↦ none | some (l, r) ↦ some (c ∷ l, r) ]

-- The loop over the lines of the buffer, on fuel: the requests, and what is left.
unfoldable pub take_lines : ℕ → Bytes → List Bytes × Bytes
unfolding cut_line
take_lines zero pending = ([], pending)
take_lines (suc f) pending = elim (cut_line pending) [
  | none ↦ ([], pending)
  | some (request, rest) ↦ let (requests, last) = take_lines f rest in (request ∷ requests, last)
]

-- With more fuel than there are bytes.
unfoldable pub process_lines : Bytes → List Bytes × Bytes
unfolding take_lines
process_lines pending = take_lines (suc (length pending)) pending

-- The connection over the buffers that its reads return: the requests, and what is left.
unfoldable pub handle_lines : List Bytes → Bytes → List Bytes × Bytes
unfolding process_lines
handle_lines [] pending = ([], pending)
handle_lines (buffer ∷ buffers) pending =
    let (requests, rest) = process_lines (pending ++ buffer) in
    let (more, last) = handle_lines buffers rest in (requests ++ more, last)

-- What is written: OK for each request.
unfoldable pub line_replies : List Bytes → Bytes
line_replies [] = []
line_replies (request ∷ requests) = codes "OK\n" ++ line_replies requests
