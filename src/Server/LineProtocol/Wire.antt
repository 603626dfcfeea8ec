-- ===== src/Server/LineProtocol/Wire.antt =====
-- The requests of the line protocol of internal/server/server.go and the bytes of a connection.
use redis_course.Base.{
  ℕ, zero, suc, ◌+◌, ◌*◌, ◌<◌, ◌≡◌, refl, sym, ap, ◌∙◌, arith, inl, inr, Option, none, some, List,
  [], ◌∷◌, ◌++◌, append-nil, append_assoc, Bytes, ◌==◌, if◌then◌else◌, length, Bool-cases, ==_iff,
  Option-cases, length-append,
}
use redis_course.Protocol.Resp.{lf}
use redis_course.Server.Chunks.{concat}
use redis_course.Server.LineProtocol.{
  cut_line, take_lines, process_lines, handle_lines, line_replies,
}

cut_line-append :
    (bs more l r : Bytes) → cut_line bs ≡ some (l, r) → cut_line (bs ++ more) ≡ some (l, r ++ more)
unfolding cut_line
cut_line-append [] more l r h = cc
cut_line-append (c ∷ bs) more l r h = elim (Bool-cases (c == lf)) [
  | inl e ↦ let k : some ([], bs) ≡ some (l, r) = rw e at h in rw e (ap (λ o. grow more o) k)
  | inr e ↦ elim (Option-cases (cut_line bs)) [
    | inl n ↦ cc (rw n at (rw e at h))
    | inr ((l', r'), n) ↦
        let k : some (c ∷ l', r') ≡ some (l, r) = rw n at (rw e at h) in
        rw e (rw (cut_line-append bs more l' r' n) (ap (λ o. grow more o) k))
  ]
]
  where
    grow : Bytes → Option (Bytes × Bytes) → Option (Bytes × Bytes)
    grow more none = none
    grow more (some (l, r)) = some (l, r ++ more)

-- A line and its line feed are what was cut off.
cut_line-shape : (bs l r : Bytes) → cut_line bs ≡ some (l, r) → bs ≡ l ++ (lf ∷ r)
unfolding cut_line
cut_line-shape [] l r h = cc
cut_line-shape (c ∷ bs) l r h = elim (Bool-cases (c == lf)) [
  | inl e ↦
      let k : some ([], bs) ≡ some (l, r) = rw e at h in
      let d : c ≡ lf = (==_iff c lf).0 e in rw d (ap (λ o. join_of o) k)
  | inr e ↦ elim (Option-cases (cut_line bs)) [
    | inl n ↦ cc (rw n at (rw e at h))
    | inr ((l', r'), n) ↦
        let k : some (c ∷ l', r') ≡ some (l, r) = rw n at (rw e at h) in
        ap (◌∷◌ c) (cut_line-shape bs l' r' n) ∙ ap (λ o. join_of o) k
  ]
]
  where
    join_of : Option (Bytes × Bytes) → Bytes
    join_of none = []
    join_of (some (l, r)) = l ++ (lf ∷ r)

shorter : (bs l r : Bytes) → cut_line bs ≡ some (l, r) → length r < length bs
shorter bs l r h =
    let a = ap (λ (x : Bytes). length x) (cut_line-shape bs l r h) in
    let b = length-append l (lf ∷ r) in omega arith

take_lines-enough :
    (f g : ℕ) (bs : Bytes) → length bs < f → length bs < g → take_lines f bs ≡ take_lines g bs
unfolding take_lines
take_lines-enough zero g bs h k = elim h [ ]
take_lines-enough (suc f) zero bs h k = elim k [ ]
take_lines-enough (suc f) (suc g) bs h k = elim (Option-cases (cut_line bs)) [
  | inl n ↦ rw (n, take_lines) refl
  | inr ((l, r), n) ↦
      let d = shorter bs l r n in
      rw (n, take_lines) (rw (take_lines-enough f g r (omega arith) (omega arith)) refl)
]

process_none : (bs : Bytes) → cut_line bs ≡ none → process_lines bs ≡ ([], bs)
unfolding process_lines
process_none bs n = rw (n, take_lines) refl

process_some :
    (bs l r : Bytes)
    → cut_line bs ≡ some (l, r)
    → process_lines bs ≡ (l ∷ (process_lines r).0, (process_lines r).1)
unfolding process_lines
process_some bs l r n =
    let d = shorter bs l r n in
    rw (n, take_lines)
      (rw (take_lines-enough (length bs) (suc (length r)) r (omega arith) (omega arith)) refl)

-- The lines of two buffers are those of the first, and those that the second completes.
lines-append :
    (f : ℕ) (bs more : Bytes)
    → length bs < f
    → process_lines (bs ++ more) ≡ (
      (process_lines bs).0 ++ (process_lines ((process_lines bs).1 ++ more)).0,
      (process_lines ((process_lines bs).1 ++ more)).1,
    )
lines-append zero bs more h = elim h [ ]
lines-append (suc f) bs more h = elim (Option-cases (cut_line bs)) [
  | inl n ↦ rw (process_none bs n) refl
  | inr ((l, r), n) ↦
      let d = shorter bs l r n in
      let m = cut_line-append bs more l r n in
      rw (process_some bs l r n, process_some (bs ++ more) l (r ++ more) m)
        (rw (lines-append f r more (omega arith)) refl)
]

cut_line_rest_fuel : (f : ℕ) (bs : Bytes) → length bs < f → cut_line (process_lines bs).1 ≡ none
cut_line_rest_fuel zero bs h = elim h [ ]
cut_line_rest_fuel (suc f) bs h = elim (Option-cases (cut_line bs)) [
  | inl n ↦ rw (process_none bs n) n
  | inr ((l, r), n) ↦
      let d = shorter bs l r n in rw (process_some bs l r n) (cut_line_rest_fuel f r (omega arith))
]

cut_line-rest : (bs : Bytes) → cut_line (process_lines bs).1 ≡ none
cut_line-rest bs = cut_line_rest_fuel (suc (length bs)) bs (omega arith)

-- How the bytes of a connection are cut into reads does not matter: the requests and what is left
-- are those of the bytes taken together.
pub handle_lines-concat :
    (buffers : List Bytes) (pending : Bytes)
    → cut_line pending ≡ none
    → handle_lines buffers pending ≡ process_lines (pending ++ concat buffers)
unfolding handle_lines
handle_lines-concat [] pending n = rw (append-nil pending) (sym (process_none pending n))
handle_lines-concat (b ∷ bs) pending n =
    let p = process_lines (pending ++ b) in
    rw
      (
        handle_lines-concat bs p.1 (cut_line-rest (pending ++ b)),
        ← append_assoc pending b (concat bs),
      )
      (sym (lines-append (suc (length (pending ++ b))) (pending ++ b) (concat bs) (omega arith)))

-- The bytes of requests, each with its line feed.
abbrev pub lines_wire : List Bytes → Bytes
lines_wire [] = []
lines_wire (l ∷ ls) = l ++ (lf ∷ lines_wire ls)

lines-wire :
    (f : ℕ) (bs : Bytes)
    → length bs < f
    → lines_wire (process_lines bs).0 ++ (process_lines bs).1 ≡ bs
lines-wire zero bs h = elim h [ ]
lines-wire (suc f) bs h = elim (Option-cases (cut_line bs)) [
  | inl n ↦ rw (process_none bs n) refl
  | inr ((l, r), n) ↦
      let d = shorter bs l r n in
      rw (process_some bs l r n) (
        append_assoc l (lf ∷ lines_wire (process_lines r).0) (process_lines r).1
        ∙ ap (λ (x : Bytes). l ++ (lf ∷ x)) (lines-wire f r (omega arith))
        ∙ sym (cut_line-shape bs l r n))
]

abbrev pub line_feeds : Bytes → ℕ
line_feeds [] = 0
line_feeds (c ∷ cs) = (if c == lf then 1 else 0) + line_feeds cs

line_feeds-none : (bs : Bytes) → cut_line bs ≡ none → line_feeds bs ≡ 0
unfolding cut_line
line_feeds-none [] n = refl
line_feeds-none (c ∷ bs) n = elim (Bool-cases (c == lf)) [
  | inl e ↦ cc (rw e at n)
  | inr e ↦ elim (Option-cases (cut_line bs)) [
    | inl m ↦ let i = line_feeds-none bs m in rw e (omega arith)
    | inr ((l, r), m) ↦ cc (rw m at (rw e at n))
  ]
]

line_feeds-some : (bs l r : Bytes) → cut_line bs ≡ some (l, r) → line_feeds bs ≡ suc (line_feeds r)
unfolding cut_line
line_feeds-some [] l r n = cc
line_feeds-some (c ∷ bs) l r n = elim (Bool-cases (c == lf)) [
  | inl e ↦
      let k : some ([], bs) ≡ some (l, r) = rw e at n in
      let d : line_feeds bs ≡ line_feeds r = ap (λ o. feeds_of o) k in rw e (omega arith)
  | inr e ↦ elim (Option-cases (cut_line bs)) [
    | inl m ↦ cc (rw m at (rw e at n))
    | inr ((l', r'), m) ↦
        let k : some (c ∷ l', r') ≡ some (l, r) = rw m at (rw e at n) in
        let d : line_feeds r' ≡ line_feeds r = ap (λ o. feeds_of o) k in
        let i = line_feeds-some bs l' r' m in rw e (omega arith)
  ]
]
  where
    feeds_of : Option (Bytes × Bytes) → ℕ
    feeds_of none = 0
    feeds_of (some (l, r)) = line_feeds r

length-lines : (f : ℕ) (bs : Bytes) → length bs < f → length (process_lines bs).0 ≡ line_feeds bs
length-lines zero bs h = elim h [ ]
length-lines (suc f) bs h = elim (Option-cases (cut_line bs)) [
  | inl n ↦ rw (process_none bs n) (sym (line_feeds-none bs n))
  | inr ((l, r), n) ↦
      let d = shorter bs l r n in
      let i = length-lines f r (omega arith) in
      let k = line_feeds-some bs l r n in rw (process_some bs l r n) (omega arith)
]

length-replies : (requests : List Bytes) → length (line_replies requests) ≡ 3 * length requests
unfolding line_replies
length-replies [] = omega arith
length-replies (r ∷ rs) = let i = length-replies rs in omega arith

-- Every byte of a connection is in exactly one request or still waits, in the order in which it came,
-- no complete line waits, and the three bytes of an OK are written for each line feed.
pub handle_lines-wire :
    (buffers : List Bytes)
    → (lines_wire (handle_lines buffers []).0 ++ (handle_lines buffers []).1 ≡ concat buffers)
      × (cut_line (handle_lines buffers []).1 ≡ none)
      × (length (line_replies (handle_lines buffers []).0) ≡ 3 * line_feeds (concat buffers))
handle_lines-wire buffers =
    let f = suc (length (concat buffers)) in
    rw (handle_lines-concat buffers [] (unfold cut_line in refl)) (
      lines-wire f (concat buffers) (omega arith),
      cut_line-rest (concat buffers),
      length-replies (process_lines (concat buffers)).0
          ∙ ap (λ (n : ℕ). 3 * n) (length-lines f (concat buffers) (omega arith)),
    )
