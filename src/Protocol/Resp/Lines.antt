-- ===== src/Protocol/Resp/Lines.antt =====
-- `readLine` of internal/protocol/resp.go.
use redis_course.Base.{
  ℕ, ◌+◌, ◌≤◌, ◌≡◌, ◌≢◌, inl, inr, refl, ◌&&◌, [], ◌∷◌, ◌++◌, arith, Bytes, ◌==◌, length, All,
  Bool-cases,
}
use redis_course.Protocol.Resp.{
  Result, ok, err, panic, unfinished, incomplete, ◌>>=◌, cr, lf, scan_line,
}

-- A line without a carriage return is read up to the CRLF behind it.
pub scan_line_lem :
    (line rest : Bytes) (i : ℕ)
    → All (λ c. c ≢ cr) line
    → scan_line (line ++ (cr ∷ lf ∷ rest)) i ≡ ok (line, i + length line + 2)
unfolding scan_line
scan_line_lem [] rest i h = ground arith
scan_line_lem (c ∷ []) rest i h = ground (arith, scan_line_lem [] rest (i + 1) tt)
scan_line_lem (c ∷ d ∷ line) rest i h = ground (arith, scan_line_lem (d ∷ line) rest (i + 1) h.1)

pub bind_complete {ℓ κ} :
    {A : Type ℓ} {B : Type κ} (m : Result A) (f : A → Result B)
    → (m >>= f) ≢ err incomplete
    → m ≢ err incomplete
bind_complete (err e) f h = λ p. h (cc)
bind_complete m f h = cc

pub bind-extend {ℓ κ} :
    {A : Type ℓ} {B : Type κ} (m n : Result A) (f : A → Result B)
    → (m ≢ err incomplete → n ≡ m)
    → (m >>= f) ≢ err incomplete
    → (n >>= f) ≡ (m >>= f)
bind-extend m n f e h = rw (e (bind_complete m f h))

-- What a call that succeeded went through.
pub bind-ok {α β} :
    {A : Type α} {B : Type β} (call : Result A) (continue : A → Result B) {result : B}
    → (call >>= continue) ≡ ok result
    → (value : A) × (call ≡ ok value) × (continue value ≡ ok result)
bind-ok panic continue e = cc
bind-ok unfinished continue e = cc
bind-ok (ok value) continue e = (value, refl, e)
bind-ok (err error) continue e = cc

-- A line that was read lies within the text, and the next position is behind its CRLF.
pub scan_line_bounds :
    (bytes : Bytes) (i : ℕ) {line : Bytes} {next : ℕ}
    → scan_line bytes i ≡ ok (line, next)
    → (next ≡ i + length line + 2) × (next ≤ i + length bytes)
unfolding scan_line
scan_line_bounds [] i h = cc
scan_line_bounds (c ∷ []) i h = cc
scan_line_bounds (c ∷ d ∷ rest) i {line} {next} h = elim (Bool-cases ((c == cr) && (d == lf))) [
  | inl found ↦
      let g : ◌≡◌ {A = Result (Bytes × ℕ)} (ok ([], i + 2)) (ok (line, next)) = rw found at h in
      ground arith
  | inr more ↦
      let (r, e, q) = bind-ok (scan_line (d ∷ rest) (i + 1)) _ (rw more at h) in
      let b = scan_line_bounds (d ∷ rest) (i + 1) e in ground arith
]

-- More text behind a line that was read changes nothing.
pub scan_line_extend :
    (bytes more : Bytes) (i : ℕ)
    → scan_line bytes i ≢ err incomplete
    → scan_line (bytes ++ more) i ≡ scan_line bytes i
unfolding scan_line
scan_line_extend [] more i h = absurd (h refl)
scan_line_extend (c ∷ []) more i h = absurd (h refl)
scan_line_extend (c ∷ d ∷ rest) more i h = elim (Bool-cases ((c == cr) && (d == lf))) [
  | inl found ↦ rw found
  | inr later ↦ rw later (
      bind-extend (scan_line (d ∷ rest) (i + 1)) _ _ (scan_line_extend (d ∷ rest) more (i + 1))
        (rw later at h))
]
