-- ===== src/Storage/SkipList/Reads.antt =====
-- What `getRange` and `getRank` of internal/storage/skip_list.go read off level 0.
use redis_course.Base.{
  ℕ, zero, suc, ◌+◌, ◌-◌, ◌≤◌, ◌≡◌, refl, sym, ap, ◌∙◌, arith, inl, inr, ◌||◌, Option, none, some,
  List, [], ◌∷◌, Bytes, ltb, leb, length, take, drop, same_iff, Bool-cases, Option-cases,
}
use redis_course.Base.Int.{ℤ, pos, negsuc}
use redis_course.Storage.SortedSet.{Ranking, position, slice, first_rank, end_rank, members_of}
use redis_course.Storage.SkipList.{
  SkipList, chain, rank_from, get_rank, first_index, last_index, collect, get_range,
}

drop-nil : (n : ℕ) → drop {A = Bytes} n [] ≡ []
drop-nil zero = refl
drop-nil (suc n) = refl

take-nil : (n : ℕ) → take {A = Bytes} n [] ≡ []
take-nil zero = refl
take-nil (suc n) = refl

collect-slice :
    (i start stop : ℕ) (ms : List Bytes)
    → collect i start stop ms ≡ drop (start - i) (take (suc stop - i) ms)
unfolding collect
collect-slice i start stop [] = rw (take-nil (suc stop - i)) (sym (drop-nil (start - i)))
collect-slice i start stop (m ∷ ms) = elim (Bool-cases (ltb stop i)) [
  | inl b ↦ let z : suc stop - i ≡ 0 = ground arith in rw b (rw z (sym (drop-nil (start - i))))
  | inr b ↦
      let z : suc stop - i ≡ suc (suc stop - suc i) = ground arith in
      let r = collect-slice (suc i) start stop ms in
      rw b (
        rw z (elim (Bool-cases (leb start i)) [
          | inl c ↦
              let y : start - i ≡ 0 = ground arith in
              let x : start - suc i ≡ 0 = ground arith in rw c (rw y (ap (◌∷◌ m) (r ∙ rw x refl)))
          | inr c ↦ let y : start - i ≡ suc (start - suc i) = ground arith in rw c (rw y r)
        ]))
]

drop_short : (k : ℕ) (ms : List Bytes) → length ms ≤ k → drop k ms ≡ []
drop_short zero [] h = refl
drop_short zero (m ∷ ms) h = absurd (omega arith)
drop_short (suc k) [] h = refl
drop_short (suc k) (m ∷ ms) h = drop_short k ms (omega arith)

length-take_le :
    (k : ℕ) (ms : List Bytes) → (length (take k ms) ≤ k) × (length (take k ms) ≤ length ms)
length-take_le zero ms = (omega arith, omega arith)
length-take_le (suc k) [] = (omega arith, omega arith)
length-take_le (suc k) (m ∷ ms) = let (a, b) = length-take_le k ms in (omega arith, omega arith)

first_index-rank : (start : ℤ) (n : ℕ) → first_index start n ≡ first_rank start n
unfolding first_index first_rank
first_index-rank (pos k) n = refl
first_index-rank (negsuc k) n = refl

last_index-none : (stop : ℤ) (n : ℕ) → last_index stop n ≡ none → end_rank stop n ≡ 0
unfolding last_index end_rank
last_index-none (pos k) n h = ground arith
last_index-none (negsuc k) n h = ground arith

last_index-some : (stop : ℤ) (n l : ℕ) → last_index stop n ≡ some l → end_rank stop n ≡ suc l
unfolding last_index end_rank
last_index-some (pos k) n l h = ground arith
last_index-some (negsuc k) n l h = ground arith

minus_zero : (n : ℕ) → n - 0 ≡ n
minus_zero n = omega arith

-- `getRange` is the slice of the members on level 0 between the two ranks, where the length is theirs:
-- a negative rank counts from the end, ranks out of bounds are cut, and an empty range is empty.
pub get_range-slice :
    (start stop : ℤ) (s : SkipList)
    → length (chain (length s.heap) s.heap 0) ≡ s.len
    → get_range start stop s ≡ slice start stop (chain (length s.heap) s.heap 0)
unfolding get_range slice
get_range-slice start stop s h =
    let ms = chain (length s.heap) s.heap 0 in
    let f = first_index-rank start s.len in
    rw (h, ← f)
      (elim (Option-cases (last_index stop s.len)) [
        | inl n ↦
            rw (n, get_range, last_index-none stop s.len n)
              (sym (drop-nil (first_index start s.len)))
        | inr (l, n) ↦
            rw (n, get_range, last_index-some stop s.len l n)
              (elim (Bool-cases
                (ltb l (first_index start s.len) || leb s.len (first_index start s.len))) [
                  | inl b ↦
                      let (x, y) = length-take_le (suc l) ms in
                      rw b (
                        sym (drop_short (first_index start s.len) (take (suc l) ms) (ground arith)))
                  | inr b ↦ rw b (
                      rw (minus_zero (first_index start s.len), minus_zero (suc l)) at
                        (collect-slice 0 (first_index start s.len) l ms))
                ])
      ])

rank-position :
    (k : ℕ) (m : Bytes) (v : Ranking)
    → rank_from k m (members_of v) ≡ (elim (position m v) [ none ↦ none | some i ↦ some (k + i) ])
unfolding rank_from position
rank-position k m [] = refl
rank-position k m ((n, x) ∷ v) =
    ground (arith, same_iff m n, same_iff n m, rank-position (suc k) m v)

-- `getRank` is the number of members before the one that is asked for on level 0, and finds nothing
-- where it is not there.
pub get_rank-position :
    (m : Bytes) (v : Ranking) (s : SkipList)
    → chain (length s.heap) s.heap 0 ≡ members_of v
    → get_rank m s ≡ position m v
unfolding get_rank
get_rank-position m v s h = rw h (rank-position 0 m v ∙ plain (position m v))
  where
    plain : (o : Option ℕ) → (elim o as (λ x. Option ℕ) [ none ↦ none | some i ↦ some (0 + i) ]) ≡ o
    plain none = refl
    plain (some i) = ap some (omega arith)
