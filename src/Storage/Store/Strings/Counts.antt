-- ===== src/Storage/Store/Strings/Counts.antt =====
-- What `Incr` of internal/storage/string_value.go answers and writes for a stored integer.
use redis_course.Base.{ℕ, zero, suc, ◌-◌, ◌^◌, ◌≡◌, refl, ap, ◌∙◌, arith, false, some, Bytes}
use redis_course.Base.Int.{ℤ, pos, negsuc, InInt64}
use redis_course.Base.Decimal.{format_int}
use redis_course.Base.Decimal.RoundTrip.{parse_int-format_int}
use redis_course.Base.GoMap.{lookup}
use redis_course.Storage.SortedSet.{SetLaws}
use redis_course.Storage.Eviction.{EvictionPolicy, Laws}
use redis_course.Storage.Store.{SortedSets, Record, Store, is_expired, string_type, string}
use redis_course.Storage.Store.Strings.{
  ok, to_word, next_int64, as_string, overwrite_record, incr_live, store_incr,
}

-- The next integer.
abbrev pub succ_ℤ : ℤ → ℤ
succ_ℤ (pos n) = pos (suc n)
succ_ℤ (negsuc zero) = pos 0
succ_ℤ (negsuc (suc n)) = negsuc n

next_int64-wraps : next_int64 (pos (2 ^ 63 - 1)) ≡ negsuc (2 ^ 63 - 1)
unfolding next_int64 to_word
next_int64-wraps = refl

module _ {P : EvictionPolicy} (L : Laws P) {Z : SortedSets} (K : SetLaws Z) where
  -- `Incr` of a live record that holds the decimal text of an int64.
  incr_stored :
      (now : ℕ) (draws : ℕ → ℕ) (key : Bytes) (z : ℤ) (r : Record Z) (s : Store P Z)
      → lookup key s.records ≡ some r
      → is_expired now r ≡ false
      → r.value ≡ string (format_int z)
      → InInt64 z
      → store_incr now draws key s ≡ (
        overwrite_record draws key r
            (record { type = string_type; value = string (format_int (next_int64 z)); ttl = r.ttl })
            s,
        ok (next_int64 z),
      )
  unfolding store_incr incr_live as_string
  incr_stored now draws key z r s e x t i =
      let n : as_string r.value ≡ some (format_int z) = ap as_string t in
      rw (e, x, store_incr) (rw (n, parse_int-format_int z i, incr_live) refl)

  -- `Incr` of a live key that holds the decimal text of the largest int64 returns the smallest one.
  pub incr_wraps :
      (now : ℕ) (draws : ℕ → ℕ) (key : Bytes) (r : Record Z) (s : Store P Z)
      → lookup key s.records ≡ some r
      → is_expired now r ≡ false
      → r.value ≡ string (format_int (pos (2 ^ 63 - 1)))
      → (store_incr now draws key s).1 ≡ ok (negsuc (2 ^ 63 - 1))
  incr_wraps now draws key r s e x t =
      ap (λ p. p.1)
        (incr_stored now draws key (pos (2 ^ 63 - 1)) r s e x t (omega arith, omega arith))
      ∙ ap ok next_int64-wraps
