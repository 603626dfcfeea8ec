-- ===== src/Examples/SkipLists.antt =====
-- The theorems on internal/storage/skip_list.go at concrete inputs.
use redis_course.Base.{
  ℕ, ◌≡◌, refl, Bool, false, not, ◌&&◌, some, [], ◌∷◌, codes, ◌==◌, length, same,
}
use redis_course.Base.GoMap.{lookup, insert, delete}
use redis_course.Base.Int.{pos, negsuc}
use redis_course.Storage.Float64.{Float64}
use redis_course.Storage.SortedSet.{Ranking, less, position, slice, members_of}
use redis_course.Storage.SkipList.{
  SkipList, new_skip_list, add, remove, get_range, get_rank, get_member_score, chain,
}
use redis_course.Storage.SkipList.Reads.{get_range-slice, get_rank-position}

-- Three members, one of which gets another score.
abbrev score : ℕ → Float64
score n = record { negative = false; magnitude = n }

abbrev three : (ℕ → Bool) → SkipList
three flips =
    (add flips (codes "a") (score 9)
      (add flips (codes "c") (score 2)
        (add flips (codes "b") (score 3) (add flips (codes "a") (score 1) new_skip_list).0).0).0).0

abbrev mostly : ℕ → Bool
mostly n = not (n == 2) && not (n == 5) && not (n == 9)

three_runs :
    (get_range (pos 0) (negsuc 0) (three mostly) ≡ codes "c" ∷ codes "b" ∷ codes "a" ∷ [])
    × (get_rank (codes "a") (three mostly) ≡ some 2)
    × (get_member_score (codes "a") (three mostly) ≡ some (score 9))
    × (get_range (pos 0) (pos 5) (remove (codes "b") (three mostly)).0 ≡ codes "c" ∷ codes "a" ∷ [])
unfolding add new_skip_list remove get_range get_rank get_member_score lookup less same insert
    delete
three_runs = (refl, refl, refl, refl)

abbrev ranked : Ranking
ranked = (codes "c", score 2) ∷ (codes "b", score 3) ∷ (codes "a", score 9) ∷ []

chain-three : chain (length (three mostly).heap) (three mostly).heap 0 ≡ members_of ranked
unfolding add new_skip_list remove lookup less same insert delete chain
chain-three = refl

length-three :
    length (chain (length (three mostly).heap) (three mostly).heap 0) ≡ (three mostly).len
unfolding add new_skip_list remove lookup less same insert delete chain
length-three = refl

get_range-slice_example :
    get_range (pos 1) (negsuc 0) (three mostly)
    ≡ slice (pos 1) (negsuc 0) (chain (length (three mostly).heap) (three mostly).heap 0)
get_range-slice_example = get_range-slice (pos 1) (negsuc 0) (three mostly) length-three

get_rank-position_example : get_rank (codes "b") (three mostly) ≡ position (codes "b") ranked
get_rank-position_example = get_rank-position (codes "b") ranked (three mostly) chain-three
