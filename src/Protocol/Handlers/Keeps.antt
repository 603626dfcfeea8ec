-- ===== src/Protocol/Handlers/Keeps.antt =====
-- Handlers of internal/protocol that keep the store valid, and the order of a range over a map.
use redis_course.Base.{ℕ, zero, suc, List, [], ◌∷◌, Bytes, length, All}
use redis_course.Storage.SortedSet.{SetLaws}
use redis_course.Storage.Eviction.{EvictionPolicy, Laws}
use redis_course.Storage.Store.{SortedSets, Store}
use redis_course.Storage.Store.Valid.{IsValid}
use redis_course.Protocol.Handlers.{Env, Handler, replying, insert_at, in_order}

abbrev pub Keeps :
    {P : EvictionPolicy} {Z : SortedSets} {A : Type 0}
    → Laws P
    → SetLaws Z
    → (Env → List Bytes → Store P Z → Store P Z × A)
    → Type 0
Keeps {P} {Z} {A} L K handle =
    (env : Env) (args : List Bytes) (s : Store P Z)
    → IsValid L K s
    → IsValid L K (handle env args s).0

pub replying-Keeps :
    {P : EvictionPolicy} {Z : SortedSets} (L : Laws P) (K : SetLaws Z) (handle : Handler P Z)
    → Keeps L K handle
    → Keeps L K (replying handle)
unfolding replying
replying-Keeps L K handle keeps env args s v = keeps env args s v

module _ {A : Type 0} (Q : A → Type 0) where
  insert_at-All : (k : ℕ) (a : A) (bs : List A) → Q a → All Q bs → All Q (insert_at k a bs)
  unfolding insert_at
  insert_at-All k a [] h hs = (h, tt)
  insert_at-All zero a (b ∷ bs) h hs = (h, hs)
  insert_at-All (suc k) a (b ∷ bs) h (g, gs) = (g, insert_at-All k a bs h gs)

  pub in_order-All : (order : ℕ → ℕ) (bs : List A) → All Q bs → All Q (in_order order bs)
  unfolding in_order
  in_order-All order [] h = tt
  in_order-All order (b ∷ bs) (h, hs) =
      insert_at-All (order (length bs)) b (in_order order bs) h (in_order-All order bs hs)
