-- ===== src/Storage/Eviction.antt =====
-- internal/storage/eviction.go: the interface that a Store has with its eviction policy. Locks are
-- left out: a policy's methods run one after the other.
pub mod Lru
pub mod Lfu
pub mod Random
use redis_course.Base.{
  ℕ, suc, ◌≤◌, ◌<◌, ◌≡◌, Bool, true, false, Option, none, some, Bytes, same, if◌then◌else◌,
}

-- The methods. `victim` has one more argument, the draw: Go leaves the order in which it ranges
-- over a map open, and a policy that does so decides by it.
pub record EvictionPolicy : Type 1 where
  pub State : Type 0
  pub name : Bytes
  pub initial : State
  pub on_insert : Bytes → State → State
  pub on_access : Bytes → State → State
  pub on_remove : Bytes → State → State
  pub victim : ℕ → State → Option Bytes

-- What the comments on the methods promise.
pub record Laws (P : EvictionPolicy) : Type 1 where
  pub Valid : P.State → Type 0
  pub tracks : Bytes → P.State → Bool
  pub count : P.State → ℕ
  pub initial-Valid : Valid P.initial
  pub on_insert-Valid : (k : Bytes) (s : P.State) → Valid s → Valid (P.on_insert k s)
  pub on_access-Valid : (k : Bytes) (s : P.State) → Valid s → Valid (P.on_access k s)
  pub on_remove-Valid : (k : Bytes) (s : P.State) → Valid s → Valid (P.on_remove k s)
  pub tracks-initial : (j : Bytes) → tracks j P.initial ≡ false
  pub tracks-on_insert :
      (k j : Bytes) (s : P.State)
      → Valid s
      → tracks j (P.on_insert k s) ≡ (if same k j then true else tracks j s)
  pub tracks-on_access :
      (k j : Bytes) (s : P.State)
      → Valid s
      → tracks j (P.on_access k s) ≡ (if same k j then true else tracks j s)
  pub tracks-on_remove :
      (k j : Bytes) (s : P.State)
      → Valid s
      → tracks j (P.on_remove k s) ≡ (if same k j then false else tracks j s)
  pub count-on_remove :
      (k : Bytes) (s : P.State) → Valid s → tracks k s ≡ true → count (P.on_remove k s) < count s
  pub victim-tracked :
      (draw : ℕ) (s : P.State) (k : Bytes) → Valid s → P.victim draw s ≡ some k → tracks k s ≡ true
  pub victim-none :
      (draw : ℕ) (s : P.State) (k : Bytes) → Valid s → P.victim draw s ≡ none → tracks k s ≡ false
