-- ===== src/Crates.antt =====
-- What the kernel assumes of the crates that it links with: their documented behaviour, as records
-- of operations and laws.
pub mod Lists
use mathlib.Core.Option
use umi.Base.{
  ℕ, zero, suc, ◌≤◌, ◌<◌, ◌≡◌, ◌↔◌, refl, List, [], ◌∷◌, ◌++◌, Bool, true, false, ltb, Option, none,
  some, if◌then◌else◌, length, arith, ◌==◌, ◌+◌, ◌*◌, ◌^◌, Result, ok,
}

-- `crossbeam_queue::ArrayQueue`: a bounded queue, first in, first out.
pub record ArrayQueue (A : Type 0) : Type 1 where
  pub Queue : Type 0
  pub new : ℕ → Queue
  -- The queue after the call, and whether the item was taken.
  pub push : Queue → A → Queue × Bool
  pub pop : Queue → Queue × Option A
  pub is_empty : Queue → Bool
  pub contents : Queue → List A
  pub capacity : Queue → ℕ
  -- `new` panics on a capacity of 0.
  pub new_empty : (n : ℕ) → 0 < n → (contents (new n) ≡ []) × (capacity (new n) ≡ n)
  pub push_room :
      (q : Queue) (a : A)
      → length (contents q) < capacity q
      → ((push q a).1 ≡ true)
        × (contents (push q a).0 ≡ contents q ++ a ∷ [])
        × (capacity (push q a).0 ≡ capacity q)
  pub push_full : (q : Queue) (a : A) → capacity q ≤ length (contents q) → push q a ≡ (q, false)
  pub pop_empty : (q : Queue) → contents q ≡ [] → pop q ≡ (q, none)
  pub pop_front :
      (q : Queue) (a : A) (rest : List A)
      → contents q ≡ a ∷ rest
      → ((pop q).1 ≡ some a) × (contents (pop q).0 ≡ rest) × (capacity (pop q).0 ≡ capacity q)
  pub is_empty_iff : (q : Queue) → (is_empty q ≡ true) ↔ (contents q ≡ [])

-- `heapless::mpmc::MpMcQueue` with its capacity: a bounded queue, first in, first out.
pub record MpMcQueue (A : Type 0) (cap : ℕ) : Type 1 where
  pub Queue : Type 0
  pub new : Queue
  -- The queue after the call, and whether the item was taken.
  pub enqueue : Queue → A → Queue × Bool
  pub dequeue : Queue → Queue × Option A
  pub contents : Queue → List A
  pub new_empty : contents new ≡ []
  pub within : (q : Queue) → length (contents q) ≤ cap
  pub enqueue_room :
      (q : Queue) (a : A)
      → length (contents q) < cap
      → ((enqueue q a).1 ≡ true) × (contents (enqueue q a).0 ≡ contents q ++ a ∷ [])
  pub enqueue_full : (q : Queue) (a : A) → cap ≤ length (contents q) → enqueue q a ≡ (q, false)
  pub dequeue_empty : (q : Queue) → contents q ≡ [] → dequeue q ≡ (q, none)
  pub dequeue_front :
      (q : Queue) (a : A) (rest : List A)
      → contents q ≡ a ∷ rest
      → ((dequeue q).1 ≡ some a) × (contents (dequeue q).0 ≡ rest)

-- `crossbeam_queue::SegQueue`: an unbounded queue, first in, first out.
pub record SegQueue (A : Type 0) : Type 1 where
  pub Queue : Type 0
  pub new : Queue
  pub push : Queue → A → Queue
  pub pop : Queue → Queue × Option A
  pub len : Queue → ℕ
  pub contents : Queue → List A
  pub new_empty : contents new ≡ []
  pub push_back : (q : Queue) (a : A) → contents (push q a) ≡ contents q ++ a ∷ []
  pub pop_empty : (q : Queue) → contents q ≡ [] → pop q ≡ (q, none)
  pub pop_front :
      (q : Queue) (a : A) (rest : List A)
      → contents q ≡ a ∷ rest
      → ((pop q).1 ≡ some a) × (contents (pop q).0 ≡ rest)
  pub len_contents : (q : Queue) → len q ≡ length (contents q)

-- `hashbrown::HashMap` with keys that are numbers.
pub record HashMap (V : Type 0) : Type 1 where
  pub Map : Type 0
  pub empty : Map
  pub get : ℕ → Map → Option V
  pub insert : ℕ → V → Map → Map
  -- Its key must not be there: otherwise its effect is not specified.
  pub insert_unique_unchecked : ℕ → V → Map → Map
  pub remove : ℕ → Map → Map
  pub update : ℕ → (V → V) → Map → Map
  pub len : Map → ℕ
  pub get-empty : (k : ℕ) → get k empty ≡ none
  pub get-insert :
      (j k : ℕ) (v : V) (m : Map) → get j (insert k v m) ≡ (if k == j then some v else get j m)
  pub insert_unique :
      (k : ℕ) (v : V) (m : Map) → get k m ≡ none → insert_unique_unchecked k v m ≡ insert k v m
  pub get-remove : (j k : ℕ) (m : Map) → get j (remove k m) ≡ (if k == j then none else get j m)
  pub get-update :
      (j k : ℕ) (f : V → V) (m : Map)
      → get j (update k f m) ≡ (if k == j then Option.map f (get j m) else get j m)

-- `nom`'s streaming parsers of bytes, which return the rest of the input and a value. They fail on
-- an input that is too short.
pub record Nom : Type 1 where
  pub Failure : Type 0
  pub take_bytes : ℕ → List ℕ → Result Failure (List ℕ × List ℕ)
  pub u8 : List ℕ → Result Failure (List ℕ × ℕ)
  pub le_u16 : List ℕ → Result Failure (List ℕ × ℕ)
  pub le_u32 : List ℕ → Result Failure (List ℕ × ℕ)
  pub take_front :
      (n : ℕ) (bytes rest : List ℕ)
      → length bytes ≡ n
      → take_bytes n (bytes ++ rest) ≡ ok (rest, bytes)
  pub u8_front : (a : ℕ) (rest : List ℕ) → u8 (a ∷ rest) ≡ ok (rest, a)
  pub le_u16_front : (a b : ℕ) (rest : List ℕ) → le_u16 (a ∷ b ∷ rest) ≡ ok (rest, a + 2 ^ 8 * b)
  pub le_u32_front :
      (a b c d : ℕ) (rest : List ℕ)
      → le_u32 (a ∷ b ∷ c ∷ d ∷ rest) ≡ ok (rest, a + 2 ^ 8 * b + 2 ^ 16 * c + 2 ^ 24 * d)
