-- ===== src/BTree.antt =====
-- The part of `alloc::collections::BTreeMap` that the kernel uses, over keys that are numbers: a
-- list of the entries in the order of their keys.
pub mod Order
use umi.Base.{ℕ, List, [], ◌∷◌, Option, none, some, ltb, leb, ◌==◌, if◌then◌else◌, select}

module _ {ℓ} {V : Type ℓ} where
  unfoldable pub get : ℕ → List (ℕ × V) → Option V
  get k [] = none
  get k ((j, v) ∷ m) = if j == k then some v else get k m

  -- The map after `insert`, which replaces the value of a key that is there.
  unfoldable pub insert : ℕ → V → List (ℕ × V) → List (ℕ × V)
  insert k v [] = (k, v) ∷ []
  insert k v ((j, w) ∷ m) =
      let rest = insert k v m in
      if ltb k j then (k, v) ∷ (j, w) ∷ m else if j == k then (k, v) ∷ m else (j, w) ∷ rest

  unfoldable pub remove : ℕ → List (ℕ × V) → List (ℕ × V)
  remove k [] = []
  remove k ((j, v) ∷ m) = if j == k then m else (j, v) ∷ remove k m

  -- The entries of `range(..k)`, and what `split_off(k)` leaves.
  abbrev pub range_to : ℕ → List (ℕ × V) → List (ℕ × V)
  range_to k = select (λ e. ltb e.0 k)

  -- The entries of `range(k..)`, and what `split_off(k)` returns.
  abbrev pub range_from : ℕ → List (ℕ × V) → List (ℕ × V)
  range_from k = select (λ e. leb k e.0)

  -- `m.append(n)`: an entry of `n` wins over one of `m` with its key.
  unfoldable pub append : List (ℕ × V) → List (ℕ × V) → List (ℕ × V)
  append m [] = m
  append m ((k, v) ∷ n) = append (insert k v m) n
