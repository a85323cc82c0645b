-- ===== src/RangeMap/Insert.antt =====
-- `try_insert`, `try_entry` and `Entry::insert`: when they accept a range, and what they leave.
use umi.Base.{
  ℕ, ◌≤◌, ◌<◌, ◌≡◌, ◌↔◌, ◌⊎◌, inl, inr, refl, List, [], ◌∷◌, none, some, ◌==◌, if◌then◌else◌, arith,
  last?, Bool-cases, ok, err, done,
}
use umi.BTree
use umi.BTree.Order.{get-insert}
use umi.RangeMap.{
  Range, RangeMap, Entry, prev_overlaps, try_insert, try_entry, vacant_entry, entry_insert, get,
}
use umi.RangeMap.Tiling.{
  Tiled, IsTiled, Clear, prev_overlaps-Clear, Clear-prev_overlaps, Above-Clear, Tiled-mono,
}

module _ {V : Type 0} where
  insert-Tiled :
      (s e lo hi : ℕ) (v : V) (m : List (ℕ × (ℕ × V)))
      → Tiled lo hi m
      → lo ≤ s
      → s < e
      → e ≤ hi
      → Clear s e m
      → Tiled lo hi (BTree.insert s (e, v) m)
  unfolding BTree.insert
  insert-Tiled s e lo hi v [] t a b c d = (a, b, c, tt)
  insert-Tiled s e lo hi v ((k, (f, w)) ∷ m) t a b c d =
      ground (arith, insert-Tiled s e f hi v m t.3, Above-Clear s e hi f m t.3, Tiled-mono e f hi m)

  -- Where a range is clear, its start is no key.
  pub get-Clear :
      (s e lo hi : ℕ) (m : List (ℕ × (ℕ × V)))
      → Tiled lo hi m
      → s < e
      → Clear s e m
      → BTree.get s m ≡ none
  unfolding BTree.get
  get-Clear s e lo hi [] t h c = refl
  get-Clear s e lo hi ((k, (f, w)) ∷ m) t h c = ground (arith, get-Clear s e f hi m t.3 h c.1)

  -- The key is a range that is not empty, within the root range, and free.
  pub record Fits (m : RangeMap V) (key : Range) : Type 0 where
    pub proper : key.start < key.end
    pub above : m.range.start ≤ key.start
    pub below : key.end ≤ m.range.end
    pub free : Clear key.start key.end m.map

  accepted :
      (m : RangeMap V) (key : Range) (v : V)
      → IsTiled m
      → Fits m key
      → try_insert m key v ≡ (record m { map = BTree.insert key.start (key.end, v) m.map }, ok tt)
  unfolding try_insert
  accepted m key v t f = ground (
    arith,
    Clear-prev_overlaps key.start key.end m.range.start m.range.end m.map t f.proper f.free,
  )

  refused_or_Fits :
      (m : RangeMap V) (key : Range) (v : V)
      → IsTiled m
      → (try_insert m key v ≡ (m, err v)) ⊎ Fits m key
  unfolding try_insert
  refused_or_Fits m key v t =
      elim (Bool-cases (prev_overlaps key (last? (BTree.range_to key.end m.map)))) [
        | inl p ↦ inl (ground arith)
        | inr p ↦
            ground
              (arith, prev_overlaps-Clear key.start key.end m.range.start m.range.end m.map t p)
      ]

  -- On a well formed map, `try_insert` accepts a range exactly if it is not empty, lies in the root
  -- range and meets no entry.
  pub try_insert_iff :
      (m : RangeMap V) (key : Range) (v : V)
      → IsTiled m
      → ((try_insert m key v).1 ≡ ok tt) ↔ Fits m key
  try_insert_iff m key v t = (
    λ h. elim (refused_or_Fits m key v t) [ inl e ↦ ground arith | inr f ↦ f ],
    λ f. rw (accepted m key v t f),
  )

  -- A refused insertion returns the value, and changes nothing.
  pub try_insert_refused :
      (m : RangeMap V) (key : Range) (v : V)
      → IsTiled m
      → ¬ Fits m key
      → try_insert m key v ≡ (m, err v)
  try_insert_refused m key v t h = elim (refused_or_Fits m key v t) [
    | inl e ↦ e
    | inr f ↦ absurd (h f)
  ]

  -- Whether it succeeds or not, `try_insert` keeps the ranges of a well formed map disjoint, not
  -- empty and in the root range.
  pub try_insert-IsTiled :
      (m : RangeMap V) (key : Range) (v : V) → IsTiled m → IsTiled (try_insert m key v).0
  try_insert-IsTiled m key v t = elim (refused_or_Fits m key v t) [
    | inl e ↦ rw e t
    | inr f ↦ rw (accepted m key v t f) (
        insert-Tiled key.start key.end m.range.start m.range.end v m.map t f.above f.proper f.below
          f.free)
  ]

  -- After an insertion of a range that fits, its start reads the value, and every other key what it
  -- read before.
  pub get-try_insert :
      (m : RangeMap V) (key : Range) (v : V) (j : ℕ)
      → IsTiled m
      → Fits m key
      → get (try_insert m key v).0 j ≡ (if key.start == j then some v else get m j)
  unfolding get
  get-try_insert m key v j t f =
      rw (accepted m key v t f) (ground (arith, get-insert j key.start (key.end, v) m.map))

  -- On a well formed map, `try_entry` followed by `Entry::insert` is `try_insert`, and its
  -- `unreachable!` is not reached.
  pub try_entry-try_insert :
      (m : RangeMap V) (key : Range) (v : V)
      → IsTiled m
      → ((try_entry m key ≡ done none) × (try_insert m key v ≡ (m, err v)))
        ⊎ ((entry : Entry) × (try_entry m key ≡ done (some entry))
            × (try_insert m key v ≡ (entry_insert m entry v, ok tt)))
  unfolding try_entry try_insert entry_insert vacant_entry
  try_entry-try_insert m key v t =
      elim (Bool-cases (prev_overlaps key (last? (BTree.range_to key.end m.map)))) [
        | inl p ↦ inl (ground arith, ground arith)
        | inr p ↦ ground (
          arith,
          get-Clear key.start key.end m.range.start m.range.end m.map t,
          prev_overlaps-Clear key.start key.end m.range.start m.range.end m.map t p,
        )
      ]
