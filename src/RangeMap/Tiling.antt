-- ===== src/RangeMap/Tiling.antt =====
-- The invariant of a range map: its ranges are not empty, follow one another without overlap, and
-- lie in the root range.
use umi.Base.{
  ℕ, suc, ◌≤◌, ◌<◌, ◌≡◌, ◌⊎◌, refl, List, [], ◌∷◌, none, some, arith, All, last?, false,
  Option-cases, inl, inr, init,
}
use umi.BTree
use umi.BTree.Order.{Above, Above-mono, range_to_none}
use umi.RangeMap.{RangeMap, prev_overlaps}

module _ {ℓ} {V : Type ℓ} where
  abbrev pub Tiled : ℕ → ℕ → List (ℕ × (ℕ × V)) → Type 0
  Tiled lo hi [] = Unit
  Tiled lo hi ((s, (e, v)) ∷ m) = (lo ≤ s) × (s < e) × (e ≤ hi) × Tiled e hi m

  abbrev pub IsTiled : RangeMap V → Type 0
  IsTiled m = Tiled m.range.start m.range.end m.map

  -- No entry meets the range from `s` to `e`.
  abbrev pub Clear : ℕ → ℕ → List (ℕ × (ℕ × V)) → Type 0
  Clear s e = All (λ x. (x.1.0 ≤ s) ⊎ (e ≤ x.0))

  pub Tiled-Above : (lo hi : ℕ) (m : List (ℕ × (ℕ × V))) → Tiled lo hi m → Above lo m
  Tiled-Above lo hi [] t = tt
  Tiled-Above lo hi ((s, (e, v)) ∷ m) t = (t.0, Above-mono (suc s) e m t.1 (Tiled-Above e hi m t.3))

  pub Tiled-mono : (a b hi : ℕ) (m : List (ℕ × (ℕ × V))) → a ≤ b → Tiled b hi m → Tiled a hi m
  Tiled-mono a b hi [] h t = tt
  Tiled-mono a b hi ((s, (e, v)) ∷ m) h t = (omega arith, t.1, t.2, t.3)

  pub Above-Clear : (s e hi lo : ℕ) (m : List (ℕ × (ℕ × V))) → Tiled lo hi m → e ≤ lo → Clear s e m
  Above-Clear s e hi lo [] t h = tt
  Above-Clear s e hi lo ((b, (en, v)) ∷ m) t h =
      (inr (omega arith), Above-Clear s e hi en m t.3 (omega arith))

  pub last?-cons :
      (x : ℕ × (ℕ × V)) (r : List (ℕ × (ℕ × V)))
      → last? (x ∷ r) ≡ elim (last? r) [ none ↦ some x | some y ↦ some y ]
  last?-cons x [] = refl
  last?-cons x (y ∷ []) = refl
  last?-cons x (y ∷ z ∷ r) = ground (arith, last?-cons x (z ∷ r), last?-cons y (z ∷ r))

  -- The last entry below a key is one of the map, and not empty.
  pub last_below :
      (e lo hi : ℕ) (m : List (ℕ × (ℕ × V))) (s' e' : ℕ) (v : V)
      → Tiled lo hi m
      → last? (BTree.range_to e m) ≡ some (s', (e', v))
      → (lo ≤ s') × (s' < e') × (e' ≤ hi) × (s' < e)
  last_below e lo hi [] s' e' v t h = ground arith
  last_below e lo hi ((b, (en, w)) ∷ m) s' e' v t h = ground (
    arith,
    last?-cons (b, (en, w)) (BTree.range_to e m),
    last_below e en hi m s' e' v t.3,
    range_to_none e m,
    Above-mono e (suc b) m,
    Tiled-Above en hi m,
  )

  -- The test of the code finds an overlap exactly if there is one.
  pub prev_overlaps-Clear :
      (s e lo hi : ℕ) (m : List (ℕ × (ℕ × V)))
      → Tiled lo hi m
      → prev_overlaps (record { start = s; end = e }) (last? (BTree.range_to e m)) ≡ false
      → Clear s e m
  unfolding prev_overlaps
  prev_overlaps-Clear s e lo hi [] t h = tt
  prev_overlaps-Clear s e lo hi ((b, (en, w)) ∷ m) t h =
      elim (Option-cases (last? (BTree.range_to e m))) [
        | inl q ↦ ground (
          arith,
          last?-cons (b, (en, w)) (BTree.range_to e m),
          prev_overlaps-Clear s e en hi m t.3 (rw q),
          Above-Clear s e hi en m t.3,
        )
        | inr ((s', (e', v)), q) ↦ ground (
          arith,
          last?-cons (b, (en, w)) (BTree.range_to e m),
          prev_overlaps-Clear s e en hi m t.3,
          last_below e en hi m s' e' v t.3 q,
          Above-Clear s e hi en m t.3,
        )
      ]

  pub Clear-prev_overlaps :
      (s e lo hi : ℕ) (m : List (ℕ × (ℕ × V)))
      → Tiled lo hi m
      → s < e
      → Clear s e m
      → prev_overlaps (record { start = s; end = e }) (last? (BTree.range_to e m)) ≡ false
  unfolding prev_overlaps
  Clear-prev_overlaps s e lo hi [] t h c = refl
  Clear-prev_overlaps s e lo hi ((b, (en, w)) ∷ m) t h c = ground (
    arith,
    last?-cons (b, (en, w)) (BTree.range_to e m),
    Clear-prev_overlaps s e en hi m t.3 h c.1,
    range_to_none e m,
    Above-mono e en m,
    Tiled-Above en hi m t.3,
  )

  pub init-cons :
      (x : ℕ × (ℕ × V)) (r : List (ℕ × (ℕ × V)))
      → init (x ∷ r) ≡ elim (last? r) [ none ↦ [] | some y ↦ x ∷ init r ]
  init-cons x [] = refl
  init-cons x (y ∷ []) = refl
  init-cons x (y ∷ z ∷ r) = ground (arith, init-cons x (z ∷ r), last?-cons y (z ∷ r))

  pub last-none : (r : List (ℕ × (ℕ × V))) → last? r ≡ none → r ≡ []
  last-none [] h = refl
  last-none (x ∷ r) h = ground (arith, last?-cons x r)
