-- ===== src/RangeMap/Alloc/Gaps.antt =====
-- The gaps of a map, as a list of ranges.
use umi.Base.{ℕ, ◌≤◌, ◌<◌, ◌⊎◌, List, [], ◌∷◌, ltb, if◌then◌else◌, arith}
use umi.RangeMap.{Range}
use umi.RangeMap.Tiling.{Tiled, Clear, Above-Clear}

-- The ranges between the entries, from `start` to `hi`.
unfoldable pub gaps : {V : Type 0} → ℕ → ℕ → List (ℕ × (ℕ × V)) → List Range
gaps hi start [] = if ltb start hi then record { start = start; end = hi } ∷ [] else []
gaps hi start ((base, (end, v)) ∷ m) =
    if ltb start base then record { start = start; end = base } ∷ gaps hi end m else gaps hi end m

-- One of the ranges contains the range from `s` to `e`.
abbrev pub Within : ℕ → ℕ → List Range → Type 0
Within s e [] = ⊥
Within s e (g ∷ gs) = ((g.start ≤ s) × (e ≤ g.end)) ⊎ Within s e gs

module _ {V : Type 0} where
  -- A range lies in a gap exactly if it is clear of all entries.
  pub Within-gaps :
      (s e hi lo : ℕ) (m : List (ℕ × (ℕ × V)))
      → Tiled lo hi m
      → s < e
      → Within s e (gaps hi lo m)
      → (lo ≤ s) × (e ≤ hi) × Clear s e m
  unfolding gaps
  Within-gaps s e hi lo [] t h w = ground arith
  Within-gaps s e hi lo ((b, (f, v)) ∷ m) t h w =
      ground (arith, Within-gaps s e hi f m t.3 h, Above-Clear s e hi f m t.3)

  pub gaps-Within :
      (s e hi lo : ℕ) (m : List (ℕ × (ℕ × V)))
      → Tiled lo hi m
      → s < e
      → lo ≤ s
      → e ≤ hi
      → Clear s e m
      → Within s e (gaps hi lo m)
  unfolding gaps
  gaps-Within s e hi lo [] t h a b c = ground arith
  gaps-Within s e hi lo ((x, (f, v)) ∷ m) t h a b c = ground (arith, gaps-Within s e hi f m t.3 h)
