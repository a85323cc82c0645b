-- ===== src/RangeMap/Alloc/Gap.antt =====
-- What `find_gap` shows to its predicate, and what `find_free` and `allocate_with` return.
use umi.Base.{
  ℕ, zero, suc, ◌≤◌, ◌<◌, ◌≡◌, ◌≢◌, inl, inr, refl, List, [], ◌∷◌, Option, none, some, arith, sym,
  ◌∙◌,
}
use umi.RangeMap.{Range, RangeMap}
use umi.RangeMap.Tiling.{IsTiled}
use umi.RangeMap.Insert.{Fits}
use umi.RangeMap.Alloc.{FindResult, found, next, not_found, on_next, gap_loop, find_gap, find_free}
use umi.RangeMap.Alloc.Gaps.{gaps, Within, Within-gaps}
use mathlib.Core.Path.{fun_ext}

module _ {S : Type 0} (P : Option Range → S → FindResult × S) where
  -- A round of the search: the gaps in order, then the end of the round.
  unfoldable pub visit : List Range → S → FindResult × S
  visit [] s = P none s
  visit (g ∷ gs) s = on_next (P (some g) s) (visit gs)

  pub gap_loop-visit :
      {V : Type 0} (hi lo : ℕ) (m : List (ℕ × (ℕ × V))) (s : S)
      → gap_loop P hi lo m s ≡ visit (gaps hi lo m) s
  unfolding gap_loop visit gaps
  gap_loop-visit hi lo [] s = ground arith
  gap_loop-visit hi lo ((b, (e, v)) ∷ m) s = rw (fun_ext (gap_loop-visit hi e m)) (ground arith)

  module _ {V : Type 0} (rounds : ℕ) (m : RangeMap V) (s s' : S) where
    pub find_free_found :
        (key : Range)
        → find_gap P m s ≡ (found key, s')
        → find_free P (suc rounds) m s ≡ some (some key, s')
    unfolding find_free
    find_free_found key h = ground arith

    pub find_free-next :
        find_gap P m s ≡ (next, s') → find_free P (suc rounds) m s ≡ find_free P rounds m s'
    unfolding find_free
    find_free-next h = ground arith

    pub find_free_not_found :
        find_gap P m s ≡ (not_found, s') → find_free P (suc rounds) m s ≡ some (none, s')
    unfolding find_free
    find_free_not_found h = ground arith

  -- The predicate chooses a range that is not empty inside the gap that it is shown, and never at
  -- the end of a round.
  pub record Chooses : Type 0 where
    pub inside :
        (g : Range) (s : S) (key : Range) (s' : S)
        → P (some g) s ≡ (found key, s')
        → (g.start ≤ key.start) × (key.start < key.end) × (key.end ≤ g.end)
    pub at_end : (s : S) (key : Range) (s' : S) → P none s ≢ (found key, s')

  -- What a state has left: no answer raises it, and the end of a round that asks for another lowers
  -- it.
  pub record Nears (left : S → ℕ) : Type 0 where
    pub kept : (g : Range) (s s' : S) → P (some g) s ≡ (next, s') → left s' ≤ left s
    pub lowered : (s s' : S) → P none s ≡ (next, s') → left s' < left s

  -- The predicate gave up, at a gap or at the end of a round.
  unfoldable pub GivesUp : Type 0
  GivesUp = (o : Option Range) × (s s' : S) × (P o s ≡ (not_found, s'))

  visit_found :
      Chooses
      → (gs : List Range) (s : S) (key : Range) (s' : S) → visit gs s ≡ (found key, s')
      → (key.start < key.end) × Within key.start key.end gs
  unfolding visit
  visit_found c [] s key s' h = absurd (c.at_end s key s' h)
  visit_found c (g ∷ gs) s key s' h = go (P (some g) s) refl (visit_found c gs) h
    where
      go :
          (r : FindResult × S)
          → P (some g) s ≡ r
          → ((s1 : S) (key : Range) (s' : S)
              → visit gs s1 ≡ (found key, s')
              → (key.start < key.end) × Within key.start key.end gs)
          → on_next r (visit gs) ≡ (found key, s')
          → (key.start < key.end) × Within key.start key.end (g ∷ gs)
      go (found k, s1) e ih h = let (a, b, d) = c.inside g s key s' (e ∙ h) in (b, inl (a, d))
      go (next, s1) e ih h = let (b, w) = ih s1 key s' h in (b, inr w)
      go (not_found, s1) e ih h = absurd (cc)

  module _ {V : Type 0} (chooses : Chooses) (m : RangeMap V) (tiled : IsTiled m) where
    find_gap-Fits : (s : S) (key : Range) (s' : S) → find_gap P m s ≡ (found key, s') → Fits m key
    unfolding find_gap
    find_gap-Fits s key s' h =
        let lo = m.range.start in
        let hi = m.range.end in
        let (proper, w) =
          visit_found chooses (gaps hi lo m.map) s key s'
            (sym (gap_loop-visit hi lo m.map s) ∙ h) in
        let (above, below, free) = Within-gaps key.start key.end hi lo m.map tiled proper w in
        record { proper = proper; above = above; below = below; free = free }

    -- Whatever the predicate chooses, the range that is found fits into the map.
    pub find_free-Fits :
        (rounds : ℕ) (s : S) (key : Range) (s' : S)
        → find_free P rounds m s ≡ some (some key, s')
        → Fits m key
    unfolding find_free
    find_free-Fits zero s key s' h = absurd (cc)
    find_free-Fits (suc rounds) s key s' h =
        ground (arith, find_free-Fits rounds (find_gap P m s).1 key s', find_gap-Fits s key s')
