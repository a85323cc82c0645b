-- ===== src/RangeMap/Alloc/Aslr.antt =====
-- The random placement: `find_free_with_aslr` finds a place exactly if there is one, in two rounds.
use umi.Base.{
  ℕ, ◌+◌, ◌-◌, ◌*◌, ◌/◌, ◌%◌, ◌^◌, ◌≤◌, ◌<◌, ◌≡◌, ◌⊎◌, inl, inr, refl, List, [], ◌∷◌, Bool, true,
  false, Option, none, some, ltb, le→ltb, lt→ltb, le_or_lt, if◌then◌else◌, arith, ◌∙◌, ap,
}
use umi.RangeMap.Alloc.Positions.{
  pow_pos, div_bounds, first, positions, total, first_bounds, position_fits, total_bound, Shown,
  gaps-Shown, total_pos,
}
use native.Mathlib.Nat.{mod-lt, mod-eq_of_lt, zero-add}
use umi.RangeMap.{Range, RangeMap}
use umi.RangeMap.Tiling.{IsTiled}
use umi.RangeMap.Insert.{Fits}
use umi.RangeMap.Alloc.{
  FindResult, found, next, not_found, find_gap, Layout, align, AslrKey, new, find_key_usize,
  round_end, find_free_with_aslr,
}
use umi.RangeMap.Alloc.Gaps.{gaps, Within, Within-gaps, gaps-Within}
use umi.RangeMap.Alloc.Gap.{
  visit, gap_loop-visit, find_free_found, find_free-next, find_free_not_found,
}

module _ {R : Type 0} (next_u64 : R → ℕ × R) where
  -- The state after the gaps of a round in which no place was chosen.
  abbrev passed : AslrKey R → ℕ → AslrKey R
  passed k n = record k { entropy = k.entropy - n; count = k.count + n }

  -- A gap that is shown, with no wrap-around.
  shown :
      (k : AslrKey R) (g : Range)
      → g.end + align k.layout ≤ 2 ^ 64
      → g.start < g.end
      → 0 < k.layout.size
      → k.count + positions k.layout g < 2 ^ 64
      → find_key_usize next_u64 (some g) k ≡ (
          if ltb k.entropy (positions k.layout g)
          then (
            found (record {
              start = first k.layout g + k.entropy * align k.layout;
              end = first k.layout g + k.entropy * align k.layout + k.layout.size;
            }),
            record k { count = k.count + positions k.layout g },
          )
          else (next, passed k (positions k.layout g)))
  unfolding find_key_usize
  shown k g fits proper pos room =
      let a = align k.layout in
      let start : g.start + (a - 1) < 2 ^ 64 = omega (arith, pow_pos k.layout.shift) in
      rw (mod-eq_of_lt start) (ground arith)

  -- A range that was placed by the layout inside one of the gaps.
  record Placed (l : Layout) (gs : List Range) (key : Range) : Type 0 where
    proper : key.start < key.end
    within : Within key.start key.end gs
    multiple : ℕ
    aligned : key.start ≡ multiple * align l
    sized : key.end ≡ key.start + l.size

  visit_miss :
      (gs : List Range) (k : AslrKey R)
      → 0 < k.layout.size
      → Shown (align k.layout) gs
      → k.count + total k.layout gs < 2 ^ 64
      → total k.layout gs ≤ k.entropy
      → visit (find_key_usize next_u64) gs k ≡ round_end next_u64 (passed k (total k.layout gs))
  unfolding visit find_key_usize total
  visit_miss [] k pos b room h =
      let same : k ≡ passed k 0 = ground arith in ap (round_end next_u64) same
  visit_miss (g ∷ gs) k pos b room h =
      let n = positions k.layout g in
      let rest = total k.layout gs in
      let same : passed (passed k n) rest ≡ passed k (n + rest) = ground arith in
      rw (shown k g b.0.1 b.0.0 pos (omega arith), le→ltb k.entropy n (omega arith))
        (visit_miss gs (passed k n) pos b.1 (omega arith) (omega arith)
          ∙ ap (round_end next_u64) same)

  visit_hit :
      (gs : List Range) (k : AslrKey R)
      → 0 < k.layout.size
      → Shown (align k.layout) gs
      → k.count + total k.layout gs < 2 ^ 64
      → k.entropy < total k.layout gs
      → (key : Range) × (k' : AslrKey R) × (visit (find_key_usize next_u64) gs k ≡ (found key, k'))
        × Placed k.layout gs key
  unfolding visit total
  visit_hit [] k pos b room h = absurd (omega arith)
  visit_hit (g ∷ gs) k pos b room h = elim (le_or_lt (positions k.layout g) k.entropy) [
    | inl past ↦
        let n = positions k.layout g in
        let (key, k', q, p) = visit_hit gs (passed k n) pos b.1 (omega arith) (omega arith) in
        (
          key,
          k',
          rw (shown k g b.0.1 b.0.0 pos (omega arith), le→ltb k.entropy n past) q,
          record {
            proper = p.proper;
            within = inr p.within;
            multiple = p.multiple;
            aligned = p.aligned;
            sized = p.sized;
          },
        )
    | inr here ↦
        let n = positions k.layout g in
        let base = first k.layout g + k.entropy * align k.layout in
        (
          record { start = base; end = base + k.layout.size },
          record k { count = k.count + n },
          rw (shown k g b.0.1 b.0.0 pos (omega arith), lt→ltb k.entropy n here),
          record {
            proper = omega arith;
            within = inl (
              omega (arith, first_bounds k.layout g),
              omega (
                arith,
                position_fits k.layout g k.entropy pos here,
                div_bounds g.end (align k.layout) (pow_pos k.layout.shift),
              ),
            );
            multiple = (g.start + (align k.layout - 1)) / align k.layout + k.entropy;
            aligned = omega arith;
            sized = refl;
          },
        )
  ]

  -- A key at the start of a round.
  abbrev key_at : Layout → R → Bool → ℕ → AslrKey R
  key_at l rng retried entropy = record {
    rng = rng;
    retried = retried;
    entropy = entropy;
    count = 0;
    layout = l;
  }

  round_again :
      {l : Layout} (rng : R) (entropy n : ℕ)
      → 0 < n
      → round_end next_u64 (passed (key_at l rng false entropy) n)
        ≡ (next, key_at l (next_u64 rng).1 true ((next_u64 rng).0 % n))
  unfolding round_end
  round_again rng entropy n h = rw zero-add (ground arith)

  round_over :
      {l : Layout} (rng : R) (entropy n : ℕ)
      → n ≡ 0
      → round_end next_u64 (passed (key_at l rng false entropy) n)
        ≡ (not_found, passed (key_at l rng false entropy) n)
  unfolding round_end
  round_over rng entropy n h = ground arith

  module _ {V : Type 0} (m : RangeMap V) (l : Layout) (tiled : IsTiled m) (pos : 0 < l.size)
      (room : m.range.end + align l ≤ 2 ^ 64) where
    abbrev all_gaps : List Range
    all_gaps = gaps m.range.end m.range.start m.map

    count_room : total l all_gaps < 2 ^ 64
    count_room =
        omega (arith, total_bound l m.range.end m.range.start m.map pos tiled, pow_pos l.shift)

    Shown-gaps : Shown (align l) all_gaps
    Shown-gaps = gaps-Shown (align l) m.range.end m.range.start m.map tiled room

    -- A round that starts below the number of positions finds a place.
    round_hit :
        (rng : R) (retried : Bool) (entropy : ℕ)
        → entropy < total l all_gaps
        → (key : Range) × (k' : AslrKey R) × (find_gap
              (find_key_usize next_u64)
              m
              (key_at l rng retried entropy)
            ≡ (found key, k'))
          × Placed l all_gaps key
    unfolding find_gap
    round_hit rng retried entropy h =
        let k = key_at l rng retried entropy in
        let (key, k', q, p) = visit_hit all_gaps k pos Shown-gaps (omega (arith, count_room)) h in
        (key, k', gap_loop-visit (find_key_usize next_u64) m.range.end m.range.start m.map k ∙ q, p)

    round_miss :
        (rng : R) (entropy : ℕ)
        → total l all_gaps ≤ entropy
        → find_gap (find_key_usize next_u64) m (key_at l rng false entropy)
          ≡ round_end next_u64 (passed (key_at l rng false entropy) (total l all_gaps))
    unfolding find_gap
    round_miss rng entropy h =
        let k = key_at l rng false entropy in
        gap_loop-visit (find_key_usize next_u64) m.range.end m.range.start m.map k
        ∙ visit_miss all_gaps k pos Shown-gaps (omega (arith, count_room)) h

    find_two_rounds :
        (rng : R) (entropy : ℕ)
        → 0 < total l all_gaps
        → (key : Range) × (k' : AslrKey R) × (find_free_with_aslr next_u64 2 m
              (key_at l rng false entropy)
            ≡ some (some key, k'))
          × Placed l all_gaps key
    unfolding find_free_with_aslr
    find_two_rounds rng entropy h = elim (le_or_lt (total l all_gaps) entropy) [
      | inr below ↦
          let (key, k', q, p) = round_hit rng false entropy below in
          (key, k', find_free_found P 1 m (key_at l rng false entropy) k' key q, p)
      | inl past ↦
          let n = total l all_gaps in
          let value = (next_u64 rng).0 in
          let rng' = (next_u64 rng).1 in
          let again = key_at l rng' true (value % n) in
          let (key, k', q, p) = round_hit rng' true (value % n) (mod-lt value h) in
          let over : find_gap P m (key_at l rng false entropy) ≡ (next, again) =
            round_miss rng entropy past ∙ round_again rng entropy n h in
          (
            key,
            k',
            find_free-next P 1 m (key_at l rng false entropy) again over
                ∙ find_free_found P 0 m again k' key q,
            p,
          )
    ]
      where
        P : Option Range → AslrKey R → FindResult × AslrKey R
        P = find_key_usize next_u64

    find_nothing :
        (rng : R) (entropy : ℕ)
        → total l all_gaps ≡ 0
        → (k' : AslrKey R) × (find_free_with_aslr next_u64 2 m (key_at l rng false entropy)
            ≡ some (none, k'))
    unfolding find_free_with_aslr
    find_nothing rng entropy h =
        let k = key_at l rng false entropy in
        let k' = passed k (total l all_gaps) in
        let over : round_end next_u64 k' ≡ (not_found, k') =
          round_over rng entropy (total l all_gaps) h in
        (
          k',
          find_free_not_found (find_key_usize next_u64) 1 m k k'
              (round_miss rng entropy (omega arith) ∙ over),
        )

    -- What a placement within the gaps says of the map.
    Placed-Fits : (key : Range) → Placed l all_gaps key → Fits m key
    Placed-Fits key p =
        let (above, below, free) =
          Within-gaps key.start key.end m.range.end m.range.start m.map tiled p.proper p.within in
        record { proper = p.proper; above = above; below = below; free = free }

    -- On a well formed map whose root range ends one alignment below 2^64, and for a layout that is
    -- not empty, the random search ends within two rounds: it returns a range of the size of the
    -- layout, at a multiple of its alignment, that fits into the map, or no such range fits where
    -- the size is a multiple of the alignment.
    pub find_free_with_aslr_lem :
        (aslr_bit : ℕ) (rng : R)
        → ((key : Range) × (k' : AslrKey R) × (find_free_with_aslr next_u64 2 m
                (new next_u64 aslr_bit rng l)
              ≡ some (some key, k'))
            × Fits m key
            × (key.end ≡ key.start + l.size)
            × ((q : ℕ) × (key.start ≡ q * align l)))
          ⊎ ((k' : AslrKey R) × (find_free_with_aslr next_u64 2 m (new next_u64 aslr_bit rng l)
                ≡ some (none, k'))
              × ((n q : ℕ) (key : Range)
                  → l.size ≡ n * align l
                  → Fits m key
                  → key.end ≡ key.start + l.size
                  → key.start ≡ q * align l
                  → ⊥))
    unfolding new
    find_free_with_aslr_lem aslr_bit rng =
        let rng' = (next_u64 rng).1 in
        let entropy = (next_u64 rng).0 % 2 ^ aslr_bit in
        elim (le_or_lt (total l all_gaps) 0) [
          | inr some_room ↦
              let (key, k', q, p) = find_two_rounds rng' entropy some_room in
              inl (key, k', q, Placed-Fits key p, p.sized, (p.multiple, p.aligned))
          | inl nothing ↦
              let (k', q) = find_nothing rng' entropy (omega arith) in
              inr (
                k',
                q,
                λ n q key whole fits sized aligned.
                    let w =
                      gaps-Within key.start key.end m.range.end m.range.start m.map tiled
                        fits.proper fits.above fits.below fits.free in
                    absurd (
                      omega
                        (arith, total_pos l q n key.start key.end all_gaps whole aligned sized w)),
              )
        ]
