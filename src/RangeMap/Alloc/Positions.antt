-- ===== src/RangeMap/Alloc/Positions.antt =====
-- The positions of a layout in the gaps of a map: where a placement can lie, and how often.
use umi.Base.{
  ℕ, zero, suc, ◌+◌, ◌-◌, ◌*◌, ◌/◌, ◌^◌, ◌≤◌, ◌<◌, ◌≡◌, inl, inr, List, [], ◌∷◌, leb, if◌then◌else◌,
  arith, All,
}
use native.Mathlib.Nat.{div-add-mod, mod-lt, pow-suc, le-div_iff_mul-le, div-lt_iff_lt-mul}
use umi.RangeMap.{Range}
use umi.RangeMap.Tiling.{Tiled}
use umi.RangeMap.Alloc.{Layout, align}
use umi.RangeMap.Alloc.Gaps.{gaps, Within}

pub pow_pos : (n : ℕ) → 0 < 2 ^ n
pow_pos zero = omega arith
pow_pos (suc n) = omega (arith, pow_pos n, pow-suc 2 n)

-- The largest multiple of `a` up to `x`.
pub div_bounds : (x a : ℕ) → 0 < a → (x / a * a ≤ x) × (x < x / a * a + a)
div_bounds x a h = grind (arith, div-add-mod x a, mod-lt)

-- Where a result can lie in a gap, and in how many positions.
abbrev pub first : Layout → Range → ℕ
first l g = (g.start + (align l - 1)) / align l * align l

abbrev pub limit : Layout → Range → ℕ
limit l g = g.end / align l * align l

abbrev pub positions : Layout → Range → ℕ
positions l g =
    if leb l.size (limit l g - first l g) then (limit l g - first l g - l.size) / align l + 1 else 0

unfoldable pub total : Layout → List Range → ℕ
total l [] = 0
total l (g ∷ gs) = positions l g + total l gs

pub first_bounds :
    (l : Layout) (g : Range) → (g.start ≤ first l g) × (first l g < g.start + align l)
first_bounds l g =
    omega (arith, div_bounds (g.start + (align l - 1)) (align l) (pow_pos l.shift), pow_pos l.shift)

place_fits :
    (d size entropy a : ℕ)
    → 0 < a
    → size ≤ d
    → entropy < (d - size) / a + 1
    → entropy * a + size ≤ d
place_fits d size entropy a pos fits h =
    omega (arith, (le-div_iff_mul-le {k = a} {x = entropy} {y = d - size} pos).0 (omega arith))

-- A position below the count lies between the bounds.
pub position_fits :
    (l : Layout) (g : Range) (entropy : ℕ)
    → 0 < l.size
    → entropy < positions l g
    → first l g + entropy * align l + l.size ≤ limit l g
position_fits l g entropy pos h =
    ground (arith, place_fits (limit l g - first l g) l.size entropy (align l) (pow_pos l.shift))

positions-le : (l : Layout) (g : Range) → 0 < l.size → positions l g ≤ g.end - g.start
positions-le l g pos = grind (
  arith,
  div_bounds (limit l g - first l g - l.size) (align l) (pow_pos l.shift),
  div_bounds g.end (align l) (pow_pos l.shift),
  first_bounds l g,
)

pub total_bound :
    {V : Type 0} (l : Layout) (hi lo : ℕ) (m : List (ℕ × (ℕ × V)))
    → 0 < l.size
    → Tiled lo hi m
    → total l (gaps hi lo m) ≤ hi - lo
unfolding total gaps
total_bound l hi lo [] pos t = ground (arith, positions-le l (record { start = lo; end = hi }) pos)
total_bound l hi lo ((b, (e, v)) ∷ m) pos t =
    ground
      (arith, positions-le l (record { start = lo; end = b }) pos, total_bound l hi e m pos t.3)

mul_mono : (x y a : ℕ) → x ≤ y → x * a ≤ y * a
mul_mono x y a h = grind arith

-- A gap with room at an aligned address has a position.
positions_pos :
    (l : Layout) (g : Range) (q n : ℕ)
    → l.size ≡ n * align l
    → g.start ≤ q * align l
    → q * align l + l.size ≤ g.end
    → 0 < positions l g
positions_pos l g q n h a b =
    let pos = pow_pos l.shift in
    let low : (g.start + (align l - 1)) / align l ≤ q = omega (
      arith,
      (div-lt_iff_lt-mul {k = align l} {x = g.start + (align l - 1)} {y = q + 1} pos).1
          (omega arith),
    ) in
    let high : q + n ≤ g.end / align l =
      (le-div_iff_mul-le {k = align l} {x = q + n} {y = g.end} pos).1 (omega arith) in
    ground (
      arith,
      mul_mono ((g.start + (align l - 1)) / align l) q (align l) low,
      mul_mono (q + n) (g.end / align l) (align l) high,
    )

-- The gaps are not empty, and rounding up their bounds does not overflow.
abbrev pub Shown : ℕ → List Range → Type 0
Shown a = All (λ g. (g.start < g.end) × (g.end + a ≤ 2 ^ 64))

pub gaps-Shown :
    {V : Type 0} (a hi lo : ℕ) (m : List (ℕ × (ℕ × V)))
    → Tiled lo hi m
    → hi + a ≤ 2 ^ 64
    → Shown a (gaps hi lo m)
unfolding gaps
gaps-Shown a hi lo [] t h = ground arith
gaps-Shown a hi lo ((b, (e, v)) ∷ m) t h = ground (arith, gaps-Shown a hi e m t.3 h)

-- Where a range fits at an aligned address, there is a position.
pub total_pos :
    (l : Layout) (q n s e : ℕ) (gs : List Range)
    → l.size ≡ n * align l
    → s ≡ q * align l
    → e ≡ s + l.size
    → Within s e gs
    → 0 < total l gs
unfolding total
total_pos l q n s e [] h a b w = absurd w
total_pos l q n s e (g ∷ gs) h a b (inl w) =
    omega (arith, positions_pos l g q n h (omega arith) (omega arith))
total_pos l q n s e (g ∷ gs) h a b (inr w) = omega (arith, total_pos l q n s e gs h a b w)
