-- ===== src/RangeMap/Alloc/Tests.antt =====
-- Runs of the searches for a free range on a map of two entries.
use umi.Base.{
  ℕ, suc, ◌+◌, ◌-◌, ◌*◌, ◌/◌, ◌==◌, ◌%◌, ◌^◌, ◌≡◌, ◌⊎◌, refl, [], ◌∷◌, Option, none, some, ltb,
  if◌then◌else◌, arith, done,
}
use umi.BTree
use umi.RangeMap.{Range, RangeMap, vacant_entry}
use umi.RangeMap.Tiling.{IsTiled}
use umi.RangeMap.Insert.{Fits}
use umi.RangeMap.Alloc.{
  FindResult, found, next, Layout, AslrKey, align, new, find_free, find_gap, find_free_with_aslr,
  allocate_with,
}
use umi.RangeMap.Alloc.Aslr.{find_free_with_aslr_lem}

abbrev spread : RangeMap ℕ
spread = record {
  range = record { start = 10; end = 100 };
  map = (20, (30, 7)) ∷ (40, (60, 8)) ∷ [];
}

abbrev span : ℕ → ℕ → Range
span start end = record { start = start; end = end }

spread-IsTiled : IsTiled spread
spread-IsTiled = ground arith

-- A generator of random numbers.
abbrev next_u64 : ℕ → ℕ × ℕ
next_u64 seed = let r = (seed * 6364136223846793005 + 1442695040888963407) % 2 ^ 64 in (r, r)

abbrev layout : Layout
layout = record { size = 8; shift = 3 }

find_free_with_aslr_lem_example :
    ((key : Range) × (k' : AslrKey ℕ) × (find_free_with_aslr next_u64 2 spread
          (new next_u64 4 1 layout)
        ≡ some (some key, k'))
      × Fits spread key
      × (key.end ≡ key.start + 8)
      × ((q : ℕ) × (key.start ≡ q * align layout)))
    ⊎ ((k' : AslrKey ℕ) × (find_free_with_aslr next_u64 2 spread (new next_u64 4 1 layout)
          ≡ some (none, k'))
        × ((n q : ℕ) (key : Range)
            → 8 ≡ n * align layout
            → Fits spread key
            → key.end ≡ key.start + 8
            → key.start ≡ q * align layout
            → ⊥))
find_free_with_aslr_lem_example =
    find_free_with_aslr_lem next_u64 spread layout spread-IsTiled (omega arith) (omega arith) 4 1

-- The predicate of a search for the first gap that is longer than its state says; at the end of a
-- round it asks for half of that.
first_fit : Option Range → ℕ → FindResult × ℕ
first_fit none n = if n == 0 then (FindResult.not_found, n) else (next, n / 2)
first_fit (some g) n =
    if ltb n (g.end - g.start) then (found (span g.start (g.start + suc n)), n) else (next, n)

-- The second round finds a place of 26 addresses.
placed_run :
    allocate_with first_fit 51 spread 50 ≡ some (done (some (record { start = 60; end = 86 })))
unfolding allocate_with first_fit find_free find_gap vacant_entry BTree.get
placed_run = refl
