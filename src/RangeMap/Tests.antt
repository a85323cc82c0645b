-- ===== src/RangeMap/Tests.antt =====
-- Runs of the range map on a map of two entries.
use umi.Base.{ℕ, ◌≡◌, refl, List, [], ◌∷◌, ◌++◌, none, some, arith, select, map}
use umi.RangeMap.{
  Range, RangeMap, SplitEntry, try_insert, drain, split_entry, set_former, set_latter, drop_split,
  item,
}
use umi.RangeMap.Tiling.{IsTiled}
use umi.RangeMap.Insert.{Fits, try_insert-IsTiled}
use umi.RangeMap.Query.{contained}
use umi.RangeMap.Drain.{left, drain_lem}
use umi.RangeMap.Split.{Around, split_entry-drop_split}
use umi.BTree

abbrev example : RangeMap ℕ
example = record {
  range = record { start = 10; end = 100 };
  map = (20, (30, 7)) ∷ (40, (60, 8)) ∷ [];
}

abbrev between : ℕ → ℕ → Range
between start end = record { start = start; end = end }

example-IsTiled : IsTiled example
example-IsTiled = ground arith

free-Fits : Fits example (between 60 70)
free-Fits = record {
  proper = omega arith;
  above = omega arith;
  below = omega arith;
  free = ground arith;
}

taken_misfit : ¬ Fits example (between 50 70)
taken_misfit f = ground (arith, f.free)

try_insert-IsTiled_example : IsTiled (try_insert example (between 60 70) 9).0
try_insert-IsTiled_example = try_insert-IsTiled example (between 60 70) 9 example-IsTiled

drain_lem_example : drain example (between 15 50) ≡ (
  record example { map = select (left (between 15 50)) example.map },
  map item (select (contained (between 15 50)) example.map),
)
drain_lem_example = drain_lem example (between 15 50) example-IsTiled

abbrev cut : SplitEntry ℕ
cut = record { split_key = 50; key = between 40 60; former = none; latter = none }

abbrev after_cut : RangeMap ℕ
after_cut = record example { map = (20, (30, 7)) ∷ [] }

cut_run : split_entry example 50 ≡ (after_cut, some (8, cut))
unfolding split_entry BTree.append
cut_run = refl

split_entry-drop_split_example :
    (s e : ℕ) × (former latter : List (ℕ × (ℕ × ℕ))) × Around example.map 50 s e 8 former latter
    × (drop_split after_cut (set_latter (set_former cut 1) 2)
        ≡ record example { map = former ++ (s, (50, 1)) ∷ (50, (e, 2)) ∷ latter })
    × IsTiled (drop_split after_cut (set_latter (set_former cut 1) 2))
split_entry-drop_split_example =
    split_entry-drop_split example after_cut 50 8 1 2 cut example-IsTiled cut_run
