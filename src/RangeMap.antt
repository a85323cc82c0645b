-- ===== src/RangeMap.antt =====
-- mizu/lib/range-map/src/lib.rs: a map from disjoint ranges of a root range to values, kept in a
-- `BTreeMap` from the start of a range to its end and its value. Keys are the numbers of a `usize`.
pub mod Tiling
pub mod Insert
pub mod Query
pub mod Drain
pub mod Split
pub mod Alloc
mod Tests
use umi.Base.{
  ℕ, suc, ◌+◌, ◌-◌, List, [], ◌∷◌, Bool, true, false, not, ◌&&◌, ◌||◌, Option, none, some, ltb, leb,
  if◌then◌else◌, take_while, last?, init, length, map, Result, ok, err, Run, done, panic, zero,
  ◌==◌,
}
use umi.BTree
use mathlib.Core.List.{reverse}
use mathlib.Core.Option

-- `core::ops::Range`.
pub record Range : Type 0 where
  pub start : ℕ
  pub end : ℕ

pub record RangeMap {ℓ} (V : Type ℓ) : Type ℓ where
  pub range : Range
  pub map : List (ℕ × (ℕ × V))

-- A vacant entry: the key at which `insert` puts a value.
pub record Entry : Type 0 where
  pub start : ℕ
  pub end : ℕ

module _ {ℓ} {V : Type ℓ} where
  pub new : Range → RangeMap V
  new range = record { range = range; map = [] }

  pub len : RangeMap V → ℕ
  len m = length m.map

  pub is_empty : RangeMap V → Bool
  is_empty m = elim m.map [ [] ↦ true | _ ∷ _ ↦ false ]

  -- The pair of a key and a value, as the iterators yield it.
  abbrev pub item : ℕ × (ℕ × V) → Range × V
  item (start, (end, value)) = (record { start = start; end = end }, value)

  -- Is the last entry below `key.end` in the way of `key`?
  pub prev_overlaps : Range → Option (ℕ × (ℕ × V)) → Bool
  prev_overlaps key none = false
  prev_overlaps key (some (start, (prev_end, value))) = ltb key.start prev_end

  pub try_insert : RangeMap V → Range → V → RangeMap V × Result V (Unit {0})
  unfolding prev_overlaps
  try_insert m key value =
      if leb key.end key.start
      then (m, err value)
      else if not (leb m.range.start key.start && leb key.end m.range.end)
      then (m, err value)
      else if prev_overlaps key (last? (BTree.range_to key.end m.map))
      then (m, err value)
      else (record m { map = BTree.insert key.start (key.end, value) m.map }, ok tt)

  -- `map.entry(start)`, of which the code takes the vacant case only.
  pub vacant_entry : RangeMap V → Range → Run (Option Entry)
  vacant_entry m key = elim (BTree.get key.start m.map) [
    | none ↦ done (some (record { start = key.start; end = key.end }))
    | some _ ↦ panic
  ]

  pub try_entry : RangeMap V → Range → Run (Option Entry)
  unfolding prev_overlaps vacant_entry
  try_entry m key =
      if leb key.end key.start
      then done none
      else if not (leb m.range.start key.start && leb key.end m.range.end)
      then done none
      else if prev_overlaps key (last? (BTree.range_to key.end m.map))
      then done none
      else vacant_entry m key

  pub entry_insert : RangeMap V → Entry → V → RangeMap V
  entry_insert m entry value = record m { map = BTree.insert entry.start (entry.end, value) m.map }

  pub get : RangeMap V → ℕ → Option V
  get m start = Option.map (λ e. e.1) (BTree.get start m.map)

  pub get_key_value : RangeMap V → ℕ → Option (Range × V)
  get_key_value m start = Option.map (λ e. item (start, e)) (BTree.get start m.map)

  pub remove : RangeMap V → ℕ → RangeMap V × Option V
  remove m start =
      (record m { map = BTree.remove start m.map }, Option.map (λ e. e.1) (BTree.get start m.map))

  pub remove_entry : RangeMap V → ℕ → RangeMap V × Option (Range × V)
  remove_entry m start = (
    record m { map = BTree.remove start m.map },
    Option.map (λ e. item (start, e)) (BTree.get start m.map),
  )

  pub iter : RangeMap V → List (Range × V)
  iter m = map item m.map

  -- The entries that lie in the range.
  pub range : RangeMap V → Range → List (Range × V)
  range m r = map item (take_while (λ e. leb e.1.0 r.end) (BTree.range_from r.start m.map))

  -- The entries that meet the range, from its end.
  pub intersection : RangeMap V → Range → List (Range × V)
  intersection m r =
      map item (take_while (λ e. ltb r.start e.1.0) (reverse (BTree.range_to r.end m.map)))

  pub intersects : RangeMap V → Range → Bool
  intersects m r = elim (intersection m r) [ [] ↦ false | _ ∷ _ ↦ true ]

  -- `drain`: what is put back of the cut, and what is returned, by the last entry of the cut.
  pub put_back :
      Range
      → List (ℕ × (ℕ × V))
      → List (ℕ × (ℕ × V))
      → Option (ℕ × (ℕ × V))
      → List (ℕ × (ℕ × V)) × List (ℕ × (ℕ × V))
  put_back r kept cut none = (kept, cut)
  put_back r kept cut (some (start, (end, value))) =
      if ltb r.end end then (BTree.insert start (end, value) kept, init cut) else (kept, cut)

  pub drain : RangeMap V → Range → RangeMap V × List (Range × V)
  unfolding put_back
  drain m r =
      let tail = BTree.range_from r.start m.map in
      let suffix = BTree.range_from r.end tail in
      let cut = BTree.range_to r.end tail in
      let (kept, removed) = put_back r (BTree.range_to r.start m.map) cut (last? cut) in
      (record m { map = BTree.append kept suffix }, map item removed)

-- The entry that `split_entry` took out, and the values for its two parts.
pub record SplitEntry {ℓ} (V : Type ℓ) : Type ℓ where
  pub split_key : ℕ
  pub key : Range
  pub former : Option V
  pub latter : Option V

module _ {ℓ} {V : Type ℓ} where
  -- By the last entry below the key, and the entries from the key on.
  split_last :
      RangeMap V
      → ℕ
      → List (ℕ × (ℕ × V))
      → Option (ℕ × (ℕ × V))
      → List (ℕ × (ℕ × V))
      → RangeMap V × Option (V × SplitEntry V)
  split_last m key prefix none suffix = (record m { map = BTree.append prefix suffix }, none)
  split_last m key prefix (some (start, (end, value))) suffix =
      if ltb start key && ltb key end
      then (
        record m { map = BTree.append (init prefix) suffix },
        some (
          value,
          record {
            split_key = key;
            key = record { start = start; end = end };
            former = none;
            latter = none;
          },
        ),
      )
      else (record m { map = BTree.append prefix suffix }, none)

  pub split_entry : RangeMap V → ℕ → RangeMap V × Option (V × SplitEntry V)
  unfolding split_last
  split_entry m key =
      let prefix = BTree.range_to key m.map in
      split_last m key prefix (last? prefix) (BTree.range_from key m.map)

  pub set_former : SplitEntry V → V → SplitEntry V
  set_former e value = record e { former = some value }

  pub set_latter : SplitEntry V → V → SplitEntry V
  set_latter e value = record e { latter = some value }

  insert_some : ℕ → ℕ → Option V → List (ℕ × (ℕ × V)) → List (ℕ × (ℕ × V))
  insert_some start end none m = m
  insert_some start end (some v) m = BTree.insert start (end, v) m

  -- `Drop for SplitEntry`.
  pub drop_split : RangeMap V → SplitEntry V → RangeMap V
  unfolding insert_some
  drop_split m e = record m {
    map =
        insert_some e.split_key e.key.end e.latter
          (insert_some e.key.start e.split_key e.former m.map);
  }
