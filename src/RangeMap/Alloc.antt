-- ===== src/RangeMap/Alloc.antt =====
-- The search for a free range: `find_gap`, `find_free`, `allocate_with`, and the random placement
-- of `AslrKey` in mizu/lib/range-map/src/lib.rs. A predicate that is `FnMut` takes its state and
-- returns it. `find_free` loops until the predicate decides: `none` says that the rounds were
-- used up.
pub mod Gaps
pub mod Gap
pub mod Positions
pub mod Aslr
mod Tests
use umi.Base.{
  ℕ, zero, suc, ◌+◌, ◌-◌, ◌*◌, ◌/◌, ◌%◌, ◌^◌, ◌≡◌, List, [], ◌∷◌, Bool, true, false, ◌||◌, Option,
  none, some, ltb, leb, ◌==◌, if◌then◌else◌, Run, done, panic,
}
use umi.RangeMap.{Range, RangeMap, Entry, vacant_entry}

pub data FindResult : Type 0 where
  found : Range → FindResult
  next : FindResult
  not_found : FindResult

-- The arms `Next => {}` and `ret => return ret` of a match on the answer of a predicate.
abbrev pub on_next : {S : Type 0} → FindResult × S → (S → FindResult × S) → FindResult × S
on_next (found key, s) rest = (found key, s)
on_next (not_found, s) rest = (not_found, s)
on_next (next, s) rest = rest s

module _ {S : Type 0} (predicate : Option Range → S → FindResult × S) where
  -- The body of the loop over the entries and what follows it; `start` ends the entry before.
  pub gap_loop : {V : Type 0} → ℕ → ℕ → List (ℕ × (ℕ × V)) → S → FindResult × S
  gap_loop hi start [] s =
      on_next
        (if ltb start hi
          then predicate (some (record { start = start; end = hi })) s
          else (next, s))
        (predicate none)
  gap_loop hi start ((base, (end, v)) ∷ m) s =
      on_next
        (if ltb start base
          then predicate (some (record { start = start; end = base })) s
          else (next, s))
        (gap_loop hi end m)

  pub find_gap : {V : Type 0} → RangeMap V → S → FindResult × S
  unfolding gap_loop
  find_gap m = gap_loop m.range.end m.range.start m.map

  pub find_free : {V : Type 0} → ℕ → RangeMap V → S → Option (Option Range × S)
  find_free zero m s = none
  find_free (suc rounds) m s =
      let (result, s') = find_gap m s in
      elim result [
        | found key ↦ some (some key, s')
        | next ↦ find_free rounds m s'
        | not_found ↦ some (none, s')
      ]

  vacant : {V : Type 0} → RangeMap V → Option Range → Run (Option Entry)
  vacant m none = done none
  vacant m (some key) = vacant_entry m key

  pub allocate_with : {V : Type 0} → ℕ → RangeMap V → S → Option (Run (Option Entry))
  unfolding vacant
  allocate_with rounds m s = elim (find_free rounds m s) [
    | none ↦ none
    | some (key, s') ↦ some (vacant m key)
  ]

-- `core::alloc::Layout`, whose alignment is a power of two.
pub record Layout : Type 0 where
  pub size : ℕ
  pub shift : ℕ

abbrev pub align : Layout → ℕ
align l = 2 ^ l.shift

pub record AslrKey (R : Type 0) : Type 0 where
  pub rng : R
  pub retried : Bool
  pub entropy : ℕ
  pub count : ℕ
  pub layout : Layout

-- The generator is of the crate `rand_core`.
module _ {R : Type 0} (next_u64 : R → ℕ × R) where
  pub new : ℕ → R → Layout → AslrKey R
  new aslr_bit rng layout =
      let (value, rng') = next_u64 rng in
      record {
        rng = rng';
        retried = false;
        entropy = value % 2 ^ aslr_bit;
        count = 0;
        layout = layout;
      }

  -- A round has finished.
  round_end : AslrKey R → FindResult × AslrKey R
  round_end k =
      if k.retried || k.count == 0
      then (not_found, k)
      else (let (value, rng') = next_u64 k.rng in
          (next, record k { rng = rng'; retried = true; entropy = value % k.count; count = 0 }))

  -- `base` and `end` are the bounds of the gap at aligned addresses.
  place : AslrKey R → ℕ → ℕ → FindResult × AslrKey R
  place k base end =
      if leb k.layout.size (end - base)
      then (let nr_positions = (end - base - k.layout.size) / align k.layout + 1 in
          let counted = record k { count = (k.count + nr_positions) % 2 ^ 64 } in
          if ltb k.entropy nr_positions
          then (let base' = base + k.entropy * align k.layout in
              (found (record { start = base'; end = base' + k.layout.size }), counted))
          else (next, record counted { entropy = k.entropy - nr_positions }))
      else (next, k)

  pub find_key_usize : Option Range → AslrKey R → FindResult × AslrKey R
  unfolding round_end place
  find_key_usize none k = round_end k
  find_key_usize (some key) k =
      let a = align k.layout in place k ((key.start + (a - 1)) % 2 ^ 64 / a * a) (key.end / a * a)

  pub find_free_with_aslr :
      {V : Type 0} → ℕ → RangeMap V → AslrKey R → Option (Option Range × AslrKey R)
  unfolding find_key_usize
  find_free_with_aslr rounds m k = find_free find_key_usize rounds m k

  pub allocate_with_aslr : {V : Type 0} → ℕ → RangeMap V → AslrKey R → Option (Run (Option Entry))
  unfolding find_key_usize
  allocate_with_aslr rounds m k = allocate_with find_key_usize rounds m k
