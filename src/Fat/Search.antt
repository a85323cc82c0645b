-- ===== src/Fat/Search.antt =====
-- mizu/lib/afat32/src/table.rs, `find_free` and `allocate`. A sum of cluster numbers that `allocate`
-- forms is at most the end of the table, below the bound of a `u32`.
pub mod Scan
pub mod Batches
pub mod Bounds
pub mod Allocate
pub mod Space
use umi.Base.{
  ℕ, zero, suc, ◌+◌, ◌-◌, ◌%◌, ◌^◌, List, [], ◌∷◌, Bool, true, false, ltb, leb, ◌==◌, if◌then◌else◌,
  Option, none, some, Result, ok, err, ◌>>=◌, min, max,
}
use umi.Fat.Entry.{FatEntry, next, end, is_free}
use umi.Fat.Table.{
  Error, einval, enospc, panicked, device, Io, Fat, allocable_end, reserved_fat_entries, get_range,
  set, set_range,
}

-- `core::ops::Bound`.
pub data Bound : Type 0 where
  included excluded : ℕ → Bound
  unbounded : Bound

unfoldable pub start_of : Fat → Bound → ℕ
start_of f (included bound) = max bound reserved_fat_entries
start_of f (excluded bound) = max ((bound + 1) % 2 ^ 32) reserved_fat_entries
start_of f unbounded = allocable_end f

unfoldable pub end_of : Fat → Bound → ℕ
end_of f (included bound) = min ((bound + 1) % 2 ^ 32) (allocable_end f)
end_of f (excluded bound) = min bound (allocable_end f)
end_of f unbounded = allocable_end f

-- How the loop over the entries of a batch ends: with a result, with `count` and `ret` for the next
-- batch, or in the panic of `unwrap`.
pub data Scanned : Type 0 where
  found more : ℕ → Option ℕ → Scanned

unfoldable pub scan : ℕ → ℕ → Option ℕ → List (ℕ × FatEntry) → Scanned
scan num count ret [] = more count ret
scan num count ret ((cluster, entry) ∷ es) = elim (is_free entry) [
  | true ↦ elim (leb num count) [
    | true ↦ found count ret
    | false ↦ scan num (suc count) (if count == 0 then some cluster else ret) es
  ]
  | false ↦ elim ret [ some cluster ↦ found count (some cluster) | none ↦ scan num count none es ]
]

abbrev pub unwrap_found : ℕ → Option ℕ → Result Error (ℕ × ℕ)
unwrap_found count (some cluster) = ok (cluster, count)
unwrap_found count none = err panicked

abbrev pub after_batch : Scanned → (ℕ → Result Error (ℕ × ℕ)) → Result Error (ℕ × ℕ)
after_batch (found count ret) rest = unwrap_found count ret
after_batch (more count (some cluster)) rest = ok (cluster, count)
after_batch (more count none) rest = rest count

abbrev pub or_enospc {ℓ} : {A : Type ℓ} → Result Error A → Result Error A → Result Error A
or_enospc (ok a) other = ok a
or_enospc (err enospc) other = other
or_enospc (err einval) other = err einval
or_enospc (err panicked) other = err panicked
or_enospc (err (device n)) other = err (device n)

-- `(from..to).map(FatEntry::Next)`, by its length.
unfoldable pub nexts : ℕ → ℕ → List FatEntry
nexts from zero = []
nexts from (suc n) = next from ∷ nexts (suc from) n

abbrev pub allocate_batch_len : ℕ
allocate_batch_len = 1024

unfoldable pub hint_or_start : Option ℕ → ℕ
hint_or_start none = reserved_fat_entries
hint_or_start (some hint) = hint

module _ (io : Io) (f : Fat) where
  -- The batches from `start`, at most as many as the fuel.
  unfoldable pub find_batches :
      ℕ → io.Disk → (num len : ℕ) → (start stop count : ℕ) → Result Error (ℕ × ℕ)
  find_batches zero d num len start stop count = err enospc
  find_batches (suc fuel) d num len start stop count =
      if leb stop start
      then err enospc
      else get_range io f d start (min len (stop - start)) >>= λ es.
          after_batch (scan num count none es)
            (λ count. find_batches fuel d num len (start + len) stop count)

  -- The first cluster and `num`; `step_by` panics on a buffer of length 0.
  unfoldable pub find_free : io.Disk → Bound → Bound → ℕ → ℕ → Result Error (ℕ × ℕ)
  unfolding start_of end_of
  find_free d start_bound end_bound num len =
      let start = start_of f start_bound in
      let stop = end_of f end_bound in
      if len == 0 then err panicked else find_batches (stop - start) d num len start stop 0

  -- The links from a previous cluster and between the clusters, and the end of the chain.
  unfoldable pub set_prev : io.Disk → Option ℕ → ℕ → Result Error io.Disk
  set_prev d none ret = ok d
  set_prev d (some prev) ret = set io f d prev (next ret)

  unfoldable pub set_links : io.Disk → ℕ → ℕ → ℕ → Result Error io.Disk
  set_links d len ret num =
      if ltb 1 num
      then (if ltb len (num - 1)
          then err panicked
          else set_range io f d ret (num - 1) (nexts (ret + 1) (num - 1)))
      else ok d

  -- The device, the first cluster and how many were allocated.
  unfoldable pub allocate : io.Disk → Option ℕ → Option ℕ → ℕ → Result Error (io.Disk × (ℕ × ℕ))
  allocate d prev hint num =
      let start = hint_or_start hint in
      let len = min allocate_batch_len num in
      or_enospc (find_free d (included start) unbounded num len)
        (find_free d unbounded (excluded start) num len)
      >>= λ (ret, num). set_prev d prev ret >>= λ d. set_links d len ret num >>= λ d.
          set io f d (ret + num - 1) end >>= λ d. ok (d, (ret, num))
