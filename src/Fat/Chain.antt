-- ===== src/Fat/Chain.antt =====
-- mizu/lib/afat32/src/table.rs: the chains of clusters, their walks, `free` and `truncate`.
pub mod Chains
pub mod Freeing
pub mod Clusters
use umi.Base.{
  ℕ, zero, suc, ◌+◌, ◌-◌, ◌≤◌, ◌<◌, ◌≡◌, List, [], ◌∷◌, ◌++◌, Bool, true, false, ◌==◌, ◌&&◌,
  if◌then◌else◌, Option, none, some, Result, ok, err, ◌>>=◌,
}
use umi.Fat.Entry.{FatEntry, free, next, bad, end}
use umi.Fat.Table.{Error, Io, Fat, get, set, get_range}

unfoldable pub next_of : FatEntry → Option ℕ
next_of free = none
next_of (next n) = some n
next_of bad = none
next_of end = none

abbrev pub transpose : Result Error (Option ℕ) → Option (Result Error ℕ)
transpose (ok none) = none
transpose (ok (some n)) = some (ok n)
transpose (err e) = some (err e)

-- The last of a list, or else the item before it.
abbrev pub last_or : ℕ → List ℕ → ℕ
last_or a [] = a
last_or a (b ∷ l) = last_or b l

-- `last_next != cluster` does not hold.
abbrev pub goes_to : FatEntry → ℕ → Bool
goes_to (next n) cluster = n == cluster
goes_to free cluster = true
goes_to bad cluster = true
goes_to end cluster = true

-- The links out of the entries, as long as each leads to the entry behind it.
unfoldable pub ranged_next : FatEntry → List (ℕ × FatEntry) → List ℕ
ranged_next last [] = []
ranged_next last ((cluster, entry) ∷ es) =
    if goes_to last cluster
    then elim (next_of entry) [ none ↦ [] | some n ↦ n ∷ ranged_next entry es ]
    else []

-- Each cluster with the last one of the consecutive clusters that follow it.
unfoldable pub with_end : ℕ → List (ℕ × ℕ) → ℕ
with_end c [] = c
with_end c ((prev, prev_end) ∷ l) = if c + 1 == prev then prev_end else c

unfoldable pub with_ends : List ℕ → List (ℕ × ℕ)
with_ends [] = []
with_ends (c ∷ cs) = (c, with_end c (with_ends cs)) ∷ with_ends cs

abbrev pub batch_len : ℕ
batch_len = 64

module _ (io : Io) (f : Fat) where
  unfoldable pub iter_next : io.Disk → ℕ → Result Error (Option ℕ)
  iter_next d cluster = get io f d cluster >>= λ e. ok (next_of e)

  -- A poll of the stream `cluster_chain`: the item and the state behind it.
  unfoldable pub cluster_chain :
      io.Disk → Option (Result Error ℕ) → Option (Result Error ℕ × Option (Result Error ℕ))
  cluster_chain d none = none
  cluster_chain d (some (ok cluster)) = some (ok cluster, transpose (iter_next d cluster))
  cluster_chain d (some (err e)) = some (err e, none)

  -- `try_fold` over the stream, for as many polls as the fuel; `none` is that it did not suffice.
  unfoldable pub free_polls :
      ℕ → io.Disk → ℕ → Option (Result Error ℕ) → Result Error (Option (io.Disk × ℕ))
  free_polls zero d acc state = ok none
  free_polls (suc fuel) d acc state = elim (cluster_chain d state) [
    | none ↦ ok (some (d, acc))
    | some (item, state) ↦
        item >>= λ cluster. set io f d cluster free >>= λ d. free_polls fuel d (acc + 1) state
  ]

  -- A poll for each cluster, and the last one.
  unfoldable pub free_chain : io.Disk → ℕ → Result Error (Option (io.Disk × ℕ))
  free_chain d chain_start = free_polls (f.cluster_count + 1) d 0 (some (ok chain_start))

  unfoldable pub free_rest : io.Disk → Option ℕ → Result Error (Option (io.Disk × ℕ))
  free_rest d none = ok (some (d, 0))
  free_rest d (some n) = free_chain d n

  unfoldable pub truncate : io.Disk → ℕ → Result Error (Option (io.Disk × ℕ))
  truncate d chain_start =
      set io f d chain_start end >>= λ d. iter_next d chain_start >>= λ n. free_rest d n

  unfoldable pub iter_ranged_next : io.Disk → ℕ → ℕ → Result Error (List ℕ)
  iter_ranged_next d start len =
      get_range io f d start len >>= λ es. ok (ranged_next (next start) es)

  -- The loop of `all_clusters`, for as many batches as the fuel.
  unfoldable pub collect : ℕ → io.Disk → ℕ → List ℕ → Result Error (Option (List ℕ))
  collect zero d start ret = ok none
  collect (suc fuel) d start ret = iter_ranged_next d start batch_len >>= λ ns. elim ns [
    | [] ↦ ok (some ret)
    | n ∷ rest ↦ collect fuel d (last_or n rest) (ret ++ n ∷ rest)
  ]

  abbrev pub all_ends : Option (List ℕ) → Option (List (ℕ × ℕ))
  all_ends none = none
  all_ends (some cs) = some (with_ends cs)

  -- With as many batches as the table has clusters, which is enough for a chain without a loop.
  unfoldable pub all_clusters : io.Disk → ℕ → Result Error (Option (List (ℕ × ℕ)))
  all_clusters d start =
      collect (f.cluster_count + 1) d start (start ∷ []) >>= λ cs. ok (all_ends cs)
