-- ===== src/Fat/Chain/Freeing.antt =====
-- `free` frees exactly the clusters of a chain; `truncate` frees none.
use umi.Base.{
  ℕ, zero, suc, ◌+◌, ◌<◌, ◌≡◌, refl, ◌∙◌, List, [], ◌∷◌, true, false, ◌==◌, if◌then◌else◌, some, ok,
  length, arith, inl, inr, Bool-cases,
}
use umi.Fat.Entry.{FatEntry, free, next, end, IsEntry}
use umi.Fat.Table.{Io, Fat, get}
use umi.Fat.Table.Cells.{IsTable, IsCluster}
use umi.Fat.Table.Updates.{Agree, get-set}
use umi.Fat.Table.Success.{Writable, set_ok}
use umi.Fat.Chain.{next_of, cluster_chain, iter_next, free_polls, free_chain, free_rest, truncate}
use umi.Fat.Chain.Chains.{elem, Distinct, IsChain, IsChain-same, IsChain-Among, length-Distinct}

pub elem-apart : (c k : ℕ) (cs : List ℕ) → elem c cs ≡ false → elem k cs ≡ true → (c == k) ≡ false
elem-apart c k cs out member = elim (Bool-cases (c == k)) [
  | inl eq ↦ let same : c ≡ k = ground arith in absurd (cc)
  | inr ne ↦ ne
]

module _ (io : Io) (f : Fat) (t : IsTable f) where
  -- The clusters are free, and nothing else changed.
  unfoldable pub Freed : io.Disk → io.Disk → List ℕ → Type 0
  Freed d e cs =
      ((k : ℕ) → IsCluster f k → get io f e k ≡ (if elem k cs then ok free else get io f d k))
      × (Agree io f t d → Agree io f t e)

  free_polls_lem :
      (fuel : ℕ) (d : io.Disk) (acc c : ℕ) (cs : List ℕ)
      → Writable io f t
      → Distinct (c ∷ cs)
      → IsChain io f d (c ∷ cs)
      → length (c ∷ cs) < fuel
      → (e : io.Disk) × (free_polls io f fuel d acc (some (ok c))
          ≡ ok (some (e, acc + length (c ∷ cs))))
        × Freed d e (c ∷ cs)
  unfolding free_polls cluster_chain iter_next Distinct IsChain Freed elem IsEntry next_of
  free_polls_lem zero d acc c cs ws u h enough = absurd (omega arith)
  free_polls_lem (suc zero) d acc c cs ws u h enough = absurd (omega arith)
  free_polls_lem (suc (suc fuel)) d acc c [] ws u (hc, (entry, got, stop)) enough =
      let (e, done_set) = set_ok io f t d c free entry ws hc got in
      let (cells, agree) = get-set io f t d e c free hc tt done_set in
      (e, rw (got, stop, done_set) refl, ((λ k hk. cells k hk ∙ ground arith), agree))
  free_polls_lem (suc (suc fuel)) d acc c (n ∷ cs) ws u (hc, got, rest) enough =
      let (d1, done_set) = set_ok io f t d c free (next n) ws hc got in
      let (cells, agree) = get-set io f t d d1 c free hc tt done_set in
      let still : IsChain io f d1 (n ∷ cs) =
        IsChain-same io f d d1 (n ∷ cs)
          (λ k member hk. cells k hk ∙ rw (elem-apart c k (n ∷ cs) u.0 member) refl) rest in
      let (e, polled, (freed, agrees)) =
        free_polls_lem (suc fuel) d1 (acc + 1) n cs ws u.1 still (omega arith) in
      let sum : acc + 1 + length (n ∷ cs) ≡ acc + length (c ∷ n ∷ cs) = omega arith in
      (
        e,
        rw (got, done_set, polled, sum) refl,
        ((λ k hk. freed k hk ∙ rw (cells k hk) (ground arith)), λ a. agrees (agree a)),
      )

  -- On a table that can be written, the freeing of a chain of distinct clusters ends within one
  -- poll more than the table has clusters; it counts the clusters of the chain, their entries are
  -- free, every other entry is what it was, and copies of the table that were equal still are.
  pub free_chain_lem :
      (d : io.Disk) (c : ℕ) (cs : List ℕ)
      → Writable io f t
      → Distinct (c ∷ cs)
      → IsChain io f d (c ∷ cs)
      → (e : io.Disk) × (free_chain io f d c ≡ ok (some (e, length (c ∷ cs)))) × Freed d e (c ∷ cs)
  unfolding free_chain
  free_chain_lem d c cs ws u h =
      let short = length-Distinct 2 f.cluster_count (c ∷ cs) (IsChain-Among io f d (c ∷ cs) h) u in
      let from_zero : 0 + length (c ∷ cs) ≡ length (c ∷ cs) = omega arith in
      let (e, polled, freed) = free_polls_lem (f.cluster_count + 1) d 0 c cs ws u h (omega arith) in
      (e, rw polled (rw from_zero refl), freed)

  -- On a table that can be written, `truncate` marks the first cluster as the end of its chain and
  -- returns 0; every other entry, those of the rest of the chain included, is what it was.
  pub truncate_lem :
      (d : io.Disk) (c : ℕ) (old : FatEntry)
      → Writable io f t
      → IsCluster f c
      → get io f d c ≡ ok old
      → (e : io.Disk) × (truncate io f d c ≡ ok (some (e, 0)))
        × ((k : ℕ) → IsCluster f k → get io f e k ≡ (if c == k then ok end else get io f d k))
  unfolding truncate iter_next free_rest IsEntry next_of
  truncate_lem d c old ws hc got =
      let (e, done_set) = set_ok io f t d c end old ws hc got in
      let (cells, agree) = get-set io f t d e c end hc tt done_set in
      let ended : get io f e c ≡ ok end = cells c hc ∙ ground arith in
      (e, rw (done_set, ended) refl, cells)
