-- ===== src/Fat/Chain/Clusters.antt =====
-- `all_clusters`, which reads the table in batches, lists the clusters of the chain, each with the
-- end of its run of consecutive clusters.
use umi.Base.{
  ℕ, zero, suc, ◌+◌, ◌-◌, ◌%◌, ◌^◌, ◌<◌, ◌≡◌, ◌≢◌, refl, sym, ap, ◌∙◌, List, [], ◌∷◌, ◌++◌, false,
  ◌==◌, none, some, ok, length, arith, inl, inr, Bool-cases, append_assoc, append-nil, map,
  get_elem?, min, list_cases, leb, subst, length-append,
}
use native.Mathlib.Decide.{ℕ_discrete}
use umi.Fat.Entry.{FatEntry, next}
use umi.Fat.Table.{Io, Fat, get, get_range, get_range_raw}
use umi.Fat.Table.Cells.{IsTable, IsCluster, allocable_end_lem}
use umi.Fat.Search.Scan.{Shows}
use umi.Fat.Search.Batches.{Readable, get_range-Shows}
use umi.Fat.Chain.{
  next_of, last_or, ranged_next, with_end, with_ends, batch_len, iter_ranged_next, collect,
  all_clusters,
}
use umi.Fat.Chain.Chains.{Distinct, IsChain, IsChain-Among, length-Distinct}

module _ (io : Io) (f : Fat) where
  -- A part of the chain behind a cluster, and the chain from its last cluster on.
  Followed : (d : io.Disk) (c p : ℕ) (es : List (ℕ × FatEntry)) (cs ns rest : List ℕ) → Type 0
  Followed d c p es cs ns rest =
      (cs ≡ ns ++ rest)
      × IsChain io f d (last_or c ns ∷ rest)
      × (c ≡ p → 0 < length es → 0 < length cs → 0 < length ns)

  ranged_lem :
      (d : io.Disk) (c p : ℕ) (es : List (ℕ × FatEntry)) (cs : List ℕ)
      → Shows io f d p es
      → IsChain io f d (c ∷ cs)
      → (ns rest : List ℕ) × (ranged_next (next c) es ≡ ns) × Followed d c p es cs ns rest
  unfolding ranged_next Followed Shows IsChain next_of
  ranged_lem d c p [] cs shows h = ([], cs, refl, (refl, h, λ a b g. b))
  ranged_lem d c p ((q, e) ∷ es) [] (here, got, more) (hc, (entry, found, stop)) =
      let ended : c ≡ p → next_of e ≡ none = λ at.
        let same : ok e ≡ ok entry = sym got ∙ ap (get io f d) (sym at) ∙ found in
        let alike : e ≡ entry = cc in rw alike stop in
      ([], [], ground (arith, ended), (refl, (hc, (entry, found, stop)), λ a b g. g))
  ranged_lem d c p ((q, e) ∷ es) (n ∷ cs) (here, got, more) (hc, found, chain) =
      elim (Bool-cases (c == q)) [
        | inl reached ↦
            let at : c ≡ p = ground arith in
            let same : ok e ≡ ok (next n) = sym got ∙ ap (get io f d) (sym at) ∙ found in
            let alike : e ≡ next n = cc in
            let (ns, rest, listed, (split, chain_on, some_left)) =
              ranged_lem d n (suc p) es cs more chain in
            (
              n ∷ ns,
              rest,
              rw (reached, alike) (ap (λ l. n ∷ l) (ap (λ x. ranged_next x es) alike ∙ listed)),
              (ap (λ l. n ∷ l) split, chain_on, λ a b g. omega arith),
            )
        | inr apart ↦
            ([], n ∷ cs, rw apart refl, (refl, (hc, found, chain), λ a b g. absurd (ground arith)))
      ]

  module _ (t : IsTable f) where
    clamped :
        (d : io.Disk) (start : ℕ)
        → IsCluster f start
        → get_range io f d start batch_len
          ≡ get_range io f d start (min batch_len (f.cluster_count + 2 - start))
    unfolding get_range get_range_raw IsTable
    clamped d start h =
        let size = min batch_len (f.cluster_count + 2 - start) in
        let stop : min ((start + batch_len) % 2 ^ 32) (f.cluster_count + 2)
            ≡ min ((start + size) % 2 ^ 32) (f.cluster_count + 2) =
          omega arith in
        let fits : leb (2 ^ 32) size ≡ false = ground arith in
        rw (allocable_end_lem f t, stop, fits) refl

    pub collect_lem :
        (fuel : ℕ) (d : io.Disk) (c : ℕ) (cs ret : List ℕ)
        → Readable io f t d
        → IsChain io f d (c ∷ cs)
        → length cs < fuel
        → collect io f fuel d c ret ≡ ok (some (ret ++ cs))
    unfolding collect iter_ranged_next Followed IsTable
    collect_lem zero d c cs ret r h enough = absurd (omega arith)
    collect_lem (suc fuel) d c cs ret r h enough =
        let (lo, hi, among) = IsChain-Among io f d (c ∷ cs) h in
        let size = min batch_len (f.cluster_count + 2 - c) in
        let (es, got, shows, len) = get_range-Shows io f t d c size r lo (omega arith) in
        let read : get_range io f d c batch_len ≡ ok es = clamped d c (omega arith) ∙ got in
        let (ns, rest, listed, (split, chain_on, some_left)) = ranged_lem d c c es cs shows h in
        elim (list_cases ns) [
          | inl stopped ↦
              let none_left : length cs ≡ 0 = ground (arith, some_left refl) in
              elim (list_cases cs) [
                | inl empty ↦ rw (read, listed, stopped, empty, append-nil ret) refl
                | inr (x, xs, full) ↦ absurd (ground (arith, none_left, full))
              ]
          | inr (n, more, batch) ↦
              let parts : cs ≡ (n ∷ more) ++ rest = split ∙ ap (λ l. l ++ rest) batch in
              let onward : IsChain io f d (last_or n more ∷ rest) =
                subst (λ l. IsChain io f d (last_or c l ∷ rest)) batch chain_on in
              let shorter : length cs ≡ length (n ∷ more) + length rest =
                ap length parts ∙ length-append (n ∷ more) rest in
              rw (read, listed, batch, parts)
                (collect_lem fuel d (last_or n more) rest (ret ++ n ∷ more) r onward (omega arith)
                  ∙ ap (λ l. ok (some l)) (append_assoc ret (n ∷ more) rest))
        ]

    -- On a table that can be read, `all_clusters`, which reads the table in batches, returns for
    -- the start of a chain of distinct clusters exactly the clusters of the chain in order, each
    -- with its end.
    pub all_clusters_lem :
        (d : io.Disk) (c : ℕ) (cs : List ℕ)
        → Readable io f t d
        → IsChain io f d (c ∷ cs)
        → Distinct (c ∷ cs)
        → all_clusters io f d c ≡ ok (some (with_ends (c ∷ cs)))
    unfolding all_clusters
    all_clusters_lem d c cs r h u =
        let short =
          length-Distinct 2 f.cluster_count (c ∷ cs) (IsChain-Among io f d (c ∷ cs) h) u in
        rw (collect_lem (f.cluster_count + 1) d c cs (c ∷ []) r h (omega arith)) refl

longer_run :
    (c n k : ℕ) (cs : List ℕ)
    → c + 1 ≡ n
    → ((i : ℕ) → i < k → get_elem? cs i ≡ some (suc (n + i)))
    → (i : ℕ) → i < suc k
    → get_elem? (n ∷ cs) i ≡ some (suc (c + i))
longer_run c n k cs behind run zero h = ap some (omega arith)
longer_run c n k cs behind run (suc i) h = run i (omega arith) ∙ ap some (omega arith)

-- `with_ends` keeps the clusters in order, and the end of the first is the last cluster of the
-- longest run of consecutive numbers that the list starts with.
pub with_ends_lem :
    (c : ℕ) (cs : List ℕ)
    → (map (λ e. e.0) (with_ends (c ∷ cs)) ≡ c ∷ cs)
      × ((k : ℕ) × (get_elem? (with_ends (c ∷ cs)) 0 ≡ some (c, c + k))
          × ((i : ℕ) → i < k → get_elem? cs i ≡ some (suc (c + i)))
          × (get_elem? cs k ≢ some (suc (c + k))))
unfolding with_ends with_end
with_ends_lem c [] = (refl, (0, ground arith, (λ i h. absurd (omega arith)), λ h. absurd (cc)))
with_ends_lem c (n ∷ cs) =
    let (keys, (k, first, run, stop)) = with_ends_lem n cs in
    let front : with_end n (with_ends cs) ≡ n + k = cc in
    let all : c ∷ map (λ e. e.0) (with_ends (n ∷ cs)) ≡ c ∷ n ∷ cs = ap (λ l. c ∷ l) keys in
    elim (ℕ_discrete (c + 1) n) [
      | yes behind ↦ (
        all,
        (
          suc k,
          rw front (ground arith),
          longer_run c n k cs behind run,
          λ h. stop (h ∙ ground arith),
        ),
      )
      | no apart ↦ (
        all,
        (
          0,
          rw front (ground arith),
          (λ i h. absurd (omega arith)),
          λ h. let same : n ≡ suc (c + 0) = cc in apart (omega arith),
        ),
      )
    ]
