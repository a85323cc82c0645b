-- ===== src/Fat/Volume/Counts.antt =====
-- The count of free clusters stays that of the table.
use umi.Base.{
  ℕ, zero, suc, ◌+◌, ◌-◌, ◌≤◌, ◌≡◌, refl, sym, ap, ◌∙◌, Bool, true, false, ltb, leb, ◌&&◌, ◌||◌,
  if◌then◌else◌, ok, arith, min, max, Bool-cases, inl, inr,
}
use umi.Fat.Entry.{FatEntry, is_free}
use umi.Fat.Table.{Io, Fat, get, count_from, count_free, unwrap, allocable_end}
use umi.Fat.Table.Cells.{IsTable, IsCluster, allocable_end_lem}

-- The clusters of a run.
abbrev pub in_run : ℕ → ℕ → ℕ → Bool
in_run ret n k = leb ret k && ltb k (ret + n)

module _ (io : Io) (f : Fat) (t : IsTable f) where
  -- The free clusters of the first table are those of the second and the run.
  unfoldable pub Fewer : (d e : io.Disk) (ret n : ℕ) → Type 0
  Fewer d e ret n =
      (k : ℕ)
      → IsCluster f k
      → (a b : FatEntry) × (get io f d k ≡ ok a)
        × (get io f e k ≡ ok b)
        × (is_free a ≡ (in_run ret n k || is_free b))
        × (in_run ret n k ≡ true → is_free b ≡ false)

  count_from_lem :
      (d e : io.Disk) (ret n k m : ℕ)
      → Fewer d e ret n
      → 2 ≤ k
      → k + m ≤ f.cluster_count + 2
      → (x y : ℕ) × (count_from io f d k m ≡ ok x)
        × (count_from io f e k m ≡ ok y)
        × (x ≡ y + (min (k + m) (ret + n) - max k ret))
  unfolding count_from unwrap Fewer
  count_from_lem d e ret n k zero fewer lo hi = (0, 0, refl, refl, omega arith)
  count_from_lem d e ret n k (suc m) fewer lo hi =
      let (a, b, at_d, at_e, here, off) = fewer k (omega arith) in
      let (x, y, rest_d, rest_e, sum) =
        count_from_lem d e ret n (suc k) m fewer (omega arith) (omega arith) in
      (
        if is_free a then suc x else x,
        if is_free b then suc y else y,
        rw (at_d, rest_d) refl,
        rw (at_e, rest_e) refl,
        elim (Bool-cases (in_run ret n k)) [
          | inl inside ↦
              let was_free : is_free a ≡ true = rw (inside) at here in
              rw (was_free, off inside) (ground (arith, inside))
          | inr outside ↦
              let alike : is_free a ≡ is_free b = rw (outside) at here in
              let apart : min (k + suc m) (ret + n) - max k ret
                  ≡ min (suc k + m) (ret + n) - max (suc k) ret =
                ground (arith, outside) in
              rw (alike, apart) (ground (arith, sum))
        ],
      )

  -- Where the tables before and after can be read, the count is less by the run.
  pub count_free_lem :
      (d e : io.Disk) (ret n x : ℕ)
      → Fewer d e ret n
      → 2 ≤ ret
      → ret + n ≤ f.cluster_count + 2
      → count_free io f d ≡ ok x
      → (y : ℕ) × (count_free io f e ≡ ok y) × (x ≡ y + n)
  unfolding count_free
  count_free_lem d e ret n x fewer lo hi counted =
      let bound : allocable_end f - 2 ≡ f.cluster_count = omega (arith, allocable_end_lem f t) in
      let (a, y, at_d, at_e, sum) =
        count_from_lem d e ret n 2 f.cluster_count fewer (omega arith) (omega arith) in
      let same : ok a ≡ ok x = sym at_d ∙ ap (count_from io f d 2) (sym bound) ∙ counted in
      let equal : a ≡ x = cc in (y, ap (count_from io f e 2) bound ∙ at_e, omega arith)
