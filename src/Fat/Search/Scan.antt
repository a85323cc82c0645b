-- ===== src/Fat/Search/Scan.antt =====
-- A scan finds the first run of free entries.
use umi.Base.{
  ℕ, suc, ◌+◌, ◌≤◌, ◌<◌, ◌≡◌, ◌≢◌, List, [], ◌∷◌, true, false, leb, ◌==◌, if◌then◌else◌, Option,
  none, some, ok, length, arith, refl, Bool-cases, le_or_lt, inl, inr, ◌⊎◌,
}
use umi.Fat.Entry.{FatEntry, free, next, bad, end, is_free}
use umi.Fat.Table.{Io, Fat, get}
use umi.Fat.Search.{Scanned, found, more, scan}

module _ (io : Io) (f : Fat) (d : io.Disk) where
  unfoldable pub AllFree : ℕ → ℕ → Type 0
  AllFree lo hi = (k : ℕ) → lo ≤ k → k < hi → get io f d k ≡ ok free

  unfoldable pub NoneFree : ℕ → ℕ → Type 0
  NoneFree lo hi = (k : ℕ) → lo ≤ k → k < hi → get io f d k ≢ ok free

  -- The first run of free clusters between two bounds, or the start of it.
  unfoldable pub IsRun : (num lo hi c n : ℕ) → Type 0
  IsRun num lo hi c n =
      (lo ≤ c) × (0 < n) × (n ≤ num) × (c + n ≤ hi) × AllFree c (c + n) × NoneFree lo c

  -- A run is as long as it may be, or the cluster behind it is taken.
  unfoldable pub Ends : (num c n : ℕ) → Type 0
  Ends num c n = (n ≡ num) ⊎ (get io f d (c + n) ≢ ok free)

  -- Entries as the table has them, from a cluster on.
  unfoldable pub Shows : ℕ → List (ℕ × FatEntry) → Type 0
  Shows p [] = Unit
  Shows p ((c, e) ∷ es) = (c ≡ p) × (get io f d p ≡ ok e) × Shows (suc p) es

  unfoldable pub IsState : (num lo p count : ℕ) → Option ℕ → Type 0
  IsState num lo p count none = (count ≡ 0) × NoneFree lo p
  IsState num lo p count (some c) = IsRun num lo p c count × (c + count ≡ p)

  unfoldable pub Outcome : (num lo hi : ℕ) → Scanned → Type 0
  Outcome num lo hi (more count ret) = IsState num lo hi count ret
  Outcome num lo hi (found n none) = ⊥
  Outcome num lo hi (found n (some c)) = IsRun num lo hi c n × Ends num c n

  IsState-at :
      {p q : ℕ} (num lo count : ℕ) (ret : Option ℕ)
      → p ≡ q
      → IsState num lo p count ret
      → IsState num lo q count ret
  IsState-at num lo count ret e s = rw (← e) s

  Outcome-at :
      {p q : ℕ} (num lo : ℕ) (s : Scanned) → p ≡ q → Outcome num lo p s → Outcome num lo q s
  Outcome-at num lo s e o = rw (← e) o

  pub IsRun-mono : (num lo p q c n : ℕ) → p ≤ q → IsRun num lo p c n → IsRun num lo q c n
  unfolding IsRun
  IsRun-mono num lo p q c n le (a, b, g, h, all, none_before) =
      (a, b, g, omega arith, all, none_before)

  NoneFree-suc : (lo p : ℕ) → get io f d p ≢ ok free → NoneFree lo p → NoneFree lo (suc p)
  unfolding NoneFree
  NoneFree-suc lo p here before k a b = elim (le_or_lt p k) [
    | inl near ↦ let same : p ≡ k = omega arith in rw (← same) here
    | inr far ↦ before k a far
  ]

  AllFree-suc : (lo p : ℕ) → get io f d p ≡ ok free → AllFree lo p → AllFree lo (suc p)
  unfolding AllFree
  AllFree-suc lo p here before k a b = elim (le_or_lt p k) [
    | inl near ↦ let same : p ≡ k = omega arith in rw (← same) here
    | inr far ↦ before k a far
  ]

  step_free :
      (num lo p count : ℕ) (ret : Option ℕ)
      → lo ≤ p
      → count < num
      → get io f d p ≡ ok free
      → IsState num lo p count ret
      → IsState num lo (suc p) (suc count) (if count == 0 then some p else ret)
  unfolding IsState IsRun AllFree
  step_free num lo p count none le lt here (zeroed, before) =
      let only : AllFree p (suc p) = AllFree-suc p p here (λ k a b. absurd (omega arith)) in
      let first : suc p ≡ p + suc count = omega arith in
      rw zeroed (
        (le, omega arith, omega arith, omega arith, (λ k a b. only k a (omega arith)), before),
        omega arith,
      )
  step_free num lo p count (some c) le lt here ((a, b, g, h, all, before), reached) =
      let longer : AllFree c (suc p) = AllFree-suc c p here (λ k x y. all k x (omega arith)) in
      let positive : (count == 0) ≡ false = ground arith in
      rw positive (
        (a, omega arith, omega arith, omega arith, (λ k x y. longer k x (omega arith)), before),
        omega arith,
      )

  found-Outcome :
      (num lo p m count : ℕ) (ret : Option ℕ)
      → 0 < count
      → IsState num lo p count ret
      → (count ≡ num) ⊎ (get io f d p ≢ ok free)
      → Outcome num lo (p + m) (found count ret)
  unfolding Outcome IsState Ends
  found-Outcome num lo p m count none pos state ends = absurd (omega arith)
  found-Outcome num lo p m count (some c) pos state ends =
      (IsRun-mono num lo p (p + m) c count (omega arith) state.0, rw (state.1) ends)

  is_free-free : (e : FatEntry) → is_free e ≡ true → e ≡ free
  unfolding is_free
  is_free-free free h = refl
  is_free-free (next n) h = absurd (cc)
  is_free-free bad h = absurd (cc)
  is_free-free end h = absurd (cc)

  not_free :
      (p : ℕ) (e : FatEntry) → is_free e ≡ false → get io f d p ≡ ok e → get io f d p ≢ ok free
  unfolding is_free
  not_free p free h g = absurd (cc)
  not_free p (next n) h g = λ q. absurd (cc)
  not_free p bad h g = λ q. absurd (cc)
  not_free p end h g = λ q. absurd (cc)

  full_count :
      (num lo p count : ℕ) (ret : Option ℕ)
      → leb num count ≡ true
      → IsState num lo p count ret
      → 0 < num
      → count ≡ num
  unfolding IsState IsRun
  full_count num lo p count none full state pos = absurd (ground arith)
  full_count num lo p count (some c) full state pos = ground arith

  pub scan_lem :
      (num lo p count : ℕ) (ret : Option ℕ) (es : List (ℕ × FatEntry))
      → 0 < num
      → lo ≤ p
      → Shows p es
      → IsState num lo p count ret
      → Outcome num lo (p + length es) (scan num count ret es)
  unfolding scan Outcome Shows IsState IsRun
  scan_lem num lo p count ret [] pos le shows state =
      IsState-at num lo count ret (omega arith) state
  scan_lem num lo p count ret ((c, e) ∷ es) pos le (here, entry, rest) state =
      let onwards : (n : ℕ) (r : Option ℕ)
          → IsState num lo (suc p) n r
          → Outcome num lo (p + suc (length es)) (scan num n r es) =
        λ n r s.
          Outcome-at {p = suc p + length es} {q = p + suc (length es)} num lo (scan num n r es)
            (omega arith) (scan_lem num lo (suc p) n r es pos (omega arith) rest s) in
      elim (Bool-cases (is_free e)) [
        | inl vacant ↦ elim (Bool-cases (leb num count)) [
          | inl full ↦
              rw (scan, vacant, full)
                (found-Outcome num lo p (suc (length es)) count ret (ground arith) state
                  (inl (full_count num lo p count ret full state pos)))
          | inr room ↦
              rw (scan, vacant, room, here)
                (onwards (suc count) (if count == 0 then some p else ret) (
                  step_free num lo p count ret le (ground arith)
                    (rw (← is_free-free e vacant) entry) state))
        ]
        | inr taken ↦
            rw (scan, taken)
              (elim ret
                  as (λ r.
                    IsState num lo p count r
                    → Outcome num lo (p + suc (length es)) (elim r [
                      | some cluster ↦ found count (some cluster)
                      | none ↦ scan num count none es
                    ])) [
                      | none ↦ λ s.
                          onwards count none (s.0, NoneFree-suc lo p (not_free p e taken entry) s.1)
                      | some q ↦ λ s.
                          found-Outcome num lo p (suc (length es)) count (some q) s.0.1 s
                            (inr (not_free p e taken entry))
                    ]
                state)
      ]
