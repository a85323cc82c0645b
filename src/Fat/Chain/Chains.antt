-- ===== src/Fat/Chain/Chains.antt =====
-- Chains of distinct clusters: what a change of other entries leaves, and how long a chain can be.
use umi.Base.{
  ℕ, zero, suc, ◌+◌, ◌≤◌, ◌<◌, ◌≡◌, refl, ◌∙◌, List, [], ◌∷◌, Bool, true, false, ◌||◌, ◌==◌,
  if◌then◌else◌, none, ok, length, arith,
}
use umi.Fat.Entry.{FatEntry, next}
use umi.Fat.Table.{Io, Fat, get}
use umi.Fat.Table.Cells.{IsCluster}
use umi.Fat.Chain.{next_of}

unfoldable pub elem : ℕ → List ℕ → Bool
elem k [] = false
elem k (c ∷ cs) = c == k || elem k cs

unfoldable pub Distinct : List ℕ → Type 0
Distinct [] = Unit
Distinct (c ∷ cs) = (elem c cs ≡ false) × Distinct cs

abbrev pub Among : ℕ → ℕ → List ℕ → Type 0
Among lo n [] = Unit
Among lo n (c ∷ cs) = (lo ≤ c) × (c < lo + n) × Among lo n cs

others : ℕ → List ℕ → List ℕ
others m [] = []
others m (c ∷ cs) = if c == m then others m cs else c ∷ others m cs

elem-others : (k m : ℕ) (cs : List ℕ) → elem k cs ≡ false → elem k (others m cs) ≡ false
unfolding elem others
elem-others k m [] h = refl
elem-others k m (c ∷ cs) h = ground (arith, elem-others k m cs)

others-Distinct : (m : ℕ) (cs : List ℕ) → Distinct cs → Distinct (others m cs)
unfolding others Distinct
others-Distinct m [] u = tt
others-Distinct m (c ∷ cs) u = ground (arith, others-Distinct m cs u.1, elem-others c m cs u.0)

others_none : (m : ℕ) (cs : List ℕ) → elem m cs ≡ false → others m cs ≡ cs
unfolding elem others
others_none m [] h = refl
others_none m (c ∷ cs) h = ground (arith, others_none m cs)

length-others : (m : ℕ) (cs : List ℕ) → Distinct cs → length cs ≤ suc (length (others m cs))
unfolding others Distinct
length-others m [] u = omega arith
length-others m (c ∷ cs) u = ground (arith, length-others m cs u.1, others_none m cs)

others-Among : (lo n : ℕ) (cs : List ℕ) → Among lo (suc n) cs → Among lo n (others (lo + n) cs)
unfolding others
others-Among lo n [] a = tt
others-Among lo n (c ∷ cs) a = ground (arith, others-Among lo n cs a.2)

-- Distinct numbers of a range are at most as many as it has.
pub length-Distinct : (lo n : ℕ) (cs : List ℕ) → Among lo n cs → Distinct cs → length cs ≤ n
length-Distinct lo zero [] a u = omega arith
length-Distinct lo zero (c ∷ cs) a u = absurd (omega arith)
length-Distinct lo (suc n) cs a u = omega (
  arith,
  length-others (lo + n) cs u,
  length-Distinct lo n (others (lo + n) cs) (others-Among lo n cs a)
      (others-Distinct (lo + n) cs u),
)

module _ (io : Io) (f : Fat) where
  -- Clusters that link each to the next, the last to none.
  unfoldable pub IsChain : io.Disk → List ℕ → Type 0
  IsChain d [] = ⊥
  IsChain d (c ∷ []) = IsCluster f c × ((e : FatEntry) × (get io f d c ≡ ok e) × (next_of e ≡ none))
  IsChain d (c ∷ n ∷ cs) = IsCluster f c × (get io f d c ≡ ok (next n)) × IsChain d (n ∷ cs)

  pub IsChain-Among : (d : io.Disk) (cs : List ℕ) → IsChain d cs → Among 2 f.cluster_count cs
  unfolding IsChain
  IsChain-Among d [] h = tt
  IsChain-Among d (c ∷ []) h = (omega arith, omega arith, tt)
  IsChain-Among d (c ∷ n ∷ cs) h = (omega arith, omega arith, IsChain-Among d (n ∷ cs) h.2)

  -- A chain stays where its entries do.
  pub IsChain-same :
      (d e : io.Disk) (cs : List ℕ)
      → ((k : ℕ) → elem k cs ≡ true → IsCluster f k → get io f e k ≡ get io f d k)
      → IsChain d cs
      → IsChain e cs
  unfolding IsChain elem
  IsChain-same d e [] same h = h
  IsChain-same d e (c ∷ []) same (inside, (entry, got, stop)) =
      (inside, (entry, same c (ground arith) inside ∙ got, stop))
  IsChain-same d e (c ∷ n ∷ cs) same (inside, got, rest) = (
    inside,
    same c (ground arith) inside ∙ got,
    IsChain-same d e (n ∷ cs) (λ k h hk. same k (ground arith) hk) rest,
  )
