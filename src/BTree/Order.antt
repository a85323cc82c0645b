-- ===== src/BTree/Order.antt =====
-- Laws of the ordered map, with the order of its keys where they need it.
use umi.Base.{
  ℕ, suc, ◌≤◌, ◌<◌, ◌≡◌, refl, List, [], ◌∷◌, ◌++◌, Bool, none, some, ◌==◌, if◌then◌else◌, select,
  arith, append_assoc, append-nil, ◌∙◌, sym,
}
use umi.BTree.{get, insert, remove, range_to, range_from, append}

module _ {ℓ} {V : Type ℓ} where
  -- The keys increase, and the first is at least the bound.
  abbrev pub Above : ℕ → List (ℕ × V) → Type 0
  Above lo [] = Unit
  Above lo ((k, v) ∷ m) = (lo ≤ k) × Above (suc k) m

  abbrev pub Below : ℕ → List (ℕ × V) → Type 0
  Below hi [] = Unit
  Below hi ((k, v) ∷ m) = (k < hi) × Below hi m

  pub get-insert :
      (j k : ℕ) (v : V) (m : List (ℕ × V))
      → get j (insert k v m) ≡ (if k == j then some v else get j m)
  unfolding get insert
  get-insert j k v [] = refl
  get-insert j k v ((i, w) ∷ m) = ground (arith, get-insert j k v m)

  pub Above-mono : (a b : ℕ) (m : List (ℕ × V)) → a ≤ b → Above b m → Above a m
  Above-mono a b [] h t = tt
  Above-mono a b ((k, v) ∷ m) h t = (omega arith, t.1)

  pub Below-mono : (a b : ℕ) (m : List (ℕ × V)) → a ≤ b → Below a m → Below b m
  Below-mono a b [] h t = tt
  Below-mono a b ((k, v) ∷ m) h t = (omega arith, Below-mono a b m h t.1)

  pub get_below : (j lo : ℕ) (m : List (ℕ × V)) → Above lo m → j < lo → get j m ≡ none
  unfolding get
  get_below j lo [] t h = refl
  get_below j lo ((k, v) ∷ m) t h = ground (arith, get_below j (suc k) m t.1)

  pub get-remove :
      (j k lo : ℕ) (m : List (ℕ × V))
      → Above lo m
      → get j (remove k m) ≡ (if k == j then none else get j m)
  unfolding get remove
  get-remove j k lo [] t = ground arith
  get-remove j k lo ((i, w) ∷ m) t =
      ground (arith, get-remove j k (suc i) m t.1, get_below j (suc i) m t.1)

  pub Below-append : (hi : ℕ) (m n : List (ℕ × V)) → Below hi m → Below hi n → Below hi (m ++ n)
  Below-append hi [] n b c = c
  Below-append hi ((k, v) ∷ m) n b c = (b.0, Below-append hi m n b.1 c)

  pub range_to-Below : (k : ℕ) (m : List (ℕ × V)) → Below k (range_to k m)
  range_to-Below k [] = tt
  range_to-Below k ((j, v) ∷ m) = ground (arith, range_to-Below k m)

  pub range_to_all : (k : ℕ) (m : List (ℕ × V)) → Below k m → range_to k m ≡ m
  range_to_all k [] b = refl
  range_to_all k ((j, v) ∷ m) b = ground (arith, range_to_all k m b.1)

  pub range_from_all : (k : ℕ) (m : List (ℕ × V)) → Above k m → range_from k m ≡ m
  range_from_all k [] b = refl
  range_from_all k ((j, v) ∷ m) b =
      ground (arith, range_from_all k m (Above-mono k (suc j) m (ground arith) b.1))

  pub range_to_none : (k : ℕ) (m : List (ℕ × V)) → Above k m → range_to k m ≡ []
  range_to_none k [] b = refl
  range_to_none k ((j, v) ∷ m) b =
      ground (arith, range_to_none k m (Above-mono k (suc j) m (ground arith) b.1))

  -- A cut leaves the map in two parts, in order.
  pub range_to-append-range_from :
      (k lo : ℕ) (m : List (ℕ × V)) → Above lo m → range_to k m ++ range_from k m ≡ m
  range_to-append-range_from k lo [] t = refl
  range_to-append-range_from k lo ((j, v) ∷ m) t = ground (
    arith,
    range_to-append-range_from k (suc j) m t.1,
    range_to_none k m,
    range_from_all k m,
    Above-mono k (suc j) m,
  )

  pub insert_last : (k : ℕ) (v : V) (m : List (ℕ × V)) → Below k m → insert k v m ≡ m ++ (k, v) ∷ []
  unfolding insert
  insert_last k v [] b = refl
  insert_last k v ((j, w) ∷ m) b = ground (arith, insert_last k v m b.1)

  -- A map whose keys are all greater is appended behind.
  pub append_behind : (lo : ℕ) (m n : List (ℕ × V)) → Below lo m → Above lo n → append m n ≡ m ++ n
  unfolding append
  append_behind lo m [] b t = sym (append-nil m)
  append_behind lo m ((k, v) ∷ n) b t = rw (insert_last k v m (Below-mono lo k m t.0 b)) (
      append_behind (suc k) (m ++ (k, v) ∷ []) n
        (Below-append (suc k) m ((k, v) ∷ []) (Below-mono lo (suc k) m (omega arith) b)
          (omega arith))
        t.1
      ∙ append_assoc m ((k, v) ∷ []) n)

  pub select-Above :
      (p : ℕ × V → Bool) (lo : ℕ) (m : List (ℕ × V)) → Above lo m → Above lo (select p m)
  select-Above p lo [] t = tt
  select-Above p lo ((s, v) ∷ m) t =
      ground (arith, select-Above p (suc s) m t.1, Above-mono lo (suc s) (select p m))

  pub range_from-Above : (lo k : ℕ) (m : List (ℕ × V)) → Above lo m → Above k (range_from k m)
  range_from-Above lo k [] t = tt
  range_from-Above lo k ((s, v) ∷ m) t =
      ground (arith, range_from-Above (suc s) k m t.1, range_from_all k m, Above-mono k (suc s) m)

  -- A key that falls between two parts goes between them.
  pub insert_between :
      (k : ℕ) (v : V) (m n : List (ℕ × V))
      → Below k m
      → Above (suc k) n
      → insert k v (m ++ n) ≡ m ++ (k, v) ∷ n
  unfolding insert
  insert_between k v [] [] b t = refl
  insert_between k v [] ((j, w) ∷ n) b t = ground arith
  insert_between k v ((j, w) ∷ m) n b t = ground (arith, insert_between k v m n b.1 t)
