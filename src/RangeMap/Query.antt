-- ===== src/RangeMap/Query.antt =====
-- `range` and `intersection` against their descriptions.
use umi.Base.{
  ℕ, ◌<◌, ◌≡◌, refl, List, [], ◌∷◌, ◌++◌, Bool, true, false, ◌&&◌, ltb, leb, map, arith, All,
  select, take_while, ap, append-nil,
}
use umi.BTree
use umi.RangeMap.{Range, RangeMap, range, intersection, item}
use umi.RangeMap.Tiling.{Tiled, IsTiled}
use mathlib.Core.List.{reverse, reverse-cons}

-- The entry lies in the range.
abbrev pub contained {ℓ} : {V : Type ℓ} → Range → ℕ × (ℕ × V) → Bool
contained r x = leb r.start x.0 && leb x.1.0 r.end

-- The entry and the range have a point in common.
abbrev pub meets {ℓ} : {V : Type ℓ} → Range → ℕ × (ℕ × V) → Bool
meets r x = ltb x.0 r.end && ltb r.start x.1.0

module _ {ℓ} {A : Type ℓ} (p : A → Bool) where
  take_while-All :
      (xs ys : List A) → All (λ x. p x ≡ true) xs → take_while p (xs ++ ys) ≡ xs ++ take_while p ys
  take_while-All [] ys h = refl
  take_while-All (x ∷ xs) ys h = ground (arith, take_while-All xs ys h.1)

  take_while_stop :
      (xs : List A) (y : A) → p y ≡ false → take_while p (xs ++ y ∷ []) ≡ take_while p xs
  take_while_stop [] y h = ground arith
  take_while_stop (x ∷ xs) y h = ground (arith, take_while_stop xs y h)

  All-append :
      (xs ys : List A)
      → All (λ x. p x ≡ true) xs
      → All (λ x. p x ≡ true) ys
      → All (λ x. p x ≡ true) (xs ++ ys)
  All-append [] ys a b = b
  All-append (x ∷ xs) ys a b = (a.0, All-append xs ys a.1 b)

  All-reverse : (xs : List A) → All (λ x. p x ≡ true) xs → All (λ x. p x ≡ true) (reverse xs)
  All-reverse [] a = tt
  All-reverse (x ∷ xs) a =
      rw (reverse-cons x xs) (All-append (reverse xs) (x ∷ []) (All-reverse xs a.1) (a.0, tt))

  select-All : (xs : List A) → All (λ x. p x ≡ true) xs → select p xs ≡ xs
  select-All [] a = refl
  select-All (x ∷ xs) a = ground (arith, select-All xs a.1)

module _ {V : Type 0} (r : Range) where
  none_contained :
      (lo hi : ℕ) (m : List (ℕ × (ℕ × V)))
      → Tiled lo hi m
      → r.end < lo
      → (take_while (λ e. leb e.1.0 r.end) m ≡ []) × (select (contained r) m ≡ [])
  none_contained lo hi [] t h = (refl, refl)
  none_contained lo hi ((s, (e, v)) ∷ m) t h = ground (arith, none_contained e hi m t.3)

  range_from-contained :
      (lo hi : ℕ) (m : List (ℕ × (ℕ × V)))
      → Tiled lo hi m
      → take_while (λ e. leb e.1.0 r.end) (BTree.range_from r.start m) ≡ select (contained r) m
  range_from-contained lo hi [] t = refl
  range_from-contained lo hi ((s, (e, v)) ∷ m) t =
      ground (arith, range_from-contained e hi m t.3, none_contained e hi m t.3)

  -- `range` yields exactly the entries that lie in the range, in order.
  pub range_lem : (m : RangeMap V) → IsTiled m → range m r ≡ map item (select (contained r) m.map)
  unfolding range
  range_lem m t = ap (map item) (range_from-contained m.range.start m.range.end m.map t)

  -- Once an entry ends behind the start of the range, all later entries do.
  ends_behind :
      (lo hi : ℕ) (m : List (ℕ × (ℕ × V)))
      → Tiled lo hi m
      → r.start < lo
      → All (λ x. ltb r.start x.1.0 ≡ true) (BTree.range_to r.end m)
  ends_behind lo hi [] t h = tt
  ends_behind lo hi ((s, (e, v)) ∷ m) t h = ground (arith, ends_behind e hi m t.3)

  reverse-meets :
      (lo hi : ℕ) (m : List (ℕ × (ℕ × V)))
      → Tiled lo hi m
      → take_while (λ x. ltb r.start x.1.0) (reverse (BTree.range_to r.end m))
        ≡ reverse (select (meets r) m)
  reverse-meets lo hi [] t = refl
  reverse-meets lo hi ((s, (e, v)) ∷ m) t =
      let p = λ (x : ℕ × (ℕ × V)). ltb r.start x.1.0 in
      let x : ℕ × (ℕ × V) = (s, (e, v)) in
      let prefix = BTree.range_to r.end m in
      ground (
        arith,
        reverse-meets e hi m t.3,
        reverse-cons x prefix,
        reverse-cons x (select (meets r) m),
        take_while_stop p (reverse prefix) x,
        take_while-All p (reverse prefix) (x ∷ []),
        take_while-All p (reverse prefix) [],
        All-reverse p prefix,
        ends_behind e hi m t.3,
        append-nil (reverse prefix),
      )

  -- On a well formed map, `intersection` yields exactly the entries that meet the range, from the
  -- end.
  pub intersection_lem :
      (m : RangeMap V) → IsTiled m → intersection m r ≡ map item (reverse (select (meets r) m.map))
  unfolding intersection
  intersection_lem m t = ap (map item) (reverse-meets m.range.start m.range.end m.map t)
