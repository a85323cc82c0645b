-- ===== src/RangeMap/Drain.antt =====
-- `drain` removes exactly the entries that lie in the range.
use umi.Base.{
  ℕ, le_or_lt, ◌≤◌, ◌<◌, ◌≡◌, refl, List, [], ◌∷◌, ◌++◌, Bool, not, leb, map, last?, arith, select,
  Option, none, some, Option-cases, inl, inr, ◌∙◌, sym, append-nil, append_assoc, select-append,
}
use umi.BTree
use umi.BTree.Order.{
  Below, Above-mono, append_behind, insert_last, range_to-Below, range_to_none, range_from_all,
  range_to-append-range_from, Below-append, Below-mono, select-Above, range_from-Above,
}
use umi.RangeMap.{Range, RangeMap, drain, put_back, item}
use umi.RangeMap.Tiling.{
  Tiled, IsTiled, Tiled-Above, Tiled-mono, last?-cons, last_below, init-cons, last-none,
}
use umi.RangeMap.Query.{contained}

abbrev pub left {ℓ} : {V : Type ℓ} → Range → ℕ × (ℕ × V) → Bool
left r x = not (contained r x)

module _ {V : Type 0} where
  select-Tiled :
      (p : ℕ × (ℕ × V) → Bool) (lo hi : ℕ) (m : List (ℕ × (ℕ × V)))
      → Tiled lo hi m
      → Tiled lo hi (select p m)
  select-Tiled p lo hi [] t = tt
  select-Tiled p lo hi ((s, (e, v)) ∷ m) t =
      ground (arith, select-Tiled p e hi m t.3, Tiled-mono lo e hi (select p m))

  module _ (r : Range) where
    behind :
        (lo hi : ℕ) (m : List (ℕ × (ℕ × V)))
        → Tiled lo hi m
        → r.end ≤ lo
        → (select (contained r) m ≡ [])
          × (select (left r) m ≡ m)
          × (BTree.range_from r.end m ≡ m)
          × (BTree.range_to r.end m ≡ [])
    behind lo hi [] t h = (refl, refl, refl, refl)
    behind lo hi ((s, (e, v)) ∷ m) t h = ground (arith, behind e hi m t.3)

    before :
        (m : List (ℕ × (ℕ × V)))
        → Below r.start m
        → (select (contained r) m ≡ []) × (select (left r) m ≡ m)
    before [] b = (refl, refl)
    before ((s, (e, v)) ∷ m) b = ground (arith, before m b.1)

    abbrev Parts : List (ℕ × (ℕ × V)) → List (ℕ × (ℕ × V)) → Type 0
    Parts m suffix =
        let cut = BTree.range_to r.end m in
        let back = put_back r [] cut (last? cut) in
        (back.0 ++ suffix ≡ select (left r) m) × (back.1 ≡ select (contained r) m)

    -- The cut, where no entry starts before the range.
    parts :
        (lo hi : ℕ) (m : List (ℕ × (ℕ × V)))
        → Tiled lo hi m
        → r.start ≤ lo
        → Parts m (BTree.range_from r.end m)
    unfolding put_back BTree.insert
    parts lo hi [] t h = (refl, refl)
    parts lo hi ((s, (e, v)) ∷ m) t h =
        let x : ℕ × (ℕ × V) = (s, (e, v)) in
        let rest = BTree.range_to r.end m in
        elim (Option-cases (last? rest)) [
          | inl q ↦ ground (
            arith,
            last?-cons x rest,
            init-cons x rest,
            last-none rest q,
            parts e hi m t.3,
            behind e hi m t.3,
          )
          | inr ((s', (e', v')), q) ↦ ground (
            arith,
            last?-cons x rest,
            init-cons x rest,
            last_below r.end e hi m s' e' v' t.3 q,
            parts e hi m t.3,
            behind e hi m t.3,
          )
        ]

    from-Tiled :
        (lo hi : ℕ) (m : List (ℕ × (ℕ × V)))
        → Tiled lo hi m
        → Tiled r.start hi (BTree.range_from r.start m)
    from-Tiled lo hi [] t = tt
    from-Tiled lo hi ((s, (e, v)) ∷ m) t =
        ground (arith, from-Tiled e hi m t.3, from_clear e hi m t.3)
      where
        from_clear :
            (lo hi : ℕ) (m : List (ℕ × (ℕ × V)))
            → Tiled lo hi m
            → r.start ≤ lo
            → BTree.range_from r.start m ≡ m
        from_clear lo hi m t h =
            range_from_all r.start m (Above-mono r.start lo m h (Tiled-Above lo hi m t))

    -- Entries that are put back go behind those that were kept.
    put_back_kept :
        (kept cut : List (ℕ × (ℕ × V))) (l : Option (ℕ × (ℕ × V)))
        → Below r.start kept
        → ((x : ℕ × (ℕ × V)) → l ≡ some x → r.start ≤ x.0)
        → (put_back r kept cut l).0 ≡ kept ++ (put_back r [] cut l).0
    unfolding put_back BTree.insert
    put_back_kept kept cut none b h = sym (append-nil kept)
    put_back_kept kept cut (some (s, (e, v))) b h = ground (
      arith,
      append-nil kept,
      h (s, (e, v)) refl,
      insert_last s (e, v) kept (Below-mono r.start s kept (h (s, (e, v)) refl) b),
    )

    put_back_removed :
        (kept cut : List (ℕ × (ℕ × V))) (l : Option (ℕ × (ℕ × V)))
        → (put_back r kept cut l).1 ≡ (put_back r [] cut l).1
    unfolding put_back
    put_back_removed kept cut none = refl
    put_back_removed kept cut (some (s, (e, v))) = ground arith

    put_back-Below :
        (cut : List (ℕ × (ℕ × V))) (l : Option (ℕ × (ℕ × V)))
        → ((x : ℕ × (ℕ × V)) → l ≡ some x → x.0 < r.end)
        → Below r.end (put_back r [] cut l).0
    unfolding put_back BTree.insert
    put_back-Below cut none h = tt
    put_back-Below cut (some (s, (e, v))) h = ground (arith, h (s, (e, v)) refl)

    appended :
        (hi : ℕ) (kept m : List (ℕ × (ℕ × V)))
        → Below r.start kept
        → Tiled r.start hi m
        → let cut = BTree.range_to r.end m in
          let suffix = BTree.range_from r.end m in
          BTree.append (put_back r kept cut (last? cut)).0 suffix
          ≡ kept ++ ((put_back r [] cut (last? cut)).0 ++ suffix)
    unfolding put_back
    appended hi kept m b t =
        let cut = BTree.range_to r.end m in
        let suffix = BTree.range_from r.end m in
        let back = (put_back r [] cut (last? cut)).0 in
        let above = Tiled-Above r.start hi m t in
        rw
          (put_back_kept kept cut (last? cut) b
            (λ (s', (e', v')) q. (last_below r.end r.start hi m s' e' v' t q).0))
          (elim (le_or_lt r.end r.start) [
            | inl h ↦ ground (
              arith,
              range_to_none r.end m (Above-mono r.end r.start m h above),
              append-nil kept,
              append_behind r.start kept suffix b
                  (select-Above (λ x. leb r.end x.0) r.start m above),
            )
            | inr h ↦
                append_behind r.end (kept ++ back) suffix
                  (Below-append r.end kept back (Below-mono r.start r.end kept (omega arith) b) (
                    put_back-Below cut (last? cut)
                      (λ (s', (e', v')) q. (last_below r.end r.start hi m s' e' v' t q).3)))
                  (range_from-Above r.start r.end m above)
                ∙ append_assoc kept back suffix
          ])

  -- On a well formed map, `drain` returns exactly the entries that lie in the range, and keeps
  -- exactly the others, in order.
  pub drain_lem :
      (m : RangeMap V) (r : Range)
      → IsTiled m
      → drain m r
        ≡ (record m { map = select (left r) m.map }, map item (select (contained r) m.map))
  unfolding drain
  drain_lem m r t =
      let prefix = BTree.range_to r.start m.map in
      let rest = BTree.range_from r.start m.map in
      let cut = BTree.range_to r.end rest in
      let hi = m.range.end in
      let whole =
        range_to-append-range_from r.start m.range.start m.map
          (Tiled-Above m.range.start hi m.map t) in
      let tiled = from-Tiled r m.range.start hi m.map t in
      let below = range_to-Below r.start m.map in
      let split = parts r r.start hi rest tiled (omega arith) in
      ground (
        arith,
        appended r hi prefix rest below tiled,
        put_back_removed r prefix cut (last? cut),
        split,
        before r prefix below,
        select-append (contained r) prefix rest,
        select-append (left r) prefix rest,
        whole,
      )

  -- What `drain` leaves is a range map.
  pub drain-IsTiled : (m : RangeMap V) (r : Range) → IsTiled m → IsTiled (drain m r).0
  drain-IsTiled m r t =
      rw (drain_lem m r t) (select-Tiled (left r) m.range.start m.range.end m.map t)
