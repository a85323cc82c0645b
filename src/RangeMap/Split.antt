-- ===== src/RangeMap/Split.antt =====
-- `split_entry` and the drop of the `SplitEntry` that it returns.
use umi.Base.{
  ℕ, suc, le_or_lt, ◌≤◌, ◌<◌, ◌≡◌, ◌⊎◌, inl, inr, refl, List, [], ◌∷◌, ◌++◌, Bool, false, ltb,
  last?, init, arith, subst, Option, none, some, Option-cases, ◌∙◌, append_assoc, All, ap,
}
use umi.BTree
use umi.BTree.Order.{
  Above, Below, Above-mono, append_behind, range_to-Below, range_to_none,
  range_to-append-range_from, Below-append, Below-mono, range_from-Above, insert_between,
}
use umi.RangeMap.{RangeMap, SplitEntry, split_entry, set_former, set_latter, drop_split}
use umi.RangeMap.Tiling.{Tiled, IsTiled, Tiled-Above, last?-cons, last_below, init-cons, last-none}

module _ {V : Type 0} where
  -- No entry has the key strictly inside.
  abbrev pub Whole : ℕ → List (ℕ × (ℕ × V)) → Type 0
  Whole key = All (λ x. (x.1.0 ≤ key) ⊎ (key ≤ x.0))

  -- The entry from `start` to `end` stands between `former` and `latter`, with the key inside.
  pub record Around (m : List (ℕ × (ℕ × V))) (key start end : ℕ) (value : V)
      (former latter : List (ℕ × (ℕ × V))) : Type 0 where
    pub here : m ≡ former ++ (start, (end, value)) ∷ latter
    pub after_start : start < key
    pub before_end : key < end

  Around-cons :
      (x : ℕ × (ℕ × V)) (m : List (ℕ × (ℕ × V))) (key start end : ℕ) (value : V)
      (former latter : List (ℕ × (ℕ × V)))
      → Around m key start end value former latter
      → Around (x ∷ m) key start end value (x ∷ former) latter
  Around-cons x m key start end value former latter a = record {
    here = ap (◌∷◌ x) a.here;
    after_start = a.after_start;
    before_end = a.before_end;
  }

  Whole-above : (key lo hi : ℕ) (m : List (ℕ × (ℕ × V))) → Tiled lo hi m → key ≤ lo → Whole key m
  Whole-above key lo hi [] t h = tt
  Whole-above key lo hi ((s, (e, v)) ∷ m) t h =
      (inr (omega arith), Whole-above key e hi m t.3 (omega arith))

  inside : ℕ → Option (ℕ × (ℕ × V)) → Bool
  inside key none = false
  inside key (some (s, (e, v))) = ltb key e

  -- Either no entry has the key inside, or the last entry below the key has.
  splits :
      (key lo hi : ℕ) (m : List (ℕ × (ℕ × V)))
      → Tiled lo hi m
      → (Whole key m × (inside key (last? (BTree.range_to key m)) ≡ false))
        ⊎ ((s e : ℕ) × (v : V) × (last? (BTree.range_to key m) ≡ some (s, (e, v)))
            × Around m key s e v (init (BTree.range_to key m)) (BTree.range_from key m))
  unfolding inside
  splits key lo hi [] t = inl (tt, refl)
  splits key lo hi ((s, (e, v)) ∷ m) t =
      let x : ℕ × (ℕ × V) = (s, (e, v)) in
      let prefix = BTree.range_to key m in
      let above = Tiled-Above e hi m t.3 in
      let joined = range_to-append-range_from key e m above in
      let last = last?-cons x prefix in
      let front = init-cons x prefix in
      elim (le_or_lt key s) [
        | inl h ↦
            let empty = range_to_none key m (Above-mono key e m (omega arith) above) in
            inl (ground (arith, Whole-above key e hi m t.3), ground (arith, empty))
        | inr h ↦ elim (splits key e hi m t.3) [
          | inl (w, q) ↦ elim (Option-cases (last? prefix)) [
            | inl z ↦ elim (le_or_lt e key) [
              | inl b ↦ inl (ground arith, ground (arith, last))
              | inr b ↦ inr (
                s,
                e,
                v,
                ground (arith, last),
                record {
                  here = ground (arith, joined, front, last-none prefix z);
                  after_start = h;
                  before_end = b;
                },
              )
            ]
            | inr ((s', (e', v')), z) ↦
                let place = last_below key e hi m s' e' v' t.3 z in
                inl (ground arith, ground (arith, last))
          ]
          | inr (s', e', v', q, a) ↦ inr (
            s',
            e',
            v',
            ground (arith, last),
            record {
              here = ground (arith, front, a.here);
              after_start = a.after_start;
              before_end = a.before_end;
            },
          )
        ]
      ]

  -- What the code puts together again after a cut.
  rejoined :
      (key lo hi : ℕ) (m : List (ℕ × (ℕ × V)))
      → Tiled lo hi m
      → BTree.append (BTree.range_to key m) (BTree.range_from key m) ≡ m
  rejoined key lo hi m t =
      let above = Tiled-Above lo hi m t in
      append_behind key (BTree.range_to key m) (BTree.range_from key m) (range_to-Below key m)
        (range_from-Above lo key m above)
      ∙ range_to-append-range_from key lo m above

  init-Below : (k : ℕ) (m : List (ℕ × (ℕ × V))) → Below k m → Below k (init m)
  init-Below k [] b = tt
  init-Below k (x ∷ []) b = tt
  init-Below k (x ∷ y ∷ m) b = (b.0, init-Below k (y ∷ m) b.1)

  split_found :
      (m : RangeMap V) (key s e : ℕ) (v : V)
      → IsTiled m
      → last? (BTree.range_to key m.map) ≡ some (s, (e, v))
      → s < key
      → key < e
      → split_entry m key ≡ (
        record m { map = init (BTree.range_to key m.map) ++ BTree.range_from key m.map },
        some (
          v,
          record {
            split_key = key;
            key = record { start = s; end = e };
            former = none;
            latter = none;
          },
        ),
      )
  unfolding split_entry
  split_found m key s e v t q a b =
      let prefix = BTree.range_to key m.map in
      ground (
        arith,
        append_behind key (init prefix) (BTree.range_from key m.map)
            (init-Below key prefix (range_to-Below key m.map))
            (range_from-Above m.range.start key m.map
              (Tiled-Above m.range.start m.range.end m.map t)),
      )

  split_missing :
      (m : RangeMap V) (key : ℕ)
      → IsTiled m
      → inside key (last? (BTree.range_to key m.map)) ≡ false
      → split_entry m key ≡ (m, none)
  unfolding split_entry inside
  split_missing m key t q = ground (arith, rejoined key m.range.start m.range.end m.map t)

  -- `split_entry` takes out the entry that has the key strictly inside; where there is none, it
  -- changes nothing.
  pub split_entry_lem :
      (m : RangeMap V) (key : ℕ)
      → IsTiled m
      → (Whole key m.map × (split_entry m key ≡ (m, none)))
        ⊎ ((s e : ℕ) × (v : V) × (former latter : List (ℕ × (ℕ × V))) × Around m.map key s e v
              former latter
            × (split_entry m key ≡ (
              record m { map = former ++ latter },
              some (
                v,
                record {
                  split_key = key;
                  key = record { start = s; end = e };
                  former = none;
                  latter = none;
                },
              ),
            )))
  split_entry_lem m key t = elim (splits key m.range.start m.range.end m.map t) [
    | inl (w, q) ↦ inl (w, split_missing m key t q)
    | inr (s, e, v, q, a) ↦ inr (
      s,
      e,
      v,
      init (BTree.range_to key m.map),
      BTree.range_from key m.map,
      a,
      split_found m key s e v t q a.after_start a.before_end,
    )
  ]

  Tiled-parts :
      (lo hi s e : ℕ) (v : V) (former latter : List (ℕ × (ℕ × V)))
      → Tiled lo hi (former ++ (s, (e, v)) ∷ latter)
      → Below s former × Above e latter × (s < e)
  Tiled-parts lo hi s e v [] latter t = (tt, Tiled-Above e hi latter t.3, t.1)
  Tiled-parts lo hi s e v ((b, (f, w)) ∷ former) latter t =
      let (below, above, proper) = Tiled-parts f hi s e v former latter t.3 in
      ((omega (arith, Tiled-le f hi s e v former latter t.3), below), above, proper)
    where
      Tiled-le :
          (lo hi s e : ℕ) (v : V) (former latter : List (ℕ × (ℕ × V)))
          → Tiled lo hi (former ++ (s, (e, v)) ∷ latter)
          → lo ≤ s
      Tiled-le lo hi s e v [] latter t = t.0
      Tiled-le lo hi s e v ((b, (f, w)) ∷ former) latter t =
          omega (arith, Tiled-le f hi s e v former latter t.3)

  Tiled-cut :
      (lo hi s k e : ℕ) (v a b : V) (former latter : List (ℕ × (ℕ × V)))
      → Tiled lo hi (former ++ (s, (e, v)) ∷ latter)
      → s < k
      → k < e
      → Tiled lo hi (former ++ (s, (k, a)) ∷ (k, (e, b)) ∷ latter)
  Tiled-cut lo hi s k e v a b [] latter t p q = (t.0, p, omega arith, (omega arith, q, t.2, t.3))
  Tiled-cut lo hi s k e v a b ((c, (f, w)) ∷ former) latter t p q =
      (t.0, t.1, t.2, Tiled-cut f hi s k e v a b former latter t.3 p q)

  abbrev taken : ℕ → ℕ → ℕ → SplitEntry V
  taken key s e = record {
    split_key = key;
    key = record { start = s; end = e };
    former = none;
    latter = none;
  }

  cut_drop :
      (m : RangeMap V) (key s e : ℕ) (v a b : V) (former latter : List (ℕ × (ℕ × V)))
      → Tiled m.range.start m.range.end (former ++ (s, (e, v)) ∷ latter)
      → s < key
      → key < e
      → drop_split
          (record m { map = former ++ latter })
          (set_latter (set_former (taken key s e) a) b)
        ≡ record m { map = former ++ (s, (key, a)) ∷ (key, (e, b)) ∷ latter }
  unfolding drop_split set_latter set_former
  cut_drop m key s e v a b former latter t p q =
      let (below, above, proper) = Tiled-parts m.range.start m.range.end s e v former latter t in
      let front = former ++ (s, (key, a)) ∷ [] in
      ground (
        arith,
        insert_between s (key, a) former latter below (Above-mono (suc s) e latter proper above),
        insert_between key (e, b) front latter
            (Below-append key former ((s, (key, a)) ∷ [])
              (Below-mono s key former (omega arith) below) (omega arith))
            (Above-mono (suc key) e latter q above),
        append_assoc former ((s, (key, a)) ∷ []) latter,
        append_assoc former ((s, (key, a)) ∷ []) ((key, (e, b)) ∷ latter),
      )

  -- After a successful `split_entry` of a well formed map, with both values set, the drop of the
  -- `SplitEntry` leaves two entries that meet at the key in the place of the old one, and the map
  -- is well formed.
  pub split_entry-drop_split :
      (m m' : RangeMap V) (key : ℕ) (v a b : V) (entry : SplitEntry V)
      → IsTiled m
      → split_entry m key ≡ (m', some (v, entry))
      → (s e : ℕ) × (former latter : List (ℕ × (ℕ × V))) × Around m.map key s e v former latter
        × (drop_split m' (set_latter (set_former entry a) b)
            ≡ record m { map = former ++ (s, (key, a)) ∷ (key, (e, b)) ∷ latter })
        × IsTiled (drop_split m' (set_latter (set_former entry a) b))
  split_entry-drop_split m m' key v a b entry t h = elim (split_entry_lem m key t) [
    | inl (w, q) ↦ absurd (cc)
    | inr (s, e, v', former, latter, ar, q) ↦
        let tiled : Tiled m.range.start m.range.end (former ++ (s, (e, v')) ∷ latter) =
          subst (Tiled m.range.start m.range.end) ar.here t in
        let map_eq : record m { map = former ++ latter } ≡ m' = cc in
        let entry_eq : taken key s e ≡ entry = cc in
        let value_eq : v' ≡ v = cc in
        let dropped = cut_drop m key s e v' a b former latter tiled ar.after_start ar.before_end in
        rw (← map_eq, ← entry_eq, ← value_eq)
          (
            s,
            e,
            former,
            latter,
            ar,
            dropped,
            rw dropped (
                Tiled-cut m.range.start m.range.end s key e v' a b former latter tiled
                  ar.after_start ar.before_end),
          )
  ]
