-- ===== src/Files/Table.antt =====
-- The descriptors that are open and those that may be given out are apart.
use umi.Base.{
  ℕ, ◌+◌, ◌-◌, ◌^◌, ◌≤◌, ◌<◌, ◌≡◌, ◌≢◌, ◌⊎◌, inl, inr, refl, ap, ◌∙◌, List, [], ◌∷◌, Bool, false,
  ◌==◌, ◌||◌, none, some, Option-cases, le_or_lt, le→leb, lt→leb, if◌then◌else◌, ok, err, All,
  arith,
}
use native.Mathlib.Decide.{ℕ_discrete}
use umi.Crates.{HashMap}
use umi.Files.{
  emfile, FdInfo, IdAlloc, alloc, dealloc, Fds, fd_info, new, open_fd, Permissions, self_r, self_w,
  start,
}

-- Is the number one of the list?
abbrev pub has : ℕ → List ℕ → Bool
has k [] = false
has k (x ∷ xs) = x == k || has k xs

abbrev pub Distinct : List ℕ → Type 0
Distinct [] = Unit
Distinct (x ∷ xs) = (has x xs ≡ false) × Distinct xs

-- A number that is given out and not returned.
abbrev pub InUse : IdAlloc → ℕ → Type 0
InUse a k = (k < a.next) × (has k a.reuse ≡ false)

pub record IsIds (a : IdAlloc) : Type 0 where
  pub distinct : Distinct a.reuse
  pub below : All (λ k. k < a.next) a.reuse

has_beyond : (k n : ℕ) (xs : List ℕ) → All (λ x. x < n) xs → n ≤ k → has k xs ≡ false
has_beyond k n [] h g = refl
has_beyond k n (x ∷ xs) h g = ground (arith, has_beyond k n xs h.1 g)

-- What `alloc` gives out was not in use, and no other number is put in use.
pub record IsGiven (a : IdAlloc) (k : ℕ) (b : IdAlloc) : Type 0 where
  pub unused : ¬ InUse a k
  pub ids : IsIds b
  pub used : InUse b k
  pub others : (j : ℕ) → InUse a j → InUse b j
  pub grows : b.next ≤ a.next + 1

alloc_at :
    (reuse : List ℕ) (next : ℕ)
    → IsIds (record { reuse = reuse; next = next })
    → next < 2 ^ 31 - 1
    → IsGiven
        (record { reuse = reuse; next = next })
        (alloc (record { reuse = reuse; next = next })).0
        (alloc (record { reuse = reuse; next = next })).1
unfolding alloc
alloc_at [] next v room = record {
  unused = λ u. absurd (omega (arith, u.0));
  ids = record { distinct = tt; below = tt };
  used = (omega arith, refl);
  others = λ j u. (omega (arith, u.0), refl);
  grows = omega arith;
}
alloc_at (id ∷ rest) next v room = record {
  unused = λ u. ground (arith, u.1);
  ids = record { distinct = v.distinct.1; below = v.below.1 };
  used = (v.below.0, v.distinct.0);
  others = λ j u. ground (arith, u);
  grows = omega arith;
}

pub alloc_lem : (a : IdAlloc) → IsIds a → a.next < 2 ^ 31 - 1 → IsGiven a (alloc a).0 (alloc a).1
alloc_lem a v room = alloc_at a.reuse a.next v room

-- `dealloc` returns a number that was in use, and no other.
pub dealloc_lem :
    (a : IdAlloc) (k : ℕ)
    → IsIds a
    → InUse a k
    → IsIds (dealloc k a) × ((j : ℕ) → j ≢ k → InUse a j → InUse (dealloc k a) j)
unfolding dealloc
dealloc_lem a k v u =
    (record { distinct = (u.1, v.distinct); below = (u.0, v.below) }, λ j other w. ground arith)

module _ {E D : Type 0} (hash_map : HashMap (FdInfo E D)) where
  open hash_map use {Map, get as look, insert, insert_unique_unchecked, remove, update, len}

  -- Every open descriptor is a number in use, which no open will give out again.
  pub record IsTable (f : Fds hash_map) : Type 0 where
    pub ids : IsIds f.id_alloc
    pub open_in_use : (k : ℕ) (fi : FdInfo E D) → look k f.map ≡ some fi → InUse f.id_alloc k

  abbrev pub stdio : Permissions → E → FdInfo E D
  stdio perm entry = record {
    entry = entry;
    close_on_exec = false;
    nonblock = false;
    perm = perm;
    saved_next_dirent = start;
  }

  -- The new table is well formed and has the three standard descriptors and no other; standard
  -- input and output are for writing, and standard error is for reading.
  pub new-IsTable :
      (stdin stdout stderr : E)
      → IsTable (new hash_map stdin stdout stderr)
        × ((k : ℕ)
            → look k (new hash_map stdin stdout stderr).map ≡ (
                if k == 0
                then some (stdio self_w stdin)
                else if k == 1
                then some (stdio self_w stdout)
                else if k == 2
                then some (stdio self_r stderr)
                else none))
  unfolding new fd_info
  new-IsTable stdin stdout stderr =
      let f = new hash_map stdin stdout stderr in
      let reads : (k : ℕ)
          → look k f.map ≡ (
              if k == 0
              then some (stdio self_w stdin)
              else if k == 1
              then some (stdio self_w stdout)
              else if k == 2
              then some (stdio self_r stderr)
              else none) =
        λ k.
          rw (hash_map.get-insert, hash_map.get-insert, hash_map.get-insert, hash_map.get-empty)
            (ground arith) in
      (
        record {
          ids = record { distinct = tt; below = tt };
          open_in_use = λ k fi e. (ground (arith, reads k), refl);
        },
        reads,
      )

  -- On a well formed table with descriptors to spare, `open` below the limit returns a descriptor
  -- that was not open, under which the entry stands then, and changes no other; at the limit it
  -- refuses and changes nothing.
  pub open_fd_lem :
      (f : Fds hash_map) (fi : FdInfo E D)
      → IsTable f
      → f.id_alloc.next < 2 ^ 31 - 1
      → ((f.limit ≤ len f.map) × (open_fd hash_map f fi ≡ (f, err emfile)))
        ⊎ ((len f.map < f.limit)
            × (fd : ℕ) × (f' : Fds hash_map) × (open_fd hash_map f fi ≡ (f', ok fd))
            × (look fd f.map ≡ none)
            × ((j : ℕ) → look j f'.map ≡ (if fd == j then some fi else look j f.map))
            × IsTable f'
            × (f'.limit ≡ f.limit))
  unfolding open_fd
  open_fd_lem f fi t room = elim (le_or_lt f.limit (len f.map)) [
    | inl full ↦ inl (full, rw (le→leb f.limit (len f.map) full) refl)
    | inr free ↦
        let fd = (alloc f.id_alloc).0 in
        let ids = (alloc f.id_alloc).1 in
        let g = alloc_lem f.id_alloc t.ids room in
        let closed : look fd f.map ≡ none = elim (Option-cases (look fd f.map)) [
          | inl e ↦ e
          | inr (old, e) ↦ absurd (g.unused (t.open_in_use fd old e))
        ] in
        let unique = hash_map.insert_unique fd fi f.map closed in
        let reads : (j : ℕ)
            → look j (insert_unique_unchecked fd fi f.map)
              ≡ (if fd == j then some fi else look j f.map) =
          λ j. ap (look j) unique ∙ hash_map.get-insert j fd fi f.map in
        let f' : Fds hash_map = record f {
          map = insert_unique_unchecked fd fi f.map;
          id_alloc = ids;
        } in
        inr (
          free,
          fd,
          f',
          rw (lt→leb f.limit (len f.map) free) refl,
          closed,
          reads,
          record {
            ids = g.ids;
            open_in_use = λ k x e. elim (ℕ_discrete fd k) [
              | yes q ↦ rw (← q) g.used
              | no q ↦ g.others k (t.open_in_use k x (ground (arith, reads k)))
            ];
          },
          refl,
        )
  ]
