-- ===== src/Files/Steps.antt =====
-- What the operations on open descriptors do to the table.
use umi.Base.{
  ℕ, ◌-◌, ◌^◌, ◌<◌, ◌≡◌, ◌⊎◌, inl, inr, refl, sym, ap, ◌∙◌, [], ◌∷◌, Bool, true, false, ◌==◌, ◌&&◌,
  not, lt→leb, Option, none, some, Option-cases, Bool-cases, Result-cases, if◌then◌else◌, Result,
  ok, err, arith,
}
use native.Mathlib.Decide.{ℕ_discrete}
use mathlib.Core.Option
use umi.Crates.{HashMap}
use umi.Files.{
  Error, ebadf, emfile, FdInfo, alloc, dealloc, Fds, reopen, open_fd, get_fi, set_fi, dup, close,
  dup3, cwd_fd, unwrap_or,
}
use umi.Files.Table.{IsTable, dealloc_lem, open_fd_lem}

module _ {E D : Type 0} (hash_map : HashMap (FdInfo E D)) where
  open hash_map use {Map, get as look, insert, insert_unique_unchecked, remove, update, len}

  -- On a well formed table, `close` of an open descriptor removes it and no other, returns its
  -- number and keeps the table well formed; of one that is not open it fails and changes nothing.
  pub close_lem :
      (f : Fds hash_map) (fd : ℕ)
      → IsTable hash_map f
      → ((look fd f.map ≡ none) × (close hash_map f fd ≡ (f, err ebadf)))
        ⊎ ((fi : FdInfo E D) × (f' : Fds hash_map) × (look fd f.map ≡ some fi)
            × (close hash_map f fd ≡ (f', ok tt))
            × ((j : ℕ) → look j f'.map ≡ (if fd == j then none else look j f.map))
            × IsTable hash_map f'
            × (f'.id_alloc.reuse ≡ fd ∷ f.id_alloc.reuse))
  unfolding close
  close_lem f fd t = elim (Option-cases (look fd f.map)) [
    | inl missing ↦ inl (missing, rw (close, missing) refl)
    | inr (fi, here) ↦
        let d = dealloc_lem f.id_alloc fd t.ids (t.open_in_use fd fi here) in
        let f' : Fds hash_map = record f {
          map = remove fd f.map;
          id_alloc = dealloc fd f.id_alloc;
        } in
        let reads : (j : ℕ) → look j f'.map ≡ (if fd == j then none else look j f.map) =
          λ j. hash_map.get-remove j fd f.map in
        inr (
          fi,
          f',
          here,
          rw (close, here) refl,
          reads,
          record {
            ids = d.0;
            open_in_use = λ k x e. elim (ℕ_discrete k fd) [
              | yes q ↦ absurd (ground (arith, reads k))
              | no q ↦ d.1 k q (t.open_in_use k x (ground (arith, reads k)))
            ];
          },
          refl,
        )
  ]

  -- On a well formed table, a descriptor that was closed is the next that `open` returns, where the
  -- table is below its limit.
  pub close-open_fd :
      (f f' : Fds hash_map) (fd : ℕ) (fi : FdInfo E D)
      → IsTable hash_map f
      → close hash_map f fd ≡ (f', ok tt)
      → len f'.map < f'.limit
      → (open_fd hash_map f' fi).1 ≡ ok fd
  unfolding open_fd alloc
  close-open_fd f f' fd fi t h room = elim (close_lem f fd t) [
    | inl (missing, run) ↦ absurd (cc)
    | inr (old, g, here, run, reads, t', reuse) ↦
        let same : g ≡ f' = cc in
        let top : f'.id_alloc.reuse ≡ fd ∷ f.id_alloc.reuse =
          ap (λ (x : Fds hash_map). x.id_alloc.reuse) (sym same) ∙ reuse in
        rw (open_fd, lt→leb f'.limit (len f'.map) room, alloc, top) refl
  ]

  -- `set_fi` changes the entry of a descriptor that is open and no other, and keeps the table well
  -- formed. For the current directory it does nothing.
  pub set_fi_lem :
      (f : Fds hash_map) (fd : ℕ) (change : FdInfo E D → FdInfo E D)
      → IsTable hash_map f
      → IsTable hash_map (set_fi hash_map f fd change).0
        × ((j : ℕ)
            → look j (set_fi hash_map f fd change).0.map ≡ (
                if fd == j && not (fd == cwd_fd)
                then Option.map change (look j f.map)
                else look j f.map))
  unfolding set_fi
  set_fi_lem f fd change t = elim (Bool-cases (fd == cwd_fd)) [
    | inl dir ↦ rw (set_fi, dir) (t, λ j. ground arith)
    | inr other ↦ elim (Option-cases (look fd f.map)) [
      | inl missing ↦
          rw (set_fi, other, missing)
            (
              t,
              λ j. elim (ℕ_discrete fd j) [
                | yes q ↦
                    let nothing : look j f.map ≡ none = rw (← q) missing in
                    rw nothing (ground arith)
                | no q ↦ ground arith
              ],
            )
      | inr (fi, here) ↦
          rw (set_fi, other, here)
            (
              record {
                ids = t.ids;
                open_in_use = λ k x e. elim (Option-cases (look k f.map)) [
                  | inl closed ↦ absurd (ground (arith, hash_map.get-update k fd change f.map))
                  | inr (old, e') ↦ t.open_in_use k old e'
                ];
              },
              λ j. ground (arith, hash_map.get-update j fd change f.map),
            )
    ]
  ]

  -- On a well formed table with descriptors to spare, `dup` returns a descriptor that was not open,
  -- with the entry of the old one, and keeps the table well formed; or it fails and changes
  -- nothing.
  pub dup_lem :
      (dir : Result Error E) (f : Fds hash_map) (fd : ℕ) (close_on_exec : Option Bool)
      → IsTable hash_map f
      → f.id_alloc.next < 2 ^ 31 - 1
      → ((e : Error) × (dup hash_map dir f fd close_on_exec ≡ (f, err e)))
        ⊎ ((fi : FdInfo E D) × (fresh : ℕ) × (f' : Fds hash_map) × (get_fi hash_map dir f fd
              ≡ ok fi)
            × (dup hash_map dir f fd close_on_exec ≡ (f', ok fresh))
            × (look fresh f.map ≡ none)
            × ((j : ℕ)
                → look j f'.map ≡ (
                    if fresh == j
                    then some (record fi {
                      close_on_exec = unwrap_or hash_map close_on_exec fi.close_on_exec;
                    })
                    else look j f.map))
            × IsTable hash_map f')
  unfolding dup
  dup_lem dir f fd close_on_exec t room = elim (Result-cases (get_fi hash_map dir f fd)) [
    | inl (e, missing) ↦ inl (e, rw (dup, missing) refl)
    | inr (fi, here) ↦
        let fi' = record fi { close_on_exec = unwrap_or hash_map close_on_exec fi.close_on_exec } in
        elim (open_fd_lem hash_map f fi' t room) [
          | inl (full, run) ↦ inl (emfile, rw (dup, here) run)
          | inr (free, fresh, f', run, closed, reads, t', same) ↦
              inr (fi, fresh, f', here, rw (dup, here) run, closed, reads, t')
        ]
  ]

  -- Where no number was returned, `dup3` to the next number opens it but leaves it free: an `open`
  -- that follows below the limit gives out the same number.
  pub dup3-open_fd :
      (dir : Result Error E) (f : Fds hash_map) (old flags : ℕ) (fi a : FdInfo E D)
      → f.id_alloc.reuse ≡ []
      → get_fi hash_map dir f old ≡ ok fi
      → (f' : Fds hash_map) × (dup3 hash_map dir f old f.id_alloc.next flags
          ≡ (f', ok f.id_alloc.next))
        × (look f.id_alloc.next f'.map
            ≡ some (record fi { close_on_exec = if flags == 0 then false else true }))
        × (len f'.map < f'.limit → (open_fd hash_map f' a).1 ≡ ok f.id_alloc.next)
  unfolding dup3 reopen open_fd alloc
  dup3-open_fd dir f old flags fi a none_left h =
      let fresh = f.id_alloc.next in
      let fi' = record fi { close_on_exec = if flags == 0 then false else true } in
      (
        record f { map = insert fresh fi' f.map },
        rw (dup3, h) refl,
        hash_map.get-insert fresh fresh fi' f.map ∙ ground arith,
        λ room.
            rw (open_fd, lt→leb f.limit (len (insert fresh fi' f.map)) room, alloc, none_left) refl,
      )
