-- ===== src/Fat/Table/Updates.antt =====
-- What `set` and `set_range` do to the entries, and that they keep the copies of the table equal.
use umi.Base.{
  ℕ, zero, suc, ◌+◌, ◌-◌, ◌*◌, ◌/◌, ◌%◌, ◌^◌, ◌≤◌, ◌<◌, ◌≡◌, List, [], ◌∷◌, ◌==◌, if◌then◌else◌,
  Result, ok, ◌>>=◌, >>=-ok, length, All, arith, refl, sym, ◌∙◌, ap, Run, done, panic, min,
}
use umi.Fat.Entry.{FatEntry, IsEntry, from_raw, into_raw, from_raw-into_raw}
use umi.Fat.Table.{
  Error, Io, Fat, offset, get_raw, get, set, run, fill, get_range_raw, set_range, read_words,
  write_mirrors,
}
use umi.Fat.Table.Cells.{IsTable, IsCluster, allocable_end_lem}
use umi.Fat.Table.Writes.{Cells, over, write_mirrors-Cells}

unfoldable pub entry_of : ℕ → Result Error ℕ → Result Error FatEntry
entry_of c r = r >>= λ raw. ok (from_raw raw c)

run-ok : {A : Type 0} (r : Run A) (a : A) → run r ≡ ok a → r ≡ done a
run-ok (done b) a h = let same : b ≡ a = cc in cc
run-ok panic a h = absurd (cc)

fill_words :
    (c : ℕ) (raws : List ℕ) (es : List FatEntry) (ws : List ℕ)
    → c + length raws ≤ 268435447
    → All (λ w. w < 2 ^ 32) raws
    → All IsEntry es
    → length es ≡ length raws
    → fill c raws es ≡ ok ws
    → All (λ w. w < 2 ^ 32) ws
      × (length ws ≡ length raws)
      × ((k : ℕ) (r : Result Error ℕ) → entry_of k (over c ws k r) ≡ over c es k (entry_of k r))
unfolding fill over entry_of
fill_words c [] [] ws room words valid same h =
    let none : ws ≡ [] = cc in rw none (tt, refl, λ k r. refl)
fill_words c [] (e ∷ es) ws room words valid same h = absurd (omega arith)
fill_words c (raw ∷ raws) [] ws room words valid same h = absurd (omega arith)
fill_words c (raw ∷ raws) (e ∷ es) ws room words valid same h =
    let (w, one, more) = >>=-ok (run (into_raw e c (raw / 2 ^ 28 * 2 ^ 28))) _ h in
    let (rest, tail, last) = >>=-ok (fill (suc c) raws es) _ more in
    let (t, l, g) =
      fill_words (suc c) raws es rest (omega arith) words.1 valid.1 (omega arith) tail in
    let read = from_raw-into_raw e c raw w valid.0 (omega arith) words.0 (run-ok _ w one) in
    let here : ws ≡ w ∷ rest = cc in
    let found : (k : ℕ) → c ≡ k → from_raw w k ≡ e = λ k q. rw (← q) read.0 in
    rw here ((read.2, t), ap suc l, λ k r. ground (arith, g k r, found k))

module _ (io : Io) (f : Fat) (t : IsTable f) where
  pub get_lem :
      (d : io.Disk) (c : ℕ) → IsCluster f c → get io f d c ≡ entry_of c (io.read d (offset f 0 c))
  unfolding get get_raw entry_of
  get_lem d c hc = rw (allocable_end_lem f t) (ground arith)

  pub read_words-All :
      (d : io.Disk) (o n : ℕ) (ws : List ℕ)
      → read_words io f d o n ≡ ok ws
      → All (λ w. w < 2 ^ 32) ws × (length ws ≡ n)
  unfolding read_words
  read_words-All d o zero ws h = let none : ws ≡ [] = cc in rw none (tt, refl)
  read_words-All d o (suc n) ws h =
      let (w, one, more) = >>=-ok (io.read d o) _ h in
      let (rest, tail, last) = >>=-ok (read_words io f d (o + 4) n) _ more in
      let (all, len) = read_words-All d (o + 4) n rest tail in
      let here : ws ≡ w ∷ rest = cc in rw here ((io.read_word d o w one, all), ap suc len)

  pub get_range_raw_lem :
      (d : io.Disk) (start len : ℕ)
      → start + len ≤ f.cluster_count + 2
      → get_range_raw io f d start len ≡ read_words io f d (offset f 0 start) len
  unfolding get_range_raw read_words IsTable
  get_range_raw_lem d start zero h = rw (allocable_end_lem f t) (ground arith)
  get_range_raw_lem d start (suc len) h =
      let all : min ((start + suc len) % 2 ^ 32) (f.cluster_count + 2) - start ≡ suc len =
        omega arith in
      rw (allocable_end_lem f t, all) (ground arith)

  -- The copies of the table are equal.
  unfoldable pub Agree : io.Disk → Type 0
  Agree d =
      (n c : ℕ)
      → n < f.mirrors
      → IsCluster f c
      → io.read d (offset f n c) ≡ io.read d (offset f 0 c)

  write_mirrors-Agree :
      (d e : io.Disk) (start : ℕ) (ws : List ℕ)
      → 2 ≤ start
      → start + length ws ≤ f.cluster_count + 2
      → All (λ w. w < 2 ^ 32) ws
      → write_mirrors io f f.mirrors d start ws ≡ ok e
      → Agree d
      → Agree e
  unfolding Agree Cells IsTable
  write_mirrors-Agree d e start ws lo hi words h g n c hn hc =
      let cells = write_mirrors-Cells io f t f.mirrors d e start ws (omega arith) lo hi words h in
      rw (cells n c hn hc, cells 0 c (omega arith) hc, g n c hn hc) (ground arith)

  write_mirrors-get :
      (d e : io.Disk) (start : ℕ) (ws : List ℕ)
      → 2 ≤ start
      → start + length ws ≤ f.cluster_count + 2
      → All (λ w. w < 2 ^ 32) ws
      → write_mirrors io f f.mirrors d start ws ≡ ok e
      → (c : ℕ) → IsCluster f c
      → get io f e c ≡ entry_of c (over start ws c (io.read d (offset f 0 c)))
  unfolding Cells IsTable
  write_mirrors-get d e start ws lo hi words h c hc =
      let cells = write_mirrors-Cells io f t f.mirrors d e start ws (omega arith) lo hi words h in
      get_lem e c hc ∙ ap (entry_of c) (cells 0 c (omega arith) hc ∙ ground arith)

  -- A range of entries inside the table that `set_range` sets is read back entry by entry, every
  -- other entry is what it was, and copies of the table that were equal still are.
  pub get-set_range :
      (d e : io.Disk) (start : ℕ) (es : List FatEntry)
      → 2 ≤ start
      → start + length es ≤ f.cluster_count + 2
      → All IsEntry es
      → set_range io f d start (length es) es ≡ ok e
      → ((c : ℕ) → IsCluster f c → get io f e c ≡ over start es c (get io f d c))
        × (Agree d → Agree e)
  unfolding set_range IsTable
  get-set_range d e start es lo hi valid h =
      let (raws, read, more) = >>=-ok (get_range_raw io f d start (length es)) _ h in
      let (ws, filled, written) = >>=-ok (fill start raws es) _ more in
      let (words, len) =
        read_words-All d (offset f 0 start) (length es) raws
          (sym (get_range_raw_lem d start (length es) hi) ∙ read) in
      let (all, same, cells) =
        fill_words start raws es ws (omega arith) words valid (sym len) filled in
      (
        λ c hc.
            write_mirrors-get d e start ws lo (omega arith) all written c hc
            ∙ cells c (io.read d (offset f 0 c))
            ∙ ap (over start es c) (sym (get_lem d c hc)),
        write_mirrors-Agree d e start ws lo (omega arith) all written,
      )

  -- An entry that is set is read back, and every other entry is what it was.
  pub get-set :
      (d e : io.Disk) (c : ℕ) (entry : FatEntry)
      → IsCluster f c
      → IsEntry entry
      → set io f d c entry ≡ ok e
      → ((k : ℕ) → IsCluster f k → get io f e k ≡ (if c == k then ok entry else get io f d k))
        × (Agree d → Agree e)
  unfolding set get_raw IsTable over entry_of
  get-set d e c entry hc valid h =
      let (old, read, more) = >>=-ok (get_raw io f d c) _ h in
      let (w, made, written) = >>=-ok (run (into_raw entry c (old / 2 ^ 28 * 2 ^ 28))) _ more in
      let word = io.read_word d (offset f 0 c) old (ground (arith, allocable_end_lem f t)) in
      let back = from_raw-into_raw entry c old w valid (omega arith) word (run-ok _ w made) in
      let found : (k : ℕ) → c ≡ k → from_raw w k ≡ entry = λ k q. rw (← q) back.0 in
      (
        λ k hk.
            write_mirrors-get d e c (w ∷ []) hc.0 (omega arith) (back.2, tt) written k hk
            ∙ ground (arith, found k, get_lem d k hk),
        write_mirrors-Agree d e c (w ∷ []) hc.0 (omega arith) (back.2, tt) written,
      )
