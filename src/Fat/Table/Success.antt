-- ===== src/Fat/Table/Success.antt =====
-- On a device whose entries can be read and written, `set` and `set_range` succeed.
use umi.Base.{
  ℕ, zero, suc, ◌+◌, ◌*◌, ◌/◌, ◌^◌, ◌≤◌, ◌<◌, ◌≡◌, refl, List, [], ◌∷◌, ok, >>=-ok, length, arith,
  done, ap,
}
use Prim.Native.Nat.{bit_or}
use umi.Fat.Entry.{FatEntry, into_raw, raw_of}
use umi.Fat.Table.{
  Io, Fat, get, set, get_raw, offset, write_mirrors, write_words, fill, set_range, get_range_raw,
}
use umi.Fat.Table.Cells.{IsTable, IsCluster, offset_lem}

module _ (io : Io) (f : Fat) (t : IsTable f) where
  -- Every entry of every copy can be written.
  unfoldable pub Writable : Type 0
  Writable =
      (d : io.Disk) (n c w : ℕ)
      → n < f.mirrors
      → IsCluster f c
      → (e : io.Disk) × (io.write d (offset f n c) w ≡ ok e)

  write_words_ok :
      (d : io.Disk) (n c : ℕ) (ws : List ℕ)
      → Writable
      → n < f.mirrors
      → 2 ≤ c
      → c + length ws ≤ f.cluster_count + 2
      → (e : io.Disk) × (write_words io f d (offset f n c) ws ≡ ok e)
  unfolding Writable write_words IsTable
  write_words_ok d n c [] can hn lo hi = (d, refl)
  write_words_ok d n c (w ∷ ws) can hn lo hi =
      let (d1, first) = can d n c w hn (omega arith) in
      let step : offset f n c + 4 ≡ offset f n (suc c) =
        rw
          (
            offset_lem f n c t (omega arith) (omega arith),
            offset_lem f n (suc c) t (omega arith) (omega arith),
          )
          (omega arith) in
      let (e, rest) = write_words_ok d1 n (suc c) ws can hn (omega arith) (omega arith) in
      (e, rw (first, step, rest) refl)

  write_mirrors_ok :
      (k : ℕ) (d : io.Disk) (c : ℕ) (ws : List ℕ)
      → Writable
      → k ≤ f.mirrors
      → 2 ≤ c
      → c + length ws ≤ f.cluster_count + 2
      → (e : io.Disk) × (write_mirrors io f k d c ws ≡ ok e)
  unfolding write_mirrors
  write_mirrors_ok zero d c ws can le lo hi = (d, refl)
  write_mirrors_ok (suc k) d c ws can le lo hi =
      let (d1, before) = write_mirrors_ok k d c ws can (omega arith) lo hi in
      let (e, last) = write_words_ok d1 k c ws can (omega arith) lo hi in
      (e, rw (before, last) refl)

  into_raw_ok :
      (c old : ℕ) (entry : FatEntry)
      → c < f.cluster_count + 2
      → into_raw entry c old ≡ done (bit_or old (raw_of entry))
  unfolding into_raw IsTable
  into_raw_ok c old entry h = ground arith

  pub set_ok :
      (d : io.Disk) (c : ℕ) (entry old : FatEntry)
      → Writable
      → IsCluster f c
      → get io f d c ≡ ok old
      → (e : io.Disk) × (set io f d c entry ≡ ok e)
  unfolding set get
  set_ok d c entry old can hc got =
      let (raw, read, same) = >>=-ok (get_raw io f d c) _ got in
      let high = raw / 2 ^ 28 * 2 ^ 28 in
      let (e, written) =
        write_mirrors_ok f.mirrors d c (bit_or high (raw_of entry) ∷ []) can (omega arith) hc.0
          (omega arith) in
      (e, rw (read, into_raw_ok c high entry hc.1, written) refl)

  fill_ok :
      (c : ℕ) (raws : List ℕ) (es : List FatEntry)
      → c + length raws ≤ f.cluster_count + 2
      → (ws : List ℕ) × (fill c raws es ≡ ok ws) × (length ws ≡ length raws)
  unfolding fill
  fill_ok c [] es h = ([], refl, refl)
  fill_ok c (raw ∷ raws) [] h = (raw ∷ raws, refl, refl)
  fill_ok c (raw ∷ raws) (e ∷ es) h =
      let high = raw / 2 ^ 28 * 2 ^ 28 in
      let (ws, rest, len) = fill_ok (suc c) raws es (omega arith) in
      (bit_or high (raw_of e) ∷ ws, rw (into_raw_ok c high e (omega arith), rest) refl, ap suc len)

  pub set_range_ok :
      (d : io.Disk) (c n : ℕ) (raws : List ℕ) (es : List FatEntry)
      → Writable
      → 2 ≤ c
      → c + length raws ≤ f.cluster_count + 2
      → get_range_raw io f d c n ≡ ok raws
      → (e : io.Disk) × (set_range io f d c n es ≡ ok e)
  unfolding set_range
  set_range_ok d c n raws es can lo hi got =
      let (ws, filled, len) = fill_ok c raws es hi in
      let (e, written) = write_mirrors_ok f.mirrors d c ws can (omega arith) lo (omega arith) in
      (e, rw (got, filled, written) refl)
