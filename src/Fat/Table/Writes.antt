-- ===== src/Fat/Table/Writes.antt =====
-- What a write of consecutive words does to the entries of every copy of the table.
use umi.Base.{
  ℕ, zero, suc, ◌+◌, ◌^◌, ◌≤◌, ◌<◌, ◌≡◌, ◌≢◌, ◌⊎◌, inl, inr, List, [], ◌∷◌, ltb, ◌==◌,
  if◌then◌else◌, Result, ok, >>=-ok, length, All, arith, refl,
}
use umi.Fat.Table.{Error, Io, Fat, offset, write_words, write_mirrors}
use umi.Fat.Table.Cells.{IsTable, IsCluster, offset_lem, offset_apart}

-- The word of a cluster after consecutive words were put at a start, from the word before.
module _ {A : Type 0} where
  unfoldable pub over : ℕ → List A → ℕ → Result Error A → Result Error A
  over start [] c r = r
  over start (w ∷ ws) c r = if start == c then ok w else over (suc start) ws c r

  pub over_before :
      (start : ℕ) (ws : List A) (c : ℕ) (r : Result Error A) → c < start → over start ws c r ≡ r
  unfolding over
  over_before start [] c r h = refl
  over_before start (w ∷ ws) c r h = ground (arith, over_before (suc start) ws c r)

  pub over_behind :
      (start : ℕ) (ws : List A) (c : ℕ) (r : Result Error A)
      → start + length ws ≤ c
      → over start ws c r ≡ r
  unfolding over
  over_behind start [] c r h = refl
  over_behind start (w ∷ ws) c r h = ground (arith, over_behind (suc start) ws c r (omega arith))

module _ (io : Io) (f : Fat) (t : IsTable f) where
  unfoldable pub Cells :
      (e d : io.Disk) (change : (n c : ℕ) → Result Error ℕ → Result Error ℕ) → Type 0
  Cells e d change =
      (n c : ℕ)
      → n < f.mirrors
      → IsCluster f c
      → io.read e (offset f n c) ≡ change n c (io.read d (offset f n c))

  write_cell :
      (d e : io.Disk) (m start w : ℕ)
      → m < f.mirrors
      → IsCluster f start
      → w < 2 ^ 32
      → io.write d (offset f m start) w ≡ ok e
      → Cells e d (λ n c r. if n == m then (if start == c then ok w else r) else r)
  unfolding Cells
  write_cell d e m start w hm hs hw h n c hn hc =
      let apart = λ (o : (m ≢ n) ⊎ (start ≢ c)).
        io.read-write_apart d e (offset f m start) (offset f n c) w
          (offset_apart f m n start c t hm hn hs hc o) h in
      let here : m ≡ n → start ≡ c → io.read e (offset f n c) ≡ ok w =
        λ p q. rw (← p, ← q) (io.read-write d e (offset f m start) w hw h) in
      let other_copy : m ≢ n → io.read e (offset f n c) ≡ io.read d (offset f n c) =
        λ o. apart (inl o) in
      let other_cluster : start ≢ c → io.read e (offset f n c) ≡ io.read d (offset f n c) =
        λ o. apart (inr o) in
      ground (arith, here, other_copy, other_cluster)

  write_words-Cells :
      (d e : io.Disk) (m start : ℕ) (ws : List ℕ)
      → m < f.mirrors
      → 2 ≤ start
      → start + length ws ≤ f.cluster_count + 2
      → All (λ w. w < 2 ^ 32) ws
      → write_words io f d (offset f m start) ws ≡ ok e
      → Cells e d (λ n c r. if n == m then over start ws c r else r)
  unfolding Cells write_words over IsTable
  write_words-Cells d e m start [] hm lo hi hw h n c hn hc = let same : d ≡ e = cc in ground (arith)
  write_words-Cells d e m start (w ∷ ws) hm lo hi hw h n c hn hc =
      let (d1, first, rest) = >>=-ok (io.write d (offset f m start) w) _ h in
      let step : offset f m start + 4 ≡ offset f m (suc start) =
        rw
          (
            offset_lem f m start t (omega arith) (omega arith),
            offset_lem f m (suc start) t (omega arith) (omega arith),
          )
          (omega arith) in
      let cell = write_cell d d1 m start w hm (omega arith) hw.0 first n c hn hc in
      let tail =
        write_words-Cells d1 e m (suc start) ws hm (omega arith) (omega arith) hw.1
          (rw (← step) rest) n c hn hc in
      let before : start ≡ c → over (suc start) ws c (ok w) ≡ ok w =
        λ q. over_before (suc start) ws c (ok w) (omega arith) in
      rw (tail, cell) (ground (arith, before))

  -- Every copy has the words, and nothing else changes.
  pub write_mirrors-Cells :
      (k : ℕ) (d e : io.Disk) (start : ℕ) (ws : List ℕ)
      → k ≤ f.mirrors
      → 2 ≤ start
      → start + length ws ≤ f.cluster_count + 2
      → All (λ w. w < 2 ^ 32) ws
      → write_mirrors io f k d start ws ≡ ok e
      → Cells e d (λ n c r. if ltb n k then over start ws c r else r)
  unfolding Cells write_mirrors
  write_mirrors-Cells zero d e start ws hk lo hi hw h n c hn hc =
      let same : d ≡ e = cc in ground arith
  write_mirrors-Cells (suc k) d e start ws hk lo hi hw h n c hn hc =
      let (d1, first, rest) = >>=-ok (write_mirrors io f k d start ws) _ h in
      let before = write_mirrors-Cells k d d1 start ws (omega arith) lo hi hw first n c hn hc in
      let last = write_words-Cells d1 e k start ws (omega arith) lo hi hw rest n c hn hc in
      rw (last, before) (ground arith)
