-- ===== src/Fat/Memory.antt =====
-- A device in memory for the runs of the table: the words that were written, the latest first; all
-- else is zero.
use umi.Base.{
  ℕ, ◌+◌, ◌%◌, ◌^◌, ◌≤◌, ◌<◌, ◌≡◌, ◌⊎◌, List, [], ◌∷◌, ◌==◌, if◌then◌else◌, Result, ok, arith,
}
use umi.Fat.Table.{Error, Io}

unfoldable pub word_at : ℕ → List (ℕ × ℕ) → ℕ
word_at o [] = 0
word_at o ((p, w) ∷ d) = if p == o then w % 2 ^ 32 else word_at o d

pub word_at-lt : (o : ℕ) (d : List (ℕ × ℕ)) → word_at o d < 2 ^ 32
unfolding word_at
word_at-lt o [] = omega arith
word_at-lt o ((p, w) ∷ d) = ground (arith, word_at-lt o d)

pub read_back :
    (d e : List (ℕ × ℕ)) (o w : ℕ)
    → w < 2 ^ 32
    → ◌≡◌ {A = Result Error (List (ℕ × ℕ))} (ok ((o, w) ∷ d)) (ok e)
    → ◌≡◌ {A = Result Error ℕ} (ok (word_at o e)) (ok w)
unfolding word_at
read_back d e o w small h = let same : (o, w) ∷ d ≡ e = cc in rw (← same) (ground arith)

pub read_apart :
    (d e : List (ℕ × ℕ)) (o p w : ℕ)
    → (o + 4 ≤ p) ⊎ (p + 4 ≤ o)
    → ◌≡◌ {A = Result Error (List (ℕ × ℕ))} (ok ((o, w) ∷ d)) (ok e)
    → ◌≡◌ {A = Result Error ℕ} (ok (word_at p e)) (ok (word_at p d))
unfolding word_at
read_apart d e o p w apart h = let same : (o, w) ∷ d ≡ e = cc in rw (← same) (ground arith)

pub read_small :
    (d : List (ℕ × ℕ)) (o w : ℕ) → ◌≡◌ {A = Result Error ℕ} (ok (word_at o d)) (ok w) → w < 2 ^ 32
read_small d o w h = let same : word_at o d ≡ w = cc in omega (arith, word_at-lt o d)

abbrev pub memory : Io
memory = record {
  Disk = List (ℕ × ℕ);
  read = λ d o. ok (word_at o d);
  write = λ d o w. ok ((o, w) ∷ d);
  read_word = read_small;
  read-write = read_back;
  read-write_apart = read_apart;
}
