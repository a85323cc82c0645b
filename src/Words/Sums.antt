-- ===== src/Words/Sums.antt =====
-- A word whose low and high bits come from two numbers: `|` is their sum.
use Prim.Native.Nat.{bit_or}
use umi.Base.{
  ℕ, zero, suc, ◌+◌, ◌-◌, ◌*◌, ◌/◌, ◌%◌, ◌^◌, ◌<◌, ◌≡◌, sym, ap, ◌∙◌, ◌==◌, ltb, if◌then◌else◌,
  arith, le_or_lt, inl, inr,
}
use native.Mathlib.Nat.{pow-suc, mul_assoc}
use umi.Words.{bit}
use umi.Words.Laws.{bit-or, bit_beyond, bit_or-lt, bit_zero}

-- Two words are equal if their bits are.
pub eq_of_bits : (w x y : ℕ) → x < 2 ^ w → y < 2 ^ w → ((k : ℕ) → k < w → bit x k ≡ bit y k) → x ≡ y
unfolding bit
eq_of_bits zero x y h g same = omega arith
eq_of_bits (suc w) x y h g same =
    let parity : (x % 2 == 1) ≡ (y % 2 == 1) = same 0 (omega arith) in
    let half : x / 2 ≡ y / 2 =
      eq_of_bits w (x / 2) (y / 2) (omega (arith, pow-suc 2 w)) (omega (arith, pow-suc 2 w))
        (λ k q. same (suc k) (omega arith)) in
    ground arith

times_pow : (k a : ℕ) → a * 2 ^ suc k ≡ a * 2 ^ k * 2
times_pow k a = ap (λ (x : ℕ). a * x) (pow-suc 2 k) ∙ sym (mul_assoc a (2 ^ k) 2)

pub bit-add :
    (k a b j : ℕ) → b < 2 ^ k → bit (a * 2 ^ k + b) j ≡ (if ltb j k then bit b j else bit a (j - k))
unfolding bit
bit-add zero a b j h = let same : a * 2 ^ 0 + b ≡ a = omega arith in rw same (ground arith)
bit-add (suc k) a b zero h = ground (arith, times_pow k a)
bit-add (suc k) a b (suc j) h =
    let half : (a * 2 ^ suc k + b) / 2 ≡ a * 2 ^ k + b / 2 = omega (arith, times_pow k a) in
    rw half (ground (arith, bit-add k a (b / 2) j (omega (arith, pow-suc 2 k))))

-- Of a multiple of `2 ^ k` and a number below it, `|` is the sum.
pub bit_or-add :
    (w k a b : ℕ) → b < 2 ^ k → a * 2 ^ k + b < 2 ^ w → bit_or (a * 2 ^ k) b ≡ a * 2 ^ k + b
bit_or-add w k a b h room =
    eq_of_bits w (bit_or (a * 2 ^ k) b) (a * 2 ^ k + b)
      (bit_or-lt w (a * 2 ^ k) b (omega arith) (omega arith)) room
      (λ j near.
        let alone : a * 2 ^ k + 0 ≡ a * 2 ^ k = omega arith in
        let high : bit (a * 2 ^ k) j ≡ (if ltb j k then bit 0 j else bit a (j - k)) =
          ap (λ (x : ℕ). bit x j) (sym alone) ∙ bit-add k a 0 j (omega arith) in
        elim (le_or_lt k j) [
          | inl above ↦
              ground (arith, bit-or (a * 2 ^ k) b j, bit-add k a b j h, bit_beyond k b j h above)
          | inr below ↦ ground (arith, bit-or (a * 2 ^ k) b j, bit-add k a b j h, bit_zero j)
        ])
