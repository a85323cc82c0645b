-- ===== src/Words/Laws.antt =====
-- The laws of bits.
use Prim.Native.Nat.{bit_and, bit_or, digits, min, max, bit_and-bitwise, bit_or-bitwise}
use native.Mathlib.Nat.{pow-suc}
use umi.Base.{
  ℕ, zero, suc, ◌+◌, ◌-◌, ◌*◌, ◌/◌, ◌%◌, ◌^◌, ◌≤◌, ◌<◌, ◌≡◌, ◌≢◌, refl, true, false, ◌==◌, ◌&&◌,
  ◌||◌, not, if◌then◌else◌, arith,
}
use umi.Words.{bit, complement, trailing_zeros}

pub bit_zero : (k : ℕ) → bit 0 k ≡ false
unfolding bit
bit_zero zero = refl
bit_zero (suc k) = bit_zero k

bit-digits_or : (n a b k : ℕ) → a ≤ n → bit (digits (λ y. y) max n a b) k ≡ (bit a k || bit b k)
unfolding bit
bit-digits_or zero zero b k h = rw (bit_zero k)
bit-digits_or zero (suc a) b k h = absurd (omega arith)
bit-digits_or (suc n) zero b k h = rw (bit_zero k)
bit-digits_or (suc n) (suc a) b zero h = ground arith
bit-digits_or (suc n) (suc a) b (suc k) h =
    let rest = digits (λ y. y) max n (suc a / 2) (b / 2) in
    let half : (rest * 2 + max (suc a % 2) (b % 2)) / 2 ≡ rest = omega arith in
    rw half (bit-digits_or n (suc a / 2) (b / 2) k (omega arith))

bit-digits_and : (n a b k : ℕ) → a ≤ n → bit (digits (λ y. 0) min n a b) k ≡ (bit a k && bit b k)
unfolding bit
bit-digits_and zero zero b k h = rw (bit_zero k)
bit-digits_and zero (suc a) b k h = absurd (omega arith)
bit-digits_and (suc n) zero b k h = rw (bit_zero k)
bit-digits_and (suc n) (suc a) b zero h = ground arith
bit-digits_and (suc n) (suc a) b (suc k) h =
    let rest = digits (λ y. 0) min n (suc a / 2) (b / 2) in
    let half : (rest * 2 + min (suc a % 2) (b % 2)) / 2 ≡ rest = omega arith in
    rw half (bit-digits_and n (suc a / 2) (b / 2) k (omega arith))

pub bit-or : (a b k : ℕ) → bit (bit_or a b) k ≡ (bit a k || bit b k)
bit-or a b k = rw bit_or-bitwise (bit-digits_or a a b k (omega arith))

pub bit-and : (a b k : ℕ) → bit (bit_and a b) k ≡ (bit a k && bit b k)
bit-and a b k = rw bit_and-bitwise (bit-digits_and a a b k (omega arith))

pub pow_pos : (n : ℕ) → 0 < 2 ^ n
pow_pos zero = omega arith
pow_pos (suc n) = omega (arith, pow_pos n, pow-suc 2 n)

-- A power of two is one bit.
pub bit-pow : (i k : ℕ) → bit (2 ^ i) k ≡ (i == k)
unfolding bit
bit-pow zero zero = refl
bit-pow zero (suc k) = ground (arith, bit_zero k)
bit-pow (suc i) zero = ground (arith, pow-suc 2 i)
bit-pow (suc i) (suc k) =
    let half : 2 ^ suc i / 2 ≡ 2 ^ i = omega (arith, pow-suc 2 i) in
    rw half (ground (arith, bit-pow i k))

-- The bits of the complement, within the width.
pub bit-complement : (w x k : ℕ) → x < 2 ^ w → k < w → bit (complement w x) k ≡ not (bit x k)
unfolding bit
bit-complement zero x k h p = absurd (omega arith)
bit-complement (suc w) x zero h p = ground (arith, pow-suc 2 w, pow_pos w)
bit-complement (suc w) x (suc k) h p =
    let half : complement (suc w) x / 2 ≡ complement w (x / 2) = omega (arith, pow-suc 2 w) in
    rw half (bit-complement w (x / 2) k (omega (arith, pow-suc 2 w)) (omega arith))

-- A word has no bits beyond its width.
pub bit_beyond : (w x k : ℕ) → x < 2 ^ w → w ≤ k → bit x k ≡ false
unfolding bit
bit_beyond zero x k h p = let none_set : x ≡ 0 = omega arith in rw none_set (bit_zero k)
bit_beyond (suc w) x zero h p = absurd (omega arith)
bit_beyond (suc w) x (suc k) h p = bit_beyond w (x / 2) k (omega (arith, pow-suc 2 w)) (omega arith)

-- A word is zero exactly if it has no bit.
pub zero_of_bits : (w x : ℕ) → x < 2 ^ w → ((k : ℕ) → k < w → bit x k ≡ false) → x ≡ 0
unfolding bit
zero_of_bits zero x h p = omega arith
zero_of_bits (suc w) x h p =
    let even : (x % 2 == 1) ≡ false = p 0 (omega arith) in
    let half : x / 2 ≡ 0 =
      zero_of_bits w (x / 2) (omega (arith, pow-suc 2 w)) (λ k q. p (suc k) (omega arith)) in
    ground arith

pub pow-le_of_bit : (x i : ℕ) → bit x i ≡ true → 2 ^ i ≤ x
unfolding bit
pow-le_of_bit x zero h = ground arith
pow-le_of_bit x (suc i) h = omega (arith, pow-suc 2 i, pow-le_of_bit (x / 2) i h)

-- Subtracting a power of two whose bit is set clears that bit.
pub bit-sub-pow :
    (x i k : ℕ) → bit x i ≡ true → bit (x - 2 ^ i) k ≡ (if i == k then false else bit x k)
unfolding bit
bit-sub-pow x zero zero h = ground arith
bit-sub-pow x zero (suc k) h =
    let half : (x - 1) / 2 ≡ x / 2 = ground arith in rw half (ground arith)
bit-sub-pow x (suc i) zero h = ground (arith, pow-suc 2 i, pow-le_of_bit (x / 2) i h)
bit-sub-pow x (suc i) (suc k) h =
    let half : (x - 2 ^ suc i) / 2 ≡ x / 2 - 2 ^ i =
      omega (arith, pow-suc 2 i, pow-le_of_bit (x / 2) i h) in
    rw half (ground (arith, bit-sub-pow (x / 2) i k h))

-- The lowest bit of a word that is not zero.
pub bit-trailing_zeros :
    (w x : ℕ) → x < 2 ^ w → x ≢ 0 → (bit x (trailing_zeros w x) ≡ true) × (trailing_zeros w x < w)
unfolding bit trailing_zeros
bit-trailing_zeros zero x h p = absurd (p (omega arith))
bit-trailing_zeros (suc w) x h p = ground (arith, pow-suc 2 w, bit-trailing_zeros w (x / 2))

pub bit_below_trailing_zeros : (w x k : ℕ) → k < trailing_zeros w x → bit x k ≡ false
unfolding bit trailing_zeros
bit_below_trailing_zeros zero x k h = absurd (omega arith)
bit_below_trailing_zeros (suc w) x zero h = ground arith
bit_below_trailing_zeros (suc w) x (suc k) h = ground (arith, bit_below_trailing_zeros w (x / 2) k)

digits_and_le : (n a b : ℕ) → a ≤ n → digits (λ y. 0) min n a b ≤ a
digits_and_le zero a b h = omega arith
digits_and_le (suc n) zero b h = omega arith
digits_and_le (suc n) (suc a) b h = omega (arith, digits_and_le n (suc a / 2) (b / 2) (omega arith))

pub bit_and-le : (a b : ℕ) → bit_and a b ≤ a
bit_and-le a b = rw bit_and-bitwise (digits_and_le a a b (omega arith))

digits_or_lt : (w n a b : ℕ) → a ≤ n → a < 2 ^ w → b < 2 ^ w → digits (λ y. y) max n a b < 2 ^ w
digits_or_lt w zero a b h p q = q
digits_or_lt w (suc n) zero b h p q = q
digits_or_lt zero (suc n) (suc a) b h p q = absurd (omega arith)
digits_or_lt (suc w) (suc n) (suc a) b h p q = omega (
  arith,
  pow-suc 2 w,
  digits_or_lt w n (suc a / 2) (b / 2) (omega arith) (omega (arith, pow-suc 2 w))
      (omega (arith, pow-suc 2 w)),
)

pub bit_or-lt : (w a b : ℕ) → a < 2 ^ w → b < 2 ^ w → bit_or a b < 2 ^ w
bit_or-lt w a b p q = rw bit_or-bitwise (digits_or_lt w a a b (omega arith) p q)

pub pow_lt : (i w : ℕ) → i < w → 2 ^ i < 2 ^ w
pow_lt zero zero h = absurd (omega arith)
pow_lt zero (suc w) h = omega (arith, pow-suc 2 w, pow_pos w)
pow_lt (suc i) zero h = absurd (omega arith)
pow_lt (suc i) (suc w) h = omega (arith, pow-suc 2 w, pow-suc 2 i, pow_lt i w (omega arith))
