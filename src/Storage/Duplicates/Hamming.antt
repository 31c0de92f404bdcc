-- ===== src/Storage/Duplicates/Hamming.antt =====
-- hammingDistance of internal/storage/bbolt.go and CompareImageHashes of
-- internal/scanner/hashing.go: the loop ends, and counts the places in which two words differ.
use Prim.Native.Nat.{bit_and, bit_xor, digits, differ, bit_and-bitwise, bit_xor-bitwise}
use photo_core.Base.{
  ℕ, zero, suc, ◌+◌, ◌-◌, ◌*◌, ◌/◌, ◌%◌, ◌^◌, ◌≤◌, ◌<◌, min, ◌≡◌, refl, eqb, arith, Bool-cases, inl,
  inr, ◌⊎◌, ◌∙◌, ap,
}
use native.Mathlib.Nat.{pow-suc}
use photo_core.Storage.Duplicates.{count_bits, hamming_distance}

-- The digit recursion does not depend on its count of digits to go.
digits_enough :
    (z : ℕ → ℕ) (f : ℕ → ℕ → ℕ) (n m a b : ℕ) → a ≤ n → a ≤ m → digits z f n a b ≡ digits z f m a b
digits_enough z f zero zero zero b p q = refl
digits_enough z f zero (suc m) zero b p q = refl
digits_enough z f (suc n) zero zero b p q = refl
digits_enough z f (suc n) (suc m) zero b p q = refl
digits_enough z f zero m (suc a) b p q = absurd (omega arith)
digits_enough z f (suc n) zero (suc a) b p q = absurd (omega arith)
digits_enough z f (suc n) (suc m) (suc a) b p q =
    ap (λ r. r * 2 + f (suc a % 2) (b % 2))
      (digits_enough z f n m (suc a / 2) (b / 2) (omega arith) (omega arith))

and_step : (x y : ℕ) → bit_and x y ≡ min (x % 2) (y % 2) + 2 * bit_and (x / 2) (y / 2)
and_step zero b = omega (arith, bit_and-bitwise 0 b, bit_and-bitwise 0 (b / 2))
and_step (suc a) b = omega (
  arith,
  digits_enough (λ b. zero) min a (suc a / 2) (suc a / 2) (b / 2) (omega arith) (omega arith),
  bit_and-bitwise (suc a / 2) (b / 2),
  bit_and-bitwise (suc a) b,
)

differ_digits : (x y : ℕ) → x < 2 → y < 2 → differ x y ≡ (x + y) % 2
differ_digits zero y p q = omega arith
differ_digits (suc zero) zero p q = refl
differ_digits (suc zero) (suc zero) p q = refl
differ_digits (suc zero) (suc (suc y)) p q = absurd (omega arith)
differ_digits (suc (suc x)) y p q = absurd (omega arith)

xor_step : (a b : ℕ) → bit_xor a b ≡ bit_xor (a / 2) (b / 2) * 2 + (a % 2 + b % 2) % 2
xor_step zero b = omega (arith, bit_xor-bitwise 0 b, bit_xor-bitwise 0 (b / 2))
xor_step (suc a) b = omega (
  arith,
  bit_xor-bitwise (suc a) b,
  bit_xor-bitwise (suc a / 2) (b / 2),
  differ_digits (suc a % 2) (b % 2) (omega arith) (omega arith),
  digits_enough (λ b. b) differ a (suc a / 2) (suc a / 2) (b / 2) (omega arith) (omega arith),
)

-- The ones among the lowest `w` digits.
unfoldable pub ones : ℕ → ℕ → ℕ
ones zero x = 0
ones (suc w) x = x % 2 + ones w (x / 2)

-- The places below `w` in which two words differ.
unfoldable pub differing : ℕ → ℕ → ℕ → ℕ
differing zero a b = 0
differing (suc w) a b = (a % 2 + b % 2) % 2 + differing w (a / 2) (b / 2)

ones-xor : (w a b : ℕ) → ones w (bit_xor a b) ≡ differing w a b
unfolding ones differing
ones-xor zero a b = refl
ones-xor (suc w) a b =
    let half : bit_xor a b / 2 ≡ bit_xor (a / 2) (b / 2) = omega (arith, xor_step a b) in
    rw half (omega (arith, xor_step a b, ones-xor w (a / 2) (b / 2)))

and_self : (n x : ℕ) → x ≤ n → bit_and x x ≡ x
and_self n zero h = bit_and-bitwise 0 0
and_self zero (suc x) h = absurd (omega arith)
and_self (suc n) (suc x) h =
    omega (arith, and_step (suc x) (suc x), and_self n (suc x / 2) (omega arith))

parity : (x : ℕ) → (x % 2 ≡ 0) ⊎ (x % 2 ≡ 1)
parity x = omega arith

clear_odd : (x : ℕ) → x % 2 ≡ 1 → bit_and x (x - 1) ≡ x / 2 * 2
clear_odd x odd =
    let same : (x - 1) / 2 ≡ x / 2 = omega arith in
    and_step x (x - 1) ∙ rw same (omega (arith, and_self (x / 2) (x / 2) (omega arith)))

clear_even : (x : ℕ) → x % 2 ≡ 0 → 0 < x → bit_and x (x - 1) ≡ bit_and (x / 2) (x / 2 - 1) * 2
clear_even x even p =
    let less : (x - 1) / 2 ≡ x / 2 - 1 = omega arith in and_step x (x - 1) ∙ rw less (omega arith)

clear-lt_fuel : (n x : ℕ) → x ≤ n → 0 < x → bit_and x (x - 1) < x
clear-lt_fuel zero x h p = absurd (omega arith)
clear-lt_fuel (suc n) x h p = elim (parity x) [
  | inl even ↦
      omega (arith, clear_even x even p, clear-lt_fuel n (x / 2) (omega arith) (omega arith))
  | inr odd ↦ omega (arith, clear_odd x odd)
]

-- `x & (x - 1)` is less than `x`.
clear-lt : (x : ℕ) → 0 < x → bit_and x (x - 1) < x
clear-lt x p = clear-lt_fuel x x (omega arith) p

-- `x & (x - 1)` has one 1 less than `x`.
ones-clear : (w x : ℕ) → 0 < x → x < 2 ^ w → ones w (bit_and x (x - 1)) + 1 ≡ ones w x
unfolding ones
ones-clear zero x p q = absurd (omega arith)
ones-clear (suc w) x p q = elim (parity x) [
  | inl even ↦
      let half : bit_and x (x - 1) / 2 ≡ bit_and (x / 2) (x / 2 - 1) =
        omega (arith, clear_even x even p) in
      rw half (
        omega (
          arith,
          clear_even x even p,
          ones-clear w (x / 2) (omega arith) (omega (arith, pow-suc 2 w)),
        ))
  | inr odd ↦
      let half : bit_and x (x - 1) / 2 ≡ x / 2 = omega (arith, clear_odd x odd) in
      rw half (omega (arith, clear_odd x odd))
]

ones-zero : (w : ℕ) → ones w 0 ≡ 0
unfolding ones
ones-zero zero = refl
ones-zero (suc w) = omega (arith, ones-zero w)

ones-le : (w x : ℕ) → ones w x ≤ w
unfolding ones
ones-le zero x = omega arith
ones-le (suc w) x = omega (arith, ones-le w (x / 2))

xor-lt : (w a b : ℕ) → a < 2 ^ w → b < 2 ^ w → bit_xor a b < 2 ^ w
xor-lt zero a b p q =
    let none_a : a ≡ 0 = omega arith in
    let none_b : b ≡ 0 = omega arith in rw (none_a, none_b) (omega (arith, bit_xor-bitwise 0 0))
xor-lt (suc w) a b p q = omega (
  arith,
  pow-suc 2 w,
  xor_step a b,
  xor-lt w (a / 2) (b / 2) (omega (arith, pow-suc 2 w)) (omega (arith, pow-suc 2 w)),
)

count_bits-ones :
    (fuel w x d : ℕ) → x < 2 ^ w → ones w x < fuel → count_bits fuel x d ≡ d + ones w x
unfolding count_bits
count_bits-ones zero w x d p q = absurd (omega arith)
count_bits-ones (suc fuel) w x d p q = elim (Bool-cases (eqb x 0)) [
  | inl done ↦
      let none_left : x ≡ 0 = ground arith in rw (done, none_left) (omega (arith, ones-zero w))
  | inr more ↦
      let pos : 0 < x = ground arith in
      rw more (
        omega (
          arith,
          ones-clear w x pos p,
          count_bits-ones fuel w (bit_and x (x - 1)) (d + 1) (omega (arith, clear-lt x pos))
              (omega (arith, ones-clear w x pos p)),
        ))
]

count_bits-differing :
    (w a b : ℕ) → a < 2 ^ w → b < 2 ^ w → count_bits (suc w) (bit_xor a b) 0 ≡ differing w a b
count_bits-differing w a b p q = omega (
  arith,
  ones-xor w a b,
  ones-le w (bit_xor a b),
  count_bits-ones (suc w) w (bit_xor a b) 0 (xor-lt w a b p q)
      (omega (arith, ones-le w (bit_xor a b))),
)

-- On two words of 64 bits the loop of hammingDistance ends within its fuel, and its result is the
-- number of places in which the words differ.
pub hamming_distance-differing :
    (a b : ℕ) → a < 2 ^ 64 → b < 2 ^ 64 → hamming_distance a b ≡ differing 64 a b
unfolding hamming_distance
hamming_distance-differing a b p q = count_bits-differing 64 a b p q
