-- ===== src/Base/Bits.antt =====
-- `|` and `&` at variables, one binary digit at a time and from a power of two up.
use Prim.Native.Nat.{min, max, digits, bitwise, bit_and-bitwise, bit_or-bitwise}
use Prim.Native.Nat.{ℕ, zero, suc, ◌+◌, ◌*◌, ◌/◌, ◌%◌, ◌^◌, ◌≤◌, ◌<◌, bit_and, bit_or}
use mathlib.Core.Path.{◌≡◌, refl, sym, ◌∙◌, ap}
use native.Mathlib.Nat.{div-div-eq-div-mul, pow-succ', div-one}
use native.Mathlib.Omega.{arith}

module _ (z : ℕ → ℕ) (f : ℕ → ℕ → ℕ) where
  -- The fuel of `digits` does not matter once it is enough.
  enough_digits : (n m a b : ℕ) → a ≤ n → a ≤ m → digits z f n a b ≡ digits z f m a b
  enough_digits zero zero a b p q = refl
  enough_digits zero (suc m) zero b p q = refl
  enough_digits zero (suc m) (suc a) b p q = absurd (omega arith)
  enough_digits (suc n) zero zero b p q = refl
  enough_digits (suc n) zero (suc a) b p q = absurd (omega arith)
  enough_digits (suc n) (suc m) zero b p q = refl
  enough_digits (suc n) (suc m) (suc a) b p q =
      rw (enough_digits n m (suc a / 2) (b / 2) (omega arith) (omega arith))

  bitwise_digit :
      (a b : ℕ)
      → bitwise z f (suc a) b ≡ bitwise z f (suc a / 2) (b / 2) * 2 + f (suc a % 2) (b % 2)
  bitwise_digit a b =
      omega (arith, enough_digits a (suc a / 2) (suc a / 2) (b / 2) (omega arith) (omega arith))

pub bit_or_digit : (a b : ℕ) → bit_or a b ≡ bit_or (a / 2) (b / 2) * 2 + max (a % 2) (b % 2)
bit_or_digit zero b = simp bit_or-bitwise (omega arith)
bit_or_digit (suc a) b = simp bit_or-bitwise (bitwise_digit (λ y. y) max a b)

pub bit_and_digit : (a b : ℕ) → bit_and a b ≡ bit_and (a / 2) (b / 2) * 2 + min (a % 2) (b % 2)
bit_and_digit zero b = simp bit_and-bitwise (omega arith)
bit_and_digit (suc a) b = simp bit_and-bitwise (bitwise_digit (λ y. 0) min a b)

-- Both operations act on each digit alone, so they commute with a shift to the right.
halves : (k a : ℕ) → a / 2 ^ suc k ≡ a / 2 / 2 ^ k
halves k a = ap (λ t. a / t) (pow-succ' 2 k) ∙ sym (div-div-eq-div-mul a 2 (2 ^ k))

pub bit_or-shift : (k a b : ℕ) → bit_or a b / 2 ^ k ≡ bit_or (a / 2 ^ k) (b / 2 ^ k)
bit_or-shift zero a b = rw (div-one a, div-one b, div-one (bit_or a b))
bit_or-shift (suc k) a b =
    let half : bit_or a b / 2 ≡ bit_or (a / 2) (b / 2) = omega (arith, bit_or_digit a b) in
    rw (halves k (bit_or a b), halves k a, halves k b, half) (bit_or-shift k (a / 2) (b / 2))

pub bit_or-zero : (n a : ℕ) → a ≤ n → bit_or a 0 ≡ a
bit_or-zero n zero h = refl
bit_or-zero zero (suc a) h = absurd (omega arith)
bit_or-zero (suc n) (suc a) h =
    omega (arith, bit_or_digit (suc a) 0, bit_or-zero n (suc a / 2) (omega arith))

pub bit_and-zero : (n a : ℕ) → a ≤ n → bit_and a 0 ≡ 0
bit_and-zero n zero h = refl
bit_and-zero zero (suc a) h = absurd (omega arith)
bit_and-zero (suc n) (suc a) h =
    omega (arith, bit_and_digit (suc a) 0, bit_and-zero n (suc a / 2) (omega arith))

-- The tests of one flag of a word.
pub bit_and_one : (a : ℕ) → bit_and a 1 ≡ a % 2
bit_and_one a = omega (arith, bit_and_digit a 1, bit_and-zero (a / 2) (a / 2) (omega arith))

pub bit_and_two : (a : ℕ) → bit_and a 2 ≡ 2 * (a / 2 % 2)
bit_and_two a = omega (arith, bit_and_digit a 2, bit_and_one (a / 2))

pub bit_and_three : (a : ℕ) → bit_and a 3 ≡ a % 4
bit_and_three a = omega (arith, bit_and_digit a 3, bit_and_one (a / 2))

pub bit_and_five : (a : ℕ) → bit_and a 5 ≡ 4 * (a / 4 % 2) + a % 2
bit_and_five a = omega (arith, bit_and_digit a 5, bit_and_two (a / 2))

-- A field above the low `k` bits survives an `|` with a smaller number.
pub bit_or-high : (k a b : ℕ) → b / 2 ^ k ≡ 0 → bit_or a b / 2 ^ k ≡ a / 2 ^ k
bit_or-high k a b h = bit_or-shift k a b ∙ rw h (bit_or-zero (a / 2 ^ k) (a / 2 ^ k) (omega arith))

pub bit_or-one_odd : (a : ℕ) → bit_or a 1 % 2 ≡ 1
bit_or-one_odd a = omega (arith, bit_or_digit a 1)

pub bit_or-one_half : (a : ℕ) → bit_or a 1 / 2 ≡ a / 2
bit_or-one_half a = bit_or-high 1 a 1 refl

-- A number of `k` digits is added to a multiple of `2 ^ k`.
pub bit_or-disjoint : (k q r : ℕ) → r < 2 ^ k → bit_or (q * 2 ^ k) r ≡ q * 2 ^ k + r
bit_or-disjoint zero q r h =
    let none_left : r ≡ 0 = omega arith in
    rw none_left (omega (arith, bit_or-zero (q * 1) (q * 1) (omega arith)))
bit_or-disjoint (suc k) q r h =
    let twice : q * 2 ^ suc k ≡ 2 * (q * 2 ^ k) =
      omega (arith, ap (λ (t : ℕ). q * t) (pow-succ' 2 k)) in
    let half : q * 2 ^ suc k / 2 ≡ q * 2 ^ k = omega (arith, twice) in
    omega (
      arith,
      twice,
      bit_or_digit (q * 2 ^ suc k) r,
      ap (λ (t : ℕ). bit_or t (r / 2)) half,
      bit_or-disjoint k q (r / 2) (omega (arith, pow-succ' 2 k)),
    )

bit_or_zero_left : (b : ℕ) → bit_or 0 b ≡ b
bit_or_zero_left b = simp bit_or-bitwise

pub bit_or_comm : (n a b : ℕ) → a ≤ n → bit_or a b ≡ bit_or b a
bit_or_comm zero zero b le = bit_or_zero_left b ∙ sym (bit_or-zero b b (omega arith))
bit_or_comm zero (suc a) b le = absurd (omega arith)
bit_or_comm (suc n) a b le =
    omega (arith, bit_or_digit a b, bit_or_digit b a, bit_or_comm n (a / 2) (b / 2) (omega arith))

pub bit_and-shift : (k a b : ℕ) → bit_and a b / 2 ^ k ≡ bit_and (a / 2 ^ k) (b / 2 ^ k)
bit_and-shift zero a b =
    div-one (bit_and a b)
    ∙ ap (λ (t : ℕ). bit_and t b) (sym (div-one a))
    ∙ ap (bit_and (a / 1)) (sym (div-one b))
bit_and-shift (suc k) a b =
    let half : bit_and a b / 2 ≡ bit_and (a / 2) (b / 2) = omega (arith, bit_and_digit a b) in
    rw (halves k (bit_and a b), halves k a, halves k b, half) (bit_and-shift k (a / 2) (b / 2))

pub bit_and_fifteen : (a : ℕ) → bit_and a 15 ≡ a % 16
bit_and_fifteen a =
    omega (arith, bit_and_digit a 15, bit_and_digit (a / 2) 7, bit_and_three (a / 2 / 2))
