-- ===== src/Base/Bits.antt =====
-- Bit laws at every width: `|` of disjoint fields, `&` with a low mask, and what holds of a set of
-- flags joined with another.
use Prim.Native.Nat.{ℕ, zero, suc, ◌+◌, ◌-◌, ◌*◌, ◌/◌, ◌%◌, ◌^◌, ◌≤◌, ◌<◌, min, max}
use Prim.Native.Nat.{bit_and, bit_or, digits, bitwise, bit_and-bitwise, bit_or-bitwise}
use mathlib.Core.Path.{◌≡◌, refl, sym, ap, ◌∙◌}
use native.Mathlib.Nat.{pow-suc, one-le-pow}
use native.Mathlib.Omega.{arith}

-- Induction on the binary digits.
halving : (P : ℕ → Type 0) → P 0 → ((a : ℕ) → P (suc a / 2) → P (suc a)) → (n a : ℕ) → a ≤ n → P a
halving P base step n zero h = base
halving P base step zero (suc a) h = absurd (omega arith)
halving P base step (suc n) (suc a) h = step a (halving P base step n (suc a / 2) (omega arith))

module _ (z : ℕ → ℕ) (f : ℕ → ℕ → ℕ) where
  digits-zero : (i : ℕ) (b : ℕ) → digits z f i 0 b ≡ z b
  digits-zero zero b = refl
  digits-zero (suc i) b = refl

  -- The result does not depend on the fuel, if there is enough.
  fuel_irrelevant : (i j a b : ℕ) → a ≤ i → a ≤ j → digits z f i a b ≡ digits z f j a b
  fuel_irrelevant i j zero b hi hj = rw (digits-zero i b, digits-zero j b)
  fuel_irrelevant zero j (suc a) b hi hj = absurd (omega arith)
  fuel_irrelevant (suc i) zero (suc a) b hi hj = absurd (omega arith)
  fuel_irrelevant (suc i) (suc j) (suc a) b hi hj =
      ap (λ d. d * 2 + f (suc a % 2) (b % 2))
        (fuel_irrelevant i j (suc a / 2) (b / 2) (omega arith) (omega arith))

  lowest_digit :
      (a b : ℕ)
      → bitwise z f (suc a) b ≡ bitwise z f (suc a / 2) (b / 2) * 2 + f (suc a % 2) (b % 2)
  lowest_digit a b =
      ap (λ d. d * 2 + f (suc a % 2) (b % 2))
        (fuel_irrelevant a (suc a / 2) (suc a / 2) (b / 2) (omega arith) (omega arith))

zero-bit_or : (b : ℕ) → bit_or 0 b ≡ b
zero-bit_or b = bit_or-bitwise 0 b

zero-bit_and : (b : ℕ) → bit_and 0 b ≡ 0
zero-bit_and b = bit_and-bitwise 0 b

or_digit : (a b : ℕ) → bit_or a b ≡ bit_or (a / 2) (b / 2) * 2 + max (a % 2) (b % 2)
or_digit zero b = omega (arith, zero-bit_or b, zero-bit_or (b / 2))
or_digit (suc a) b = omega (
  arith,
  bit_or-bitwise (suc a) b,
  bit_or-bitwise (suc a / 2) (b / 2),
  lowest_digit (λ y. y) max a b,
)

and_digit : (a b : ℕ) → bit_and a b ≡ bit_and (a / 2) (b / 2) * 2 + min (a % 2) (b % 2)
and_digit zero b = omega (arith, zero-bit_and b, zero-bit_and (b / 2))
and_digit (suc a) b = omega (
  arith,
  bit_and-bitwise (suc a) b,
  bit_and-bitwise (suc a / 2) (b / 2),
  lowest_digit (λ y. 0) min a b,
)

pub bit_and-zero : (a : ℕ) → bit_and a 0 ≡ 0
bit_and-zero a =
    halving (λ n. bit_and n 0 ≡ 0) refl (λ n ih. omega (arith, and_digit (suc n) 0)) a a
      (omega arith)

pub bit_or-zero : (a : ℕ) → bit_or a 0 ≡ a
bit_or-zero a =
    halving (λ n. bit_or n 0 ≡ n) refl (λ n ih. omega (arith, or_digit (suc n) 0)) a a (omega arith)

pub bit_and_self : (a : ℕ) → bit_and a a ≡ a
bit_and_self a =
    halving (λ n. bit_and n n ≡ n) refl (λ n ih. omega (arith, and_digit (suc n) (suc n))) a a
      (omega arith)

-- Flags joined with others keep all of their own.
pub bit_and-bit_or_left : (a b : ℕ) → bit_and (bit_or a b) a ≡ a
bit_and-bit_or_left a =
    halving (λ n. (b : ℕ) → bit_and (bit_or n b) n ≡ n) (λ b. bit_and-zero (bit_or 0 b)) step a a
      (omega arith)
  where
    step :
        (n : ℕ)
        → ((b : ℕ) → bit_and (bit_or (suc n / 2) b) (suc n / 2) ≡ suc n / 2)
        → (b : ℕ) → bit_and (bit_or (suc n) b) (suc n) ≡ suc n
    step n ih b =
        let half : bit_or (suc n) b / 2 ≡ bit_or (suc n / 2) (b / 2) =
          omega (arith, or_digit (suc n) b) in
        let digit : bit_or (suc n) b % 2 ≡ max (suc n % 2) (b % 2) =
          omega (arith, or_digit (suc n) b) in
        and_digit (bit_or (suc n) b) (suc n) ∙ rw (half, digit, ih (b / 2)) (omega arith)

pub bit_and_assoc : (a b c : ℕ) → bit_and (bit_and a b) c ≡ bit_and a (bit_and b c)
bit_and_assoc a =
    halving (λ n. (b c : ℕ) → bit_and (bit_and n b) c ≡ bit_and n (bit_and b c)) base step a a
      (omega arith)
  where
    base : (b c : ℕ) → bit_and (bit_and 0 b) c ≡ bit_and 0 (bit_and b c)
    base b c = rw (zero-bit_and b, zero-bit_and (bit_and b c)) (zero-bit_and c)

    step :
        (n : ℕ)
        → ((b c : ℕ) → bit_and (bit_and (suc n / 2) b) c ≡ bit_and (suc n / 2) (bit_and b c))
        → (b c : ℕ) → bit_and (bit_and (suc n) b) c ≡ bit_and (suc n) (bit_and b c)
    step n ih b c =
        let half : bit_and (suc n) b / 2 ≡ bit_and (suc n / 2) (b / 2) =
          omega (arith, and_digit (suc n) b) in
        let digit : bit_and (suc n) b % 2 ≡ min (suc n % 2) (b % 2) =
          omega (arith, and_digit (suc n) b) in
        let half' : bit_and b c / 2 ≡ bit_and (b / 2) (c / 2) = omega (arith, and_digit b c) in
        let digit' : bit_and b c % 2 ≡ min (b % 2) (c % 2) = omega (arith, and_digit b c) in
        and_digit (bit_and (suc n) b) c
        ∙ rw (half, digit, ih (b / 2) (c / 2))
            (sym (and_digit (suc n) (bit_and b c) ∙ rw (half', digit') (omega arith)))

pub bit_or_comm : (a b : ℕ) → bit_or a b ≡ bit_or b a
bit_or_comm a =
    halving (λ n. (b : ℕ) → bit_or n b ≡ bit_or b n) (λ b. zero-bit_or b ∙ sym (bit_or-zero b))
      (λ n ih b. omega (arith, or_digit (suc n) b, or_digit b (suc n), ih (b / 2))) a a
      (omega arith)

pub bit_and-bit_or_right : (a b : ℕ) → bit_and (bit_or a b) b ≡ b
bit_and-bit_or_right a b = rw (bit_or_comm a b) (bit_and-bit_or_left b a)

double : (q k : ℕ) → q * 2 ^ suc k ≡ 2 * (q * 2 ^ k)
double q k = omega (arith, ap (λ (p : ℕ). q * p) (pow-suc 2 k))

-- `(q << k) | r` with `r` below `2 ^ k` is a sum.
pub bit_or_disjoint : (k q r : ℕ) → r < 2 ^ k → bit_or (q * 2 ^ k) r ≡ q * 2 ^ k + r
bit_or_disjoint zero q r h = let z : r ≡ 0 = omega arith in rw (z, bit_or-zero) (omega arith)
bit_or_disjoint (suc k) q r h =
    let below : r / 2 < 2 ^ k = omega (arith, pow-suc 2 k) in
    let halved : q * 2 ^ suc k / 2 ≡ q * 2 ^ k = omega (arith, double q k) in
    or_digit (q * 2 ^ suc k) r
    ∙ rw (halved, bit_or_disjoint k q (r / 2) below) (omega (arith, double q k))

mod_double : (a m : ℕ) → 0 < m → a % (2 * m) ≡ a / 2 % m * 2 + a % 2
mod_double a m h = grind arith

-- A mask of `k` low bits takes the remainder.
pub bit_and_low_mask : (k a : ℕ) → bit_and a (2 ^ k - 1) ≡ a % 2 ^ k
bit_and_low_mask zero a = bit_and-zero a ∙ omega arith
bit_and_low_mask (suc k) a =
    let half : (2 ^ suc k - 1) / 2 ≡ 2 ^ k - 1 = omega (arith, pow-suc 2 k, one-le-pow k 2) in
    let odd : (2 ^ suc k - 1) % 2 ≡ 1 = omega (arith, pow-suc 2 k, one-le-pow k 2) in
    let pow : 2 ^ suc k ≡ 2 * 2 ^ k = omega (arith, pow-suc 2 k) in
    and_digit a (2 ^ suc k - 1)
    ∙ rw
        (
          half,
          odd,
          bit_and_low_mask k (a / 2),
          pow,
          mod_double a (2 ^ k) (omega (arith, one-le-pow k 2)),
        )
        (omega arith)
