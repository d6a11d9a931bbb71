-- ===== src/Common/Masks.antt =====
-- Masks of a number: its low bits, a field of it, and what is left beside a field.
use Prim.Native.Nat.{ℕ, zero, suc, ◌+◌, ◌-◌, ◌*◌, ◌/◌, ◌%◌, ◌^◌, ◌≤◌, ◌<◌, bit_and, bit_or}
use mathlib.Core.Path.{◌≡◌, ap, ap₂, ◌∙◌}
use native.Mathlib.Nat.{pow-suc, div-div-eq-div-mul, mod-add-div}
use native.Mathlib.Omega.{arith}
use git4go.Common.Bits.{
  bit_and-digit, bit_or-digit, field-suc, bit_and-zero, bit_or_fields, bit_and-shifted,
}

odd_mask : (a m : ℕ) → bit_and a (2 * m + 1) ≡ 2 * bit_and (a / 2) m + a % 2
odd_mask a m = omega (arith, bit_and-digit a (2 * m + 1), half)
  where
    half : bit_and (a / 2) ((2 * m + 1) / 2) ≡ bit_and (a / 2) m
    half = ap (bit_and (a / 2)) (omega arith)

pub low_three : (a : ℕ) → bit_and a 7 ≡ a % 8
low_three a =
    omega (
      arith,
      odd_mask a 3,
      odd_mask (a / 2) 1,
      odd_mask (a / 2 / 2) 0,
      bit_and-zero (a / 2 / 2 / 2),
    )

pub low_four : (a : ℕ) → bit_and a 15 ≡ a % 16
low_four a = omega (
  arith,
  odd_mask a 7,
  odd_mask (a / 2) 3,
  odd_mask (a / 2 / 2) 1,
  odd_mask (a / 2 / 2 / 2) 0,
  bit_and-zero (a / 2 / 2 / 2 / 2),
)

-- The masks of the library's formats.
pub low_seven : (a : ℕ) → bit_and a 0x7f ≡ a % 128
low_seven a =
    omega
      (arith, odd_mask a 63, odd_mask (a / 2) 31, odd_mask (a / 2 / 2) 15, low_four (a / 2 / 2 / 2))

pub low_eight : (a : ℕ) → bit_and a 0xff ≡ a % 256
low_eight a = omega (arith, odd_mask a 127, low_seven (a / 2))

pub byte_field : (k x : ℕ) → bit_and x (0xff * 2 ^ k) ≡ x / 2 ^ k % 256 * 2 ^ k
byte_field k x = bit_and-shifted k x 0xff ∙ ap (λ (t : ℕ). t * 2 ^ k) (low_eight (x / 2 ^ k))

low_one : (a : ℕ) → bit_and a 1 ≡ a % 2
low_one a = omega (arith, odd_mask a 0, bit_and-zero (a / 2))

pub bit_field : (k x : ℕ) → bit_and x (1 * 2 ^ k) ≡ x / 2 ^ k % 2 * 2 ^ k
bit_field k x = bit_and-shifted k x 1 ∙ ap (λ (t : ℕ). t * 2 ^ k) (low_one (x / 2 ^ k))

-- The lowest digit of a remainder.
rest_suc : (k x : ℕ) → x % 2 ^ suc k ≡ x % 2 + 2 * (x / 2 % 2 ^ k)
rest_suc k x = omega (
  arith,
  mod-add-div x (2 ^ suc k),
  mod-add-div (x / 2) (2 ^ k),
  ap (λ (t : ℕ). t * 2 ^ k) quotient,
  field-suc k (x / 2 ^ suc k),
)
  where
    quotient : x / 2 / 2 ^ k ≡ x / 2 ^ suc k
    quotient = div-div-eq-div-mul x 2 (2 ^ k) ∙ ap (λ (t : ℕ). x / t) (omega (arith, pow-suc 2 k))

-- `|` with a number that begins at bit `k` leaves the bits below.
pub bit_or-shifted : (k x m : ℕ) → bit_or x (m * 2 ^ k) ≡ x % 2 ^ k + bit_or (x / 2 ^ k) m * 2 ^ k
bit_or-shifted zero x m = omega (arith, ap₂ bit_or whole all)
  where
    whole : x ≡ x / 1
    whole = omega arith

    all : m * 1 ≡ m
    all = omega arith
bit_or-shifted (suc k) x m = omega (
  arith,
  bit_or-digit x (m * 2 ^ suc k),
  ap (bit_or (x / 2)) half,
  bit_or-shifted k (x / 2) m,
  ap (λ (t : ℕ). bit_or t m) (quotient),
  field-suc k m,
  field-suc k (bit_or (x / 2 ^ suc k) m),
  rest_suc k x,
  ap (λ (t : ℕ). bit_or t m * 2 ^ k) quotient,
)
  where
    half : m * 2 ^ suc k / 2 ≡ m * 2 ^ k
    half = omega (arith, field-suc k m)

    quotient : x / 2 / 2 ^ k ≡ x / 2 ^ suc k
    quotient = div-div-eq-div-mul x 2 (2 ^ k) ∙ ap (λ (t : ℕ). x / t) (omega (arith, pow-suc 2 k))

pub one-le-pow : (k : ℕ) → 1 ≤ 2 ^ k
one-le-pow zero = omega arith
one-le-pow (suc k) = omega (arith, one-le-pow k, pow-suc 2 k)

-- A mask with all bits below bit `k` set.
pub bit_and_filled :
    (k x m : ℕ) → bit_and x (m * 2 ^ k + (2 ^ k - 1)) ≡ x % 2 ^ k + bit_and (x / 2 ^ k) m * 2 ^ k
bit_and_filled zero x m = omega (arith, ap₂ bit_and whole all)
  where
    whole : x ≡ x / 1
    whole = omega arith

    all : m * 1 + 0 ≡ m
    all = omega arith
bit_and_filled (suc k) x m = omega (
  arith,
  ap (bit_and x) mask,
  odd_mask x (m * 2 ^ k + (2 ^ k - 1)),
  bit_and_filled k (x / 2) m,
  field-suc k (bit_and (x / 2 ^ suc k) m),
  rest_suc k x,
  ap (λ (t : ℕ). bit_and t m * 2 ^ k) quotient,
)
  where
    mask : m * 2 ^ suc k + (2 ^ suc k - 1) ≡ 2 * (m * 2 ^ k + (2 ^ k - 1)) + 1
    mask = omega (arith, field-suc k m, pow-suc 2 k, one-le-pow k)

    quotient : x / 2 / 2 ^ k ≡ x / 2 ^ suc k
    quotient = div-div-eq-div-mul x 2 (2 ^ k) ∙ ap (λ (t : ℕ). x / t) (omega (arith, pow-suc 2 k))

pub low_two : (a : ℕ) → bit_and a 3 ≡ a % 4
low_two a = bit_and_filled 2 a 0 ∙ omega (arith, bit_and-zero (a / 4))

lt_pow : (x : ℕ) → x < 2 ^ x
lt_pow zero = omega arith
lt_pow (suc x) = omega (arith, lt_pow x, pow-suc 2 x)

bit_or-zero : (x : ℕ) → bit_or x 0 ≡ x
bit_or-zero x = omega (arith, ap (bit_or x) none, bit_or_fields x x 0 (lt_pow x))
  where
    none : 0 ≡ 0 * 2 ^ x
    none = omega arith

-- `x << k | y` is a sum when `y` fits `k` bits.
pub bit_or_high : (k r q : ℕ) → r < 2 ^ k → bit_or (q * 2 ^ k) r ≡ q * 2 ^ k + r
bit_or_high zero r q h = ap (bit_or (q * 1)) (none h) ∙ bit_or-zero (q * 1) ∙ omega (arith, none h)
  where
    none : r < 1 → r ≡ 0
    none below = omega arith
bit_or_high (suc k) r q h = omega (
  arith,
  bit_or-digit (q * 2 ^ suc k) r,
  field-suc k q,
  ap (λ (t : ℕ). bit_or t (r / 2)) moved,
  bit_or_high k (r / 2) q (omega (arith, pow-suc 2 k)),
)
  where
    moved : q * 2 ^ suc k / 2 ≡ q * 2 ^ k
    moved = omega (arith, field-suc k q)
