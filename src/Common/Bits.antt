-- ===== src/Common/Bits.antt =====
-- Go's `&` and `|` as arithmetic: masks of one byte at any place, and `|` of disjoint fields.
use Prim.Native.Nat.{
  ℕ, zero, suc, ◌+◌, ◌*◌, ◌/◌, ◌%◌, ◌^◌, ◌≤◌, ◌<◌, min, max, bit_and, bit_or, digits,
  bit_and-bitwise, bit_or-bitwise,
}
use mathlib.Core.Path.{◌≡◌, refl, sym, ap, ap₂, ◌∙◌}
use mathlib.Core.WellFounded.{Acc, WellFounded}
use native.Mathlib.Nat.{pow-suc, div-div-eq-div-mul}
use native.Mathlib.Omega.{arith}

Acc-below : (k n : ℕ) → n < k → Acc ◌<◌ n
Acc-below zero n h = absurd (omega arith)
Acc-below (suc k) n h = Acc.intro n (λ m hm. Acc-below k m (omega arith))

unfoldable pub lt_wf : WellFounded ◌<◌
unfolding Acc-below
lt_wf = record { apply = λ n. Acc-below (suc n) n (omega arith) }

-- The recursion on binary digits that `&` and `|` stand for, lowest digit first. Fuel that covers
-- the first operand does not show in the result.
module _ (empty : ℕ → ℕ) (join : ℕ → ℕ → ℕ) where
  enough_fuel :
      (x y : ℕ) {spare : ℕ} (fuel : ℕ)
      → x ≤ fuel
      → x ≤ spare
      → digits empty join spare x y ≡ digits empty join fuel x y
  enough_fuel zero y {spare = zero} zero _ _ = refl
  enough_fuel zero y {spare = zero} (suc fuel) _ _ = refl
  enough_fuel zero y {spare = suc spare} zero _ _ = refl
  enough_fuel zero y {spare = suc spare} (suc fuel) _ _ = refl
  enough_fuel (suc x) y zero hf hs = absurd (omega arith)
  enough_fuel (suc x) y {spare = zero} (suc fuel) hf hs = absurd (omega arith)
  enough_fuel (suc x) y {spare = suc spare} (suc fuel) hf hs =
      ap (λ (t : ℕ). t * 2 + join (suc x % 2) (y % 2))
        (enough_fuel (suc x / 2) (y / 2) fuel (omega arith) (omega arith))

  low_digit :
      ((y : ℕ) → empty y ≡ empty (y / 2) * 2 + join 0 (y % 2))
      → (x y : ℕ)
      → digits empty join x x y
        ≡ digits empty join (x / 2) (x / 2) (y / 2) * 2 + join (x % 2) (y % 2)
  low_digit ends zero y = ends y
  low_digit ends (suc x) y =
      ap (λ (t : ℕ). t * 2 + join (suc x % 2) (y % 2))
        (enough_fuel (suc x / 2) (y / 2) (suc x / 2) (omega arith) (omega arith))

pub bit_and-digit : (x y : ℕ) → bit_and x y ≡ min (x % 2) (y % 2) + 2 * bit_and (x / 2) (y / 2)
bit_and-digit x y = omega (
  arith,
  bit_and-bitwise x y,
  low_digit (λ _. 0) min (λ y. omega arith) x y,
  bit_and-bitwise (x / 2) (y / 2),
)

pub bit_or-digit : (x y : ℕ) → bit_or x y ≡ max (x % 2) (y % 2) + 2 * bit_or (x / 2) (y / 2)
bit_or-digit x y = omega (
  arith,
  bit_or-bitwise x y,
  low_digit (λ y. y) max (λ y. omega arith) x y,
  bit_or-bitwise (x / 2) (y / 2),
)

none_below : (bound : ℕ) {x : ℕ} → x < bound → bit_and x 0 ≡ 0
none_below zero h = absurd (omega arith)
none_below (suc bound) {x = zero} _ = bit_and-bitwise 0 0
none_below (suc bound) {x = suc x} h =
    omega (arith, none_below bound {x = suc x / 2} (omega arith), bit_and-digit (suc x) 0)

pub bit_and-zero : (a : ℕ) → bit_and a 0 ≡ 0
bit_and-zero a = none_below (suc a) (omega arith)

pub zero-bit_or : (b : ℕ) → bit_or 0 b ≡ b
zero-bit_or b = bit_or-bitwise 0 b

pub field-suc : (w v : ℕ) → v * 2 ^ suc w ≡ v * 2 ^ w * 2
field-suc w v = omega (arith, ap (λ (p : ℕ). v * p) (pow-suc 2 w))

-- `x | y << k` is a sum when `x` fits `k` bits.
pub bit_or_fields : (k r q : ℕ) → r < 2 ^ k → bit_or r (q * 2 ^ k) ≡ r + q * 2 ^ k
bit_or_fields zero r q h =
    ap (λ (t : ℕ). bit_or t (q * 1)) (none h) ∙ zero-bit_or (q * 1) ∙ omega (arith, none h)
  where
    none : r < 1 → r ≡ 0
    none below = omega arith
bit_or_fields (suc k) r q h = omega (
  arith,
  bit_or-digit r (q * 2 ^ suc k),
  field-suc k (q),
  ap (bit_or (r / 2)) moved,
  bit_or_fields k (r / 2) q (omega (arith, pow-suc 2 k)),
)
  where
    moved : q * 2 ^ suc k / 2 ≡ q * 2 ^ k
    moved = omega (arith, field-suc k (q))

-- A mask moved up by `k` bits takes the bits from `k` on.
pub bit_and-shifted : (k x m : ℕ) → bit_and x (m * 2 ^ k) ≡ bit_and (x / 2 ^ k) m * 2 ^ k
bit_and-shifted zero x m =
    ap₂ bit_and (sym (div_one x)) (mul_one m) ∙ sym (mul_one (bit_and (x / 1) m))
  where
    div_one : (n : ℕ) → n / 1 ≡ n
    div_one n = omega arith

    mul_one : (n : ℕ) → n * 1 ≡ n
    mul_one n = omega arith
bit_and-shifted (suc k) x m = rw (← quotient) (
    omega (
      arith,
      bit_and-digit x (m * 2 ^ suc k),
      field-suc k (m),
      half,
      bit_and-shifted k (x / 2) m,
      field-suc k (bit_and (x / 2 / 2 ^ k) m),
    ))
  where
    quotient : x / 2 / 2 ^ k ≡ x / 2 ^ suc k
    quotient = div-div-eq-div-mul x 2 (2 ^ k) ∙ ap (λ (t : ℕ). x / t) (omega (arith, pow-suc 2 k))

    half : bit_and (x / 2) (m * 2 ^ suc k / 2) ≡ bit_and (x / 2) (m * 2 ^ k)
    half = ap (bit_and (x / 2)) (omega (arith, field-suc k (m)))
