-- ===== src/Object/Signature/Zone.antt =====
-- The zone of a signature in signature.go: four digits behind a sign, and the time that they make.
use git4go.Common.{
  ℕ, zero, suc, ◌+◌, ◌-◌, ◌*◌, ◌/◌, ◌%◌, ◌^◌, ◌<◌, ◌≡◌, refl, ap, Bool, true, false, not, some,
  List, [], ◌∷◌, arith, if◌then◌else◌, ℤ, pos, negsuc, negate, ◌+ℤ◌, times, quotient, remainder,
  difference, le→not_ltb,
}
use git4go.RevWalk.Parse.{all_digits, decimal_value, is_digit}
use git4go.Object.Signature.{signed_digits, parse_int64, below, is_zone, when_at}

-- Hours and minutes as git writes them, with a `-` west of Greenwich and a `+` else.
abbrev pub zone_text : (west : Bool) (hours minutes : ℕ) → List ℕ
zone_text west hours minutes =
    (if west then 45 else 43)
    ∷ ((48 + hours / 10) ∷ ((48 + hours % 10) ∷ ((48 + minutes / 10) ∷ ((48 + minutes % 10) ∷ []))))

-- A number of seconds to the west or to the east.
abbrev pub directed : (west : Bool) → ℕ → ℤ
directed true n = negate (pos n)
directed false n = pos n

zone_value :
    (hours minutes : ℕ)
    → hours < 14
    → minutes < 59
    → decimal_value 0 (
        (48 + hours / 10)
        ∷ ((48 + hours % 10) ∷ ((48 + minutes / 10) ∷ ((48 + minutes % 10) ∷ []))))
      ≡ hours * 100 + minutes
unfolding decimal_value
zone_value hours minutes h k = omega arith

digit : (d : ℕ) → d < 10 → is_digit (48 + d) ≡ true
unfolding is_digit
digit d h = ground arith

zone_digits :
    (hours minutes : ℕ)
    → hours < 14
    → minutes < 59
    → all_digits (
        (48 + hours / 10)
        ∷ ((48 + hours % 10) ∷ ((48 + minutes / 10) ∷ ((48 + minutes % 10) ∷ []))))
      ≡ true
unfolding all_digits
zone_digits hours minutes h k =
    rw
      (
        digit (hours / 10) (omega arith),
        digit (hours % 10) (omega arith),
        digit (minutes / 10) (omega arith),
        digit (minutes % 10) (omega arith),
      )
      refl

-- strconv.ParseInt reads a zone.
parse_int64-zone_text :
    (west : Bool) (hours minutes : ℕ)
    → hours < 14
    → minutes < 59
    → parse_int64 (zone_text west hours minutes) ≡ (directed west (hours * 100 + minutes), false)
unfolding parse_int64 signed_digits
parse_int64-zone_text true hours minutes h k =
    rw
      (
        zone_digits hours minutes h k,
        zone_value hours minutes h k,
        le→not_ltb (2 ^ 63) (hours * 100 + minutes) (omega arith),
      )
      refl
parse_int64-zone_text false hours minutes h k =
    rw
      (
        zone_digits hours minutes h k,
        zone_value hours minutes h k,
        le→not_ltb (2 ^ 63 - 1) (hours * 100 + minutes) (omega arith),
      )
      refl

quotient-negate : (n k : ℕ) → 0 / k ≡ 0 → quotient (negate (pos n)) k ≡ negate (pos (n / k))
unfolding quotient negate
quotient-negate zero k h = rw h refl
quotient-negate (suc n) k h = refl

remainder-negate : (n k : ℕ) → 0 % k ≡ 0 → remainder (negate (pos n)) k ≡ negate (pos (n % k))
unfolding remainder negate
remainder-negate zero k h = rw h refl
remainder-negate (suc n) k h = refl

times-negate : (n k : ℕ) → times (negate (pos n)) k ≡ negate (pos (n * k))
unfolding times negate
times-negate zero k = let e : 0 * k ≡ 0 = omega arith in rw e refl
times-negate (suc n) k = refl

negate-negate : (n : ℕ) → negate (negate (pos n)) ≡ pos n
unfolding negate
negate-negate zero = refl
negate-negate (suc n) = refl

difference-zero : (b : ℕ) → difference 0 (suc b) ≡ negsuc b
difference-zero b = ground arith

add-negate : (a b : ℕ) → negate (pos a) +ℤ negate (pos b) ≡ negate (pos (a + b))
unfolding negate ◌+ℤ◌
add-negate zero zero = refl
add-negate zero (suc b) = let e : 0 + suc b ≡ suc b = omega arith in rw e (difference-zero b)
add-negate (suc a) zero = let e : suc a + 0 ≡ suc a = omega arith in rw e (difference-zero a)
add-negate (suc a) (suc b) = let e : suc a + suc b ≡ suc (a + b + 1) = omega arith in rw e refl

below-negate : (bound n : ℕ) → 0 < bound → below bound (negate (pos n)) ≡ true
unfolding below negate
below-negate bound zero h = ground arith
below-negate bound (suc n) h = refl

is_zone-directed :
    (west : Bool) (hours minutes : ℕ)
    → hours < 14
    → minutes < 59
    → is_zone (directed west (hours * 100 + minutes)) ≡ true
unfolding is_zone
is_zone-directed true hours minutes h k =
    rw
      (
        quotient-negate (hours * 100 + minutes) 100 refl,
        remainder-negate (hours * 100 + minutes) 100 refl,
        below-negate 14 ((hours * 100 + minutes) / 100) (omega arith),
        below-negate 59 ((hours * 100 + minutes) % 100) (omega arith),
      )
      refl
is_zone-directed false hours minutes h k = unfold quotient remainder below in ground arith

-- The seconds of a zone, as parseSignature computes them.
zone_length :
    (west : Bool) (hours minutes : ℕ)
    → minutes < 59
    → times (quotient (directed west (hours * 100 + minutes)) 100) 3600
        +ℤ times (remainder (directed west (hours * 100 + minutes)) 100) 60
      ≡ directed west (hours * 3600 + minutes * 60)
zone_length true hours minutes k =
    rw
      (
        quotient-negate (hours * 100 + minutes) 100 refl,
        remainder-negate (hours * 100 + minutes) 100 refl,
        times-negate ((hours * 100 + minutes) / 100) 3600,
        times-negate ((hours * 100 + minutes) % 100) 60,
        add-negate ((hours * 100 + minutes) / 100 * 3600) ((hours * 100 + minutes) % 100 * 60),
      )
      (ap (λ n. negate (pos n)) (omega arith))
zone_length false hours minutes k = unfold quotient remainder times ◌+ℤ◌ in ap pos (omega arith)

negate-directed : (west : Bool) (n : ℕ) → negate (directed west n) ≡ directed (not west) n
negate-directed true n = negate-negate n
negate-directed false n = refl

-- The time of an epoch and a zone to the west or the east.
pub when_at-zone_text :
    (local_zone : ℤ → ℤ) (epoch : ℤ) (west : Bool) (hours minutes : ℕ)
    → hours < 14
    → minutes < 59
    → when_at local_zone epoch (parse_int64 (zone_text west hours minutes)).0 ≡ record {
      seconds = epoch +ℤ (local_zone epoch +ℤ directed (not west) (hours * 3600 + minutes * 60));
      zone = some (directed west (hours * 3600 + minutes * 60));
    }
unfolding when_at
when_at-zone_text local_zone epoch west hours minutes h k =
    rw
      (
        parse_int64-zone_text west hours minutes h k,
        zone_length west hours minutes k,
        is_zone-directed west hours minutes h k,
        negate-directed west (hours * 3600 + minutes * 60),
      )
      refl
