-- ===== src/Tree/Number/Octal.antt =====
-- Numbers written in octal, as fmt's %o writes them, and read back by strtol32.
use git4go.Common.{
  ℕ, ◌+◌, ◌-◌, ◌*◌, ◌/◌, ◌%◌, ◌^◌, ◌≤◌, ◌<◌, ◌≡◌, refl, ap, ◌∙◌, dite, true, false, some, List, [],
  ◌∷◌, ◌++◌, append-nil, append_assoc, arith, dec_lt, ltb, leb, lt→ltb, All,
}
use git4go.Common.Bits.{lt_wf}
use git4go.Tree.Number.{parse_uint, parse_int, strtol32, strtol32_loop}
use native.Mathlib.Bridge.{le_prop}
use mathlib.Core.Logic.{dif_pos, dif_neg}
use mathlib.Core.WellFounded.{Acc}

-- The digits of a number, the last first, in front of `after`.
octal_loop : (n : ℕ) → Acc ◌<◌ n → List ℕ → List ℕ
octal_loop n (Acc.intro _ smaller) after =
    dite (dec_lt 7 n) (λ h. octal_loop (n / 8) (smaller _ (omega arith)) ((48 + n % 8) ∷ after))
      (λ _. (48 + n) ∷ after)

-- fmt's `%o` on a number that is not negative.
unfoldable pub octal : ℕ → List ℕ
unfolding octal_loop lt_wf dec_lt
octal n = octal_loop n (lt_wf.apply n) []

parse_digit :
    (m d : ℕ) (after : List ℕ)
    → d < 8
    → m * 8 + d < 2 ^ 64
    → parse_uint 8 m ((48 + d) ∷ after) ≡ parse_uint 8 (m * 8 + d) after
unfolding parse_uint
parse_digit m d after small fits = rw (digit, of_base, no_overflow) refl
  where
    digit : 48 + d - 48 ≡ d
    digit = omega arith

    of_base : leb 8 d ≡ false
    of_base = ground arith

    no_overflow : leb (2 ^ 64) (m * 8 + d) ≡ false
    no_overflow = ground arith

-- The digits of `n` and then `after` are read as `after` behind `n`.
parse-octal_loop :
    (n : ℕ) (a : Acc ◌<◌ n) (after : List ℕ)
    → n < 2 ^ 64
    → parse_uint 8 0 (octal_loop n a after) ≡ parse_uint 8 n after
unfolding octal_loop
parse-octal_loop n (Acc.intro _ smaller) after h = elim (dec_lt 7 n) [
  | no k ↦
      rw (dif_neg _ k) (
        parse_digit 0 n after (omega arith) (omega (arith, h))
        ∙ ap (λ m. parse_uint 8 m after) unit)
  | yes k ↦ rw (dif_pos _ le_prop k) (
      parse-octal_loop (n / 8) (smaller _ (omega arith)) ((48 + n % 8) ∷ after) (omega (arith, h))
      ∙ parse_digit (n / 8) (n % 8) after (omega arith) (omega (arith, h))
      ∙ ap (λ m. parse_uint 8 m after) whole)
]
  where
    unit : 0 * 8 + n ≡ n
    unit = omega arith

    whole : n / 8 * 8 + n % 8 ≡ n
    whole = omega arith

abbrev IsDigit : ℕ → Type 0
IsDigit c = (48 ≤ c) × (c ≤ 57)

octal_loop-IsDigit :
    (n : ℕ) (a : Acc ◌<◌ n) (after : List ℕ)
    → All IsDigit after
    → All IsDigit (octal_loop n a after)
unfolding octal_loop
octal_loop-IsDigit n (Acc.intro _ smaller) after h = elim (dec_lt 7 n) [
  | no k ↦ rw (dif_neg _ k) ((omega arith, omega arith), h)
  | yes k ↦ rw (dif_pos _ le_prop k) (
      octal_loop-IsDigit (n / 8) (smaller _ (omega arith)) ((48 + n % 8) ∷ after)
        ((omega arith, omega arith), h))
]

parse_int-small :
    (base : ℕ) (digits : List ℕ)
    → parse_uint base 0 digits < 2 ^ 63
    → parse_int base digits ≡ parse_uint base 0 digits
unfolding parse_int
parse_int-small base [] h = unfold parse_uint in refl
parse_int-small base (c ∷ digits) h = rw fits refl
  where
    fits : leb (2 ^ 63) (parse_uint base 0 (c ∷ digits)) ≡ false
    fits = ground arith

strtol32_loop-digits :
    (base : ℕ) (digits front : List ℕ) (c : ℕ) (rest : List ℕ)
    → All IsDigit digits
    → c < 48
    → strtol32_loop base front (digits ++ (c ∷ rest))
      ≡ some (parse_int base (front ++ digits), rest)
unfolding strtol32_loop
strtol32_loop-digits base [] front c rest h small = rw (append-nil front, ends) refl
  where
    ends : ltb c 48 ≡ true
    ends = lt→ltb c 48 small
strtol32_loop-digits base (d ∷ digits) front c rest h small =
    rw (low, high)
      (strtol32_loop-digits base digits (front ++ (d ∷ [])) c rest h.1 small
        ∙ ap (λ t. some (parse_int base t, rest)) (append_assoc front (d ∷ []) digits))
  where
    low : ltb d 48 ≡ false
    low = ground (arith, h.0)

    high : ltb 57 d ≡ false
    high = ground (arith, h.0)

-- A mode that `%o ` writes is read back in base 8, up to and with the space.
pub strtol32-octal :
    (n : ℕ) (rest : List ℕ) → n < 2 ^ 63 → strtol32 (octal n ++ (32 ∷ rest)) 8 ≡ some (n, rest)
unfolding strtol32 octal
strtol32-octal n rest h =
    strtol32_loop-digits 8 (octal n) [] 32 rest (octal_loop-IsDigit n (lt_wf.apply n) [] tt)
      (omega arith)
    ∙ ap (λ m. some (m, rest)) (parse_int-small 8 (octal n) (rw read h) ∙ read)
  where
    read : parse_uint 8 0 (octal n) ≡ n
    read = unfold parse_uint in parse-octal_loop n (lt_wf.apply n) [] (omega arith)
