-- ===== src/Pack/Base/Distance.antt =====
-- A distance as git writes it before a delta, and the loop of getDeltaBase of pack.go on it.
use git4go.Common.{
  ℕ, ◌+◌, ◌-◌, ◌*◌, ◌/◌, ◌%◌, ◌^◌, ◌<◌, bit_and, ◌≡◌, refl, sym, ap, ap₂, subst, ◌∙◌, dite, true,
  false, Option, none, List, [], ◌∷◌, arith, dec_lt, ◌==◌, length, GitError, ◌||◌,
}
use git4go.Common.Bits.{lt_wf, bit_and-shifted}
use git4go.Common.Masks.{low_seven, bit_field}
use git4go.Pack.Base.{msb, distance_loop}
use native.Mathlib.Bridge.{le_prop}
use mathlib.Core.Logic.{dif_pos, dif_neg}
use mathlib.Core.WellFounded.{Acc}

-- The groups of seven bits above the lowest, each less one, and with the bit that another follows.
unfoldable pub groups_before : (m : ℕ) → Acc ◌<◌ m → (behind : List ℕ) → List ℕ
groups_before m (Acc.intro _ smaller) behind =
    dite (dec_lt 0 m)
      (λ h.
        groups_before ((m - 1) / 128) (smaller _ (omega (arith, h)))
          ((128 + (m - 1) % 128) ∷ behind))
      (λ _. behind)

-- A distance as git writes it, highest group first.
unfoldable pub encode_distance : (n : ℕ) (behind : List ℕ) → List ℕ
unfolding groups_before lt_wf
encode_distance n behind = groups_before (n / 128) (lt_wf.apply (n / 128)) (n % 128 ∷ behind)

-- getDeltaBase's start and loop on a buffer.
abbrev pub read_distance : List ℕ → ℕ × ℕ × Option GitError
read_distance [] = (0, 0, none)
read_distance (c ∷ buffer) = distance_loop c (bit_and c 127) 1 buffer

low_bits : (b : ℕ) → bit_and b 127 ≡ b % 128
low_bits b = low_seven b

marked : (r : ℕ) → r < 128 → (bit_and (128 + r) 128 == 0) ≡ false
marked r h = rw (bit_field 7 (128 + r)) (ground (arith, h))

unmarked : (r : ℕ) → r < 128 → (bit_and r 128 == 0) ≡ true
unmarked r h = rw (bit_field 7 r) (ground (arith, h))

no_overflow : (m : ℕ) → 0 < m → m < 2 ^ 57 → (m == 0 || msb m 7) ≡ false
unfolding msb
no_overflow m h k = rw (not_zero, clear) refl
  where
    not_zero : (m == 0) ≡ false
    not_zero = ground (arith, h)

    clear : bit_and m (127 * 2 ^ 57) ≡ 0
    clear =
        bit_and-shifted 57 m 127
        ∙ ap (λ (q : ℕ). bit_and q 127 * 2 ^ 57) {x = m / 2 ^ 57} {y = 0} (omega (arith, k))

-- A round of the loop that goes on.
distance_loop-more :
    (r m used b : ℕ) (buffer : List ℕ)
    → r < 128
    → 0 < m
    → m < 2 ^ 57
    → distance_loop (128 + r) (m - 1) used (b ∷ buffer)
      ≡ distance_loop b (m * 128 + b % 128) (used + 1) buffer
unfolding distance_loop
distance_loop-more r m used b buffer hr h k =
    rw (marked r hr, whole, no_overflow m h k, low_bits b, sum) refl
  where
    whole : (m - 1 + 1) % 2 ^ 64 ≡ m
    whole = omega (arith, h, k)

    sum : (m * 2 ^ 7 % 2 ^ 64 + b % 128) % 2 ^ 64 ≡ m * 128 + b % 128
    sum = omega (arith, k)

groups_before-none :
    (m : ℕ) (a : Acc ◌<◌ m) (behind : List ℕ) → ¬ (0 < m) → groups_before m a behind ≡ behind
unfolding groups_before
groups_before-none m (Acc.intro _ smaller) behind h = rw (dif_neg _ h) refl

groups_before-more :
    (m : ℕ) (smaller : (y : ℕ) → y < m → Acc ◌<◌ y) (behind : List ℕ)
    → 0 < m
    → (lt : (m - 1) / 128 < m) × (groups_before m (Acc.intro m smaller) behind
        ≡ groups_before ((m - 1) / 128) (smaller _ lt) ((128 + (m - 1) % 128) ∷ behind))
unfolding groups_before
groups_before-more m smaller behind h = (omega (arith, h), rw (dif_pos _ le_prop h) refl)

abbrev last_group : ℕ → ℕ
last_group m = 128 + (m - 1) % 128

last_group_bits : (m : ℕ) → bit_and (last_group m) 127 ≡ (m - 1) % 128
last_group_bits m = low_bits (last_group m) ∙ omega arith

-- What is read when the loop has taken all groups above the lowest, which are `used` many.
record Reads (m : ℕ) (bytes behind : List ℕ) : Type 0 where
  used : ℕ
  counted : length bytes ≡ used + length behind
  left : read_distance bytes ≡ distance_loop (last_group m) (m - 1) used behind

first_group :
    (m : ℕ) (b : Acc ◌<◌ ((m - 1) / 128)) (behind : List ℕ)
    → ¬ (0 < (m - 1) / 128)
    → Reads m (groups_before ((m - 1) / 128) b (last_group m ∷ behind)) behind
first_group m b behind none_before =
    rw (groups_before-none ((m - 1) / 128) b (last_group m ∷ behind) none_before) (record {
      used = 1;
      counted = omega arith;
      left =
          ap (λ v. distance_loop (last_group m) v 1 behind)
            (last_group_bits m ∙ omega (arith, none_before));
    })

later_group :
    (m : ℕ) (bytes behind : List ℕ)
    → 0 < (m - 1) / 128
    → m < 2 ^ 57
    → Reads ((m - 1) / 128) bytes (last_group m ∷ behind)
    → Reads m bytes behind
later_group m bytes behind before k reads = record {
  used = reads.used + 1;
  counted = omega (arith, reads.counted);
  left =
      reads.left
      ∙ distance_loop-more (((m - 1) / 128 - 1) % 128) ((m - 1) / 128) reads.used (last_group m)
          behind (omega arith) before (omega (arith, k))
      ∙ ap (λ v. distance_loop (last_group m) v (reads.used + 1) behind) (omega arith);
}

read_distance-groups_before :
    (m : ℕ) (a : Acc ◌<◌ m) (behind : List ℕ)
    → 0 < m
    → m < 2 ^ 57
    → Reads m (groups_before m a behind) behind
read_distance-groups_before m (Acc.intro _ smaller) behind h k =
    let (lt, same) = groups_before-more m smaller behind h in
    subst (λ bytes. Reads m bytes behind) (sym same)
      (elim (dec_lt 0 ((m - 1) / 128)) [
        | no none_before ↦ first_group m (smaller _ lt) behind none_before
        | yes before ↦ later_group m _ behind before k (
            read_distance-groups_before ((m - 1) / 128) (smaller _ lt) (last_group m ∷ behind)
              before (omega (arith, k)))
      ])

distance_loop-stop :
    (r used v : ℕ) (buffer : List ℕ) → r < 128 → distance_loop r v used buffer ≡ (v, used, none)
unfolding distance_loop
distance_loop-stop r used v [] h = rw (unmarked r h) refl
distance_loop-stop r used v (b ∷ buffer) h = rw (unmarked r h) refl

-- The lowest group, behind the others.
read_distance-last :
    (m r : ℕ) (a : Acc ◌<◌ m) (behind : List ℕ)
    → m < 2 ^ 57
    → r < 128
    → read_distance (groups_before m a (r ∷ behind))
      ≡ (m * 128 + r, length (groups_before m a (r ∷ behind)) - length behind, none)
read_distance-last m r a behind h k = elim (dec_lt 0 m) [
  | no few ↦ rw (groups_before-none m a (r ∷ behind) few) (
      distance_loop-stop r 1 (bit_and r 127) behind k
      ∙ ap₂ (λ (u v : ℕ). (u, v, none)) (low_bits r ∙ omega (arith, few, k)) (omega arith))
  | yes many ↦
      let reads = read_distance-groups_before m a (r ∷ behind) many h in
      reads.left
      ∙ distance_loop-more ((m - 1) % 128) m reads.used r behind (omega arith) many h
      ∙ distance_loop-stop r (reads.used + 1) (m * 128 + r % 128) behind k
      ∙ ap₂ (λ (u v : ℕ). (u, v, none)) (omega (arith, k)) (omega (arith, reads.counted))
]

pub read_distance-encode_distance :
    (n : ℕ) (behind : List ℕ)
    → n < 2 ^ 64
    → read_distance (encode_distance n behind)
      ≡ (n, length (encode_distance n behind) - length behind, none)
unfolding encode_distance
read_distance-encode_distance n behind h =
    read_distance-last (n / 128) (n % 128) (lt_wf.apply (n / 128)) behind (omega (arith, h))
      (omega arith)
    ∙ ap (λ (v : ℕ). (v, length (encode_distance n behind) - length behind, none)) (omega arith)
