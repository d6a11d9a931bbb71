-- ===== src/Index/Flags.antt =====
-- The bit fields of an entry's flags: the length of the path, the stage, and two bits more.
use git4go.Common.{
  ℕ, ◌+◌, ◌*◌, ◌/◌, ◌%◌, ◌^◌, ◌<◌, bit_and, bit_or, ◌≡◌, refl, ap, ap₂, ◌∙◌, true, arith, ◌==◌,
  ==_iff, holds_below, holds_below_at,
}
use git4go.Common.Bits.{bit_and-shifted}
use git4go.Common.Masks.{bit_or-shifted, bit_and_filled, low_two}
use git4go.Index.Entry.{IndexEntry, stage, set_stage}

-- The four bits from the stage on, with the stage replaced.
stage_table :
    holds_below (λ t. bit_or (bit_and (t / 4) 12) (t % 4) == t / 4 / 4 * 4 + t % 4) 64 ≡ true
unfolding holds_below
stage_table = refl

replaced_stage : (high k : ℕ) → high < 16 → k < 4 → bit_or (bit_and high 12) k ≡ high / 4 * 4 + k
replaced_stage high k h h' = omega (
  arith,
  ap₂ (λ (a b : ℕ). bit_or (bit_and a 12) b) quotient rest,
  (==_iff _ _).0 (holds_below_at _ stage_table (high * 4 + k) (omega arith)),
)
  where
    quotient : (high * 4 + k) / 4 ≡ high
    quotient = omega arith

    rest : (high * 4 + k) % 4 ≡ k
    rest = omega arith

set_stage-flags :
    (v : IndexEntry) (flag : ℕ)
    → v.flags < 2 ^ 16
    → (set_stage v flag).flags ≡ v.flags % 4096 + (v.flags / 4096 / 4 * 4 + flag % 4) * 4096
unfolding set_stage
set_stage-flags v flag h =
    ap₂ bit_or (bit_and_filled 12 v.flags 12) (field (low_two (flag % 65536)))
    ∙ bit_or-shifted 12 (v.flags % 4096 + bit_and (v.flags / 4096) 12 * 4096) (flag % 4)
    ∙ omega (
      arith,
      ap (λ (t : ℕ). bit_or t (flag % 4)) behind,
      replaced_stage (v.flags / 4096) (flag % 4) (omega arith) (omega arith),
    )
  where
    field : {b : ℕ} → b ≡ flag % 65536 % 4 → b * 4096 % 65536 ≡ flag % 4 * 4096
    field e = omega arith

    behind :
        (v.flags % 4096 + bit_and (v.flags / 4096) 12 * 4096) / 4096 ≡ bit_and (v.flags / 4096) 12
    behind = omega arith

pub stage-lt : (v : IndexEntry) → stage v < 4
unfolding stage
stage-lt v = omega (arith, bit_and-shifted 12 v.flags 3, low_two (v.flags / 2 ^ 12))

-- SetStage sets the stage to the lowest two bits of its argument and changes no other bit: neither
-- the twelve below, which are the length of the path, nor the two above.
pub stage-set_stage :
    (v : IndexEntry) (flag : ℕ)
    → v.flags < 2 ^ 16
    → (stage (set_stage v flag) ≡ flag % 4)
      × ((set_stage v flag).flags % 2 ^ 12 ≡ v.flags % 2 ^ 12)
      × ((set_stage v flag).flags / 2 ^ 14 ≡ v.flags / 2 ^ 14)
unfolding stage
stage-set_stage v flag h = (
  ap (λ (t : ℕ). t / 4096)
        (bit_and-shifted 12 (set_stage v flag).flags 3 ∙ ap (λ (t : ℕ). t * 4096) (low_two _))
      ∙ omega (arith, set_stage-flags v flag h),
  omega (arith, set_stage-flags v flag h),
  omega (arith, set_stage-flags v flag h),
)
