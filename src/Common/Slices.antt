-- ===== src/Common/Slices.antt =====
-- A Go slice of bytes: its elements, and what its array holds between its length and its capacity.
-- An index must lie below the length; the bounds of a slice expression may reach the capacity.
use Prim.Native.Nat.{ℕ, ◌+◌, ◌≤◌}
use mathlib.Core.Path.{◌≡◌}
use mathlib.Core.List.{List, [], ◌++◌}
use native.Mathlib.Omega.{arith}
use git4go.Common.Lists.{length, take, drop, take-append_left, drop-append_left, length-drop}
use git4go.Common.Tests.{leb, if◌then◌else◌}
use git4go.Common.Outcomes.{Outcome, ok, panic}

pub record Slice : Type 0 where
  pub elems : List ℕ
  pub spare : List ℕ

-- `s[low:low+size]`, of which the callers read the elements.
unfoldable pub slice_range {ℓ} : {E : Type ℓ} → Slice → ℕ → ℕ → Outcome E (List ℕ)
slice_range s low size =
    if leb (low + size) (length s.elems + length s.spare)
    then ok (take size (drop low (s.elems ++ s.spare)))
    else panic

-- Within the length the range is one of the elements.
pub slice_range-ok {ℓ} :
    {E : Type ℓ} (s : Slice) (low size : ℕ)
    → low + size ≤ length s.elems
    → slice_range {E = E} s low size ≡ ok (take size (drop low s.elems))
unfolding slice_range
slice_range-ok s low size h = ground (
  arith,
  drop-append_left low s.elems s.spare,
  take-append_left size (drop low s.elems) s.spare,
  length-drop low s.elems,
)

-- A prefix of an array, which has no capacity beyond its length.
pub slice_range-start {ℓ} :
    {E : Type ℓ} (xs : List ℕ) (size : ℕ)
    → size ≤ length xs
    → slice_range {E = E} (record { elems = xs; spare = [] }) 0 size ≡ ok (take size xs)
slice_range-start xs size h =
    slice_range-ok (record { elems = xs; spare = [] }) 0 size (omega (arith, h))
