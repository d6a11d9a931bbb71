-- ===== src/Pack/Search.antt =====
-- sha1Position of pack.go: the binary search for an id in the sorted table of a pack's index.
pub mod Position
use git4go.Common.{
  ℕ, zero, suc, ◌+◌, ◌-◌, ◌*◌, ◌/◌, ◌%◌, ◌^◌, Ordering, List, ltb, if◌then◌else◌, Outcome, ◌>>=◌,
  ok, stuck, Slice, slice_range, bytes_compare, ℤ, pos, negsuc,
}

-- The three outcomes of a comparison.
abbrev pub by_order {ℓ} : {A : Type ℓ} → Ordering → (lower equal greater : A) → A
by_order Ordering.lt lower equal greater = lower
by_order Ordering.eq lower equal greater = equal
by_order Ordering.gt lower equal greater = greater

-- The loop of sha1Position. lo and hi have 32 bits, and so has their sum.
unfoldable pub position_loop {ℓ} :
    {E : Type ℓ} → ℕ → (table : Slice) (stride lo hi : ℕ) (key : List ℕ) → Outcome E ℤ
unfolding slice_range bytes_compare
position_loop zero table stride lo hi key = if ltb lo hi then stuck else ok (negsuc lo)
position_loop (suc fuel) table stride lo hi key =
    let mi = (lo + hi) % 2 ^ 32 / 2 in
    let below = position_loop fuel table stride lo mi key in
    let above = position_loop fuel table stride ((mi + 1) % 2 ^ 32) hi key in
    let halve = (do
      row ← slice_range table (mi * stride) 20
      by_order (bytes_compare row key) above (ok (pos mi)) below) in
    if ltb lo hi then halve else ok (negsuc lo)

-- The table's index of the key, or -lo - 1 for the index where it would stand. The distance of lo and
-- hi is fuel enough.
unfoldable pub sha1_position {ℓ} :
    {E : Type ℓ} → (table : Slice) (stride lo hi : ℕ) (key : List ℕ) → Outcome E ℤ
unfolding position_loop
sha1_position table stride lo hi key = position_loop (hi - lo) table stride lo hi key
