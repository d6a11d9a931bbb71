-- ===== src/Pack/Search/Position.antt =====
-- sha1Position of pack.go finds a key exactly where a sorted table has it.
use git4go.Common.{
  ℕ, zero, suc, ◌+◌, ◌-◌, ◌*◌, ◌/◌, ◌%◌, ◌^◌, ◌≤◌, ◌<◌, Ordering, ◌≡◌, refl, sym, subst, true,
  false, List, arith, dec_lt, ltb, lt→ltb, length, take, drop, Outcome, ok, Slice, slice_range-ok,
  bytes_compare, bytes_compare-eq, bytes_compare_trans, bytes_compare_flip, ℤ, pos, negsuc,
}
use git4go.Pack.Search.{by_order, position_loop, sha1_position}

-- The id at an index of the table.
abbrev pub row_at : (table : Slice) (stride i : ℕ) → List ℕ
row_at table stride i = take 20 (drop (i * stride) table.elems)

-- A table of `n` rows within its bytes, in strictly rising order.
pub record IsSorted (table : Slice) (stride n : ℕ) : Type 0 where
  pub few : n ≤ 2 ^ 31
  pub fits : (i : ℕ) → i < n → i * stride + 20 ≤ length table.elems
  pub rising :
      (i j : ℕ)
      → i < j
      → j < n
      → bytes_compare (row_at table stride i) (row_at table stride j) ≡ Ordering.lt

module _ (table : Slice) (stride n : ℕ) (key : List ℕ) where
  abbrev pub AllBelow : ℕ → Type 0
  AllBelow m = (i : ℕ) → i < m → bytes_compare (row_at table stride i) key ≡ Ordering.lt

  abbrev pub AllAbove : ℕ → Type 0
  AllAbove m = (i : ℕ) → m ≤ i → i < n → bytes_compare (row_at table stride i) key ≡ Ordering.gt

  -- What a result says: where the key is, or how many rows are below it, the others being above.
  abbrev pub IsPosition : ℤ → Type 0
  IsPosition (pos i) = (i < n) × (row_at table stride i ≡ key)
  IsPosition (negsuc m) = (m ≤ n) × AllBelow m × AllAbove m

  rows_below :
      IsSorted table stride n
      → (m : ℕ) → m < n
      → bytes_compare (row_at table stride m) key ≡ Ordering.lt
      → AllBelow (m + 1)
  rows_below s m inside h i below = elim (dec_lt i m) [
    | yes k ↦ bytes_compare_trans _ (row_at table stride m) key (s.rising i m k inside) h
    | no k ↦ subst (λ t. bytes_compare (row_at table stride t) key ≡ Ordering.lt) (omega arith) h
  ]

  rows_above :
      IsSorted table stride n
      → (m : ℕ) → bytes_compare (row_at table stride m) key ≡ Ordering.gt
      → AllAbove m
  rows_above s m h i above inside = elim (dec_lt m i) [
    | yes k ↦ (bytes_compare_flip _ _).1 (
        bytes_compare_trans key (row_at table stride m) _ ((bytes_compare_flip _ _).0 h)
          (s.rising m i k inside))
    | no k ↦ subst (λ t. bytes_compare (row_at table stride t) key ≡ Ordering.gt) (omega arith) h
  ]

  module _ (E : Type 0) where
    Found : Outcome E ℤ → Type 0
    Found r = (p : ℤ) × (r ≡ ok p) × IsPosition p

    halve-eq :
        (fuel lo hi mi : ℕ)
        → IsSorted table stride n
        → lo < hi
        → hi ≤ n
        → mi ≡ (lo + hi) / 2
        → position_loop {E = E} (suc fuel) table stride lo hi key
          ≡ by_order
              (bytes_compare (row_at table stride mi) key)
              (position_loop fuel table stride (mi + 1) hi key)
              (ok (pos mi))
              (position_loop fuel table stride lo mi key)
    unfolding position_loop
    halve-eq fuel lo hi mi s order inside half =
        rw
          (
            open_loop,
            middle,
            next,
            slice_range-ok {E = E} table (mi * stride) 20 (s.fits mi (omega arith)),
          )
          refl
      where
        open_loop : ltb lo hi ≡ true
        open_loop = lt→ltb lo hi order

        middle : (lo + hi) % 2 ^ 32 / 2 ≡ mi
        middle = omega (arith, s.few)

        next : (mi + 1) % 2 ^ 32 ≡ mi + 1
        next = omega (arith, s.few)

    Searched : (fuel : ℕ) → Type 0
    Searched fuel =
        (lo hi : ℕ)
        → lo ≤ hi
        → hi ≤ n
        → hi ≤ lo + fuel
        → AllBelow lo
        → AllAbove hi
        → Found (position_loop fuel table stride lo hi key)

    -- A round with the middle row `mi`, which compares as `c`.
    round-Found :
        (c : Ordering) (fuel lo hi mi : ℕ)
        → bytes_compare (row_at table stride mi) key ≡ c
        → IsSorted table stride n
        → lo ≤ mi
        → mi < hi
        → hi ≤ n
        → hi ≤ lo + suc fuel
        → AllBelow lo
        → AllAbove hi
        → Searched fuel
        → Found (
            by_order c
              (position_loop fuel table stride (mi + 1) hi key)
              (ok (pos mi))
              (position_loop fuel table stride lo mi key))
    unfolding Found Searched
    round-Found Ordering.lt fuel lo hi mi h s low high inside enough below above rest =
        rest (mi + 1) hi (omega arith) inside (omega arith) (rows_below s mi (omega arith) h) above
    round-Found Ordering.eq fuel lo hi mi h s low high inside enough below above rest =
        (pos mi, refl, (omega arith, bytes_compare-eq _ _ h))
    round-Found Ordering.gt fuel lo hi mi h s low high inside enough below above rest =
        rest lo mi low (omega arith) (omega arith) below (rows_above s mi h)

    stopped-Found :
        (fuel lo hi : ℕ)
        → hi ≤ lo
        → lo ≤ n
        → AllBelow lo
        → AllAbove hi
        → Found (position_loop fuel table stride lo hi key)
    unfolding position_loop Found
    stopped-Found zero lo hi order inside below above =
        rw stopped (negsuc lo, refl, (inside, below, λ i h. above i (omega arith)))
      where
        stopped : ltb lo hi ≡ false
        stopped = ground arith
    stopped-Found (suc fuel) lo hi order inside below above =
        rw stopped (negsuc lo, refl, (inside, below, λ i h. above i (omega arith)))
      where
        stopped : ltb lo hi ≡ false
        stopped = ground arith

    position_loop-Found : (fuel : ℕ) → IsSorted table stride n → Searched fuel
    unfolding Searched
    position_loop-Found zero s lo hi order inside enough below above =
        stopped-Found zero lo hi (omega arith) (omega arith) below above
    position_loop-Found (suc fuel) s lo hi order inside enough below above = elim (dec_lt lo hi) [
      | no k ↦ stopped-Found (suc fuel) lo hi (omega arith) (omega arith) below above
      | yes k ↦ subst Found (sym (halve-eq fuel lo hi ((lo + hi) / 2) s k inside refl)) (
          round-Found _ fuel lo hi ((lo + hi) / 2) refl s (omega arith) (omega arith) inside
            (omega arith) below above (position_loop-Found fuel s))
    ]

    -- On a sorted table of at most 2 ^ 31 rows, searched between two indexes such that the rows before are below the key and
    -- those from the second on above it, sha1Position returns: the index of the key, or the number of
    -- rows below it, as -lo - 1, when no row is the key.
    pub sha1_position-IsPosition :
        (lo hi : ℕ)
        → IsSorted table stride n
        → lo ≤ hi
        → hi ≤ n
        → AllBelow lo
        → AllAbove hi
        → (p : ℤ) × (sha1_position {E = E} table stride lo hi key ≡ ok p) × IsPosition p
    unfolding sha1_position Found Searched
    sha1_position-IsPosition lo hi s order inside below above =
        position_loop-Found (hi - lo) s lo hi order inside (omega arith) below above
