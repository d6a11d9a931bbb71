-- ===== src/Delta/LongBlocks.antt =====
-- A source whose blocks have four bytes at least: every match that CreateDelta finds is then long
-- enough for a copy.
use git4go.Common.{
  ℕ, zero, suc, ◌+◌, ◌/◌, ◌≤◌, ◌≡◌, refl, sym, ap, ◌∙◌, arith, List, [], ◌∷◌, length,
  length-take-le, take-take, take, drop, All, Option, none, some, ltb, if◌then◌else◌, Bool-cases,
  inl, inr, ltb→lt, if_both, ok, Slice,
}
use git4go.Delta.Blocks.{slice_block, block_length, Blocks, bucket_set, bucket_get}
use git4go.Delta.Match.{Match, common_prefix, inside, longer, choose_loop}
use git4go.Delta.Create.{index_source, find_match}
use git4go.Delta.Matching.{slice_block_bounds}
use git4go.Delta.Table.{IsTable, Holds, bucket_set-Holds, bucket_get-Holds, blocks_set-first}

-- The offsets at which the first loop of CreateDelta enters a block.
abbrev pub block_starts : ℕ → List ℕ → ℕ → List ℕ
block_starts zero source i = []
block_starts (suc fuel) source i =
    let rest = block_starts fuel source (i + length (slice_block source i)) in
    if ltb i (length source) then i ∷ rest else []

abbrev pub IsLong : List ℕ → ℕ → Type 0
IsLong source p = 4 ≤ length (slice_block source p)

pub index_source-IsTable :
    (fuel : ℕ) (source : List ℕ) (blocks : Blocks) (i : ℕ)
    → length source ≤ i + fuel
    → All (IsLong source) (block_starts fuel source i)
    → IsTable source blocks
    → (blocks' : Blocks) × (index_source fuel source blocks i ≡ ok blocks') × IsTable source blocks'
unfolding index_source
index_source-IsTable zero source blocks i hf long t = (blocks, ground arith, t)
index_source-IsTable (suc fuel) source blocks i hf long t =
    elim (Bool-cases (ltb i (length source))) [
      | inr e ↦ (blocks, rw e, t)
      | inl e ↦
          let all : All (IsLong source) (i ∷ block_starts fuel source next) = rw e at long in
          let (blocks', e', t') =
            index_source-IsTable fuel source entered next
              (omega (arith, slice_block_bounds source i (ltb→lt _ _ e))) all.1
              (entered-IsTable all.0) in
          (blocks', rw e (rw (blocks_set-first blocks (slice_block source i) i t.table) e'), t')
    ]
  where
    next : ℕ
    next = i + length (slice_block source i)

    entered : Blocks
    entered = record blocks { buckets = bucket_set t.first (slice_block source i) i ∷ t.others }

    entered-IsTable : IsLong source i → IsTable source entered
    entered-IsTable h = record {
      table = record {
        first = bucket_set t.first (slice_block source i) i;
        others = t.others;
        buckets = refl;
        size = t.size;
      };
      holds = bucket_set-Holds source t.first (slice_block source i) i (refl, h) t.holds;
    }

common_prefix-ge :
    (k : ℕ) (ss ts : List ℕ)
    → k ≤ length ss
    → k ≤ length ts
    → take k ss ≡ take k ts
    → k ≤ common_prefix ss ts
unfolding common_prefix
common_prefix-ge zero ss ts hs ht h = omega arith
common_prefix-ge (suc k) [] ts hs ht h = absurd (omega arith)
common_prefix-ge (suc k) (s ∷ ss) [] hs ht h = absurd (omega arith)
common_prefix-ge (suc k) (s ∷ ss) (t ∷ ts) hs ht h = ground (arith, common_prefix-ge k ss ts)

-- The best match so far, if there is one, has four bytes.
abbrev pub LongMatch : Option Match → Type 0
LongMatch none = Unit {0}
LongMatch (some m) = 4 ≤ m.length

choose_loop-long :
    (source positions rest : List ℕ) (rv : Option Match)
    → All (λ p. 4 ≤ common_prefix (drop p source) rest) positions
    → LongMatch rv
    → LongMatch (choose_loop source positions rest rv)
unfolding choose_loop
choose_loop-long source [] rest rv h k = k
choose_loop-long source (p ∷ positions) rest rv h k =
    if_both LongMatch (inside rv p) (choose_loop-long source positions rest rv h.1 k) (
      if_both LongMatch (ltb (length source / 5) best.length) {x = some best} better
        (choose_loop-long source positions rest (some best) h.1 better))
  where
    best : Match
    best = longer rv (common_prefix (drop p source) rest) p

    keeps :
        (rv : Option Match)
        → LongMatch rv
        → 4 ≤ (longer rv (common_prefix (drop p source) rest) p).length
    keeps none k = h.0
    keeps (some m) k =
        if_both (λ (m : Match). 4 ≤ m.length) (ltb m.length (common_prefix (drop p source) rest))
          h.0 k

    better : 4 ≤ best.length
    better = keeps rv k

-- Two places with one block agree as far as the block goes.
same_block :
    (source target key : List ℕ) (p i : ℕ)
    → slice_block source p ≡ key
    → slice_block target i ≡ key
    → 4 ≤ length key
    → 4 ≤ common_prefix (drop p source) (drop i target)
unfolding slice_block
same_block source target key p i hs ht long =
    common_prefix-ge 4 (drop p source) (drop i target)
      (omega (arith, long_source, length-take-le _ (drop p source)))
      (omega (arith, long_target, length-take-le _ (drop i target)))
      (sym (take-take 4 _ (drop p source) long_source)
        ∙ ap (take 4) (hs ∙ sym ht)
        ∙ take-take 4 _ (drop i target) long_target)
  where
    long_source : 4 ≤ length (take (block_length (drop p source) 0) (drop p source))
    long_source = rw hs long

    long_target : 4 ≤ length (take (block_length (drop i target) 0) (drop i target))
    long_target = rw ht long

All-same :
    (source target : List ℕ) (i : ℕ) (offsets : List ℕ)
    → All (Holds source (slice_block target i)) offsets
    → All (λ p. 4 ≤ common_prefix (drop p source) (drop i target)) offsets
All-same source target i [] h = tt
All-same source target i (p ∷ offsets) h = (
  same_block source target (slice_block target i) p i h.0.0 refl h.0.1,
  All-same source target i offsets h.1,
)

module _ (source : List ℕ) (target : Slice) (blocks : Blocks) (t : IsTable source blocks) where
  pub find_match-long :
      (i : ℕ) (offsets : Option (List ℕ))
      → bucket_get t.first (slice_block target.elems i) ≡ offsets
      → LongMatch (find_match source target i offsets)
  unfolding find_match
  find_match-long i none h = tt
  find_match-long i (some offsets) h =
      choose_loop-long source offsets (drop i target.elems) none
        (All-same source target.elems i offsets
          (bucket_get-Holds source t.first (slice_block target.elems i) offsets t.holds h))
        tt
