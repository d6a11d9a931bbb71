-- ===== src/Delta/Table.antt =====
-- The table of CreateDelta: hashBlock, the one bucket that is used, and what it holds of a source.
use git4go.Common.{
  ℕ, ◌+◌, ◌*◌, ◌/◌, ◌%◌, ◌^◌, ◌≤◌, ◌<◌, ◌≡◌, refl, sym, ap, ◌∙◌, subst, bit_and, arith, List, [],
  ◌∷◌, length, All, All-append, some, true, false, ◌==◌, Bool-cases, inl, inr, ok,
}
use git4go.Common.Masks.{bit_field}
use git4go.Delta.Blocks.{
  slice_block, hash_loop, hash_block, bytes_eq, Bucket, bucket_set, bucket_get, Blocks,
  bucket_index, blocks_set, blocks_get,
}
use git4go.Delta.Emit.{DeltaError}
use native.Mathlib.Nat.{zero-div}

-- The mask has one bit, and 29 has it not: every hash is 0.
masked : (w : ℕ) → bit_and w 1073741824 ≡ w / 2 ^ 30 % 2 * 2 ^ 30
masked w = bit_field 30 w

hash_loop-zero : (buffer : List ℕ) (w : ℕ) → w < 2 → hash_loop buffer 0 w ≡ 0
unfolding hash_loop
hash_loop-zero [] w h = refl
hash_loop-zero (b ∷ buffer) w h =
    rw (masked (w * 29 % 2 ^ 32) ∙ high_zero)
      (rw (sum_zero) (hash_loop-zero buffer 0 (omega arith)))
  where
    high_zero : w * 29 % 2 ^ 32 / 2 ^ 30 % 2 * 2 ^ 30 ≡ 0
    high_zero = omega arith

    low : (0 + b * 0 % 2 ^ 32) % 2 ^ 32 / 2 ^ 30 % 2 * 2 ^ 30 ≡ 0
    low = omega arith

    sum_zero : bit_and ((0 + b * 0 % 2 ^ 32) % 2 ^ 32) 1073741824 ≡ 0
    sum_zero = masked _ ∙ low

-- hashBlock gives 0 on every block.
hash_block-zero : (buffer : List ℕ) → hash_block buffer ≡ 0
unfolding hash_block
hash_block-zero buffer = hash_loop-zero buffer 1 (omega arith)

some_eq : {A : Type 0} {a b : A} → some a ≡ some b → a ≡ b
some_eq h = cc

pub bytes_eq_sound : (a b : List ℕ) → bytes_eq a b ≡ true → a ≡ b
unfolding bytes_eq
bytes_eq_sound [] [] h = refl
bytes_eq_sound [] (y ∷ b) h = cc
bytes_eq_sound (x ∷ a) [] h = cc
bytes_eq_sound (x ∷ a) (y ∷ b) h = ground (arith, bytes_eq_sound a b)

-- Every offset that a bucket holds under a key is one at which the source has that key as block,
-- and every key has four bytes at least.
abbrev pub Holds : List ℕ → List ℕ → ℕ → Type 0
Holds source key p = (slice_block source p ≡ key) × (4 ≤ length key)

abbrev pub BucketHolds : List ℕ → Bucket → Type 0
BucketHolds source b = All (λ (e : List ℕ × List ℕ). All (Holds source e.0) e.1) b

pub bucket_set-Holds :
    (source : List ℕ) (b : Bucket) (key : List ℕ) (p : ℕ)
    → Holds source key p
    → BucketHolds source b
    → BucketHolds source (bucket_set b key p)
unfolding bucket_set
bucket_set-Holds source [] key p h k = ((h, tt), tt)
bucket_set-Holds source ((stored_key, values) ∷ b) key p h k =
    elim (Bool-cases (bytes_eq key stored_key)) [
      | inl e ↦ rw e (
        All-append (Holds source stored_key) values (p ∷ []) k.0
            (subst (λ s. Holds source s p) (bytes_eq_sound key stored_key e) h, tt),
        k.1,
      )
      | inr e ↦ rw e (k.0, bucket_set-Holds source b key p h k.1)
    ]

pub bucket_get-Holds :
    (source : List ℕ) (b : Bucket) (key offsets : List ℕ)
    → BucketHolds source b
    → bucket_get b key ≡ some offsets
    → All (Holds source key) offsets
unfolding bucket_get
bucket_get-Holds source [] key offsets k h = cc
bucket_get-Holds source ((stored_key, values) ∷ b) key offsets k h =
    elim (Bool-cases (bytes_eq key stored_key)) [
      | inl e ↦
          subst (All (Holds source key)) (some_eq (rw e at h))
            (subst (λ s. All (Holds source s) values) (sym (bytes_eq_sound key stored_key e)) k.0)
      | inr e ↦ bucket_get-Holds source b key offsets k.1 (rw e at h)
    ]

-- A table with a first bucket.
pub record HasFirst (blocks : Blocks) : Type 0 where
  pub first : Bucket
  pub others : List Bucket
  pub buckets : blocks.buckets ≡ first ∷ others
  pub size : 0 < blocks.n

-- Every offset of its first bucket is one of the key that it stands under.
pub record IsTable (source : List ℕ) (blocks : Blocks) : Type 0 where
  pub table : HasFirst blocks
  pub open table use *
  pub holds : BucketHolds source table.first

bucket_index-first :
    (blocks : Blocks) (key : List ℕ)
    → HasFirst blocks
    → bucket_index {E = DeltaError} blocks key ≡ ok 0
unfolding bucket_index
bucket_index-first blocks key t = rw (nonzero, hash_block-zero key) (ap ok (zero-div blocks.n))
  where
    nonzero : (blocks.n == 0) ≡ false
    nonzero = ground (arith, t.size)

-- Both operations reach the first bucket, since every hash is 0.
pub blocks_set-first :
    (blocks : Blocks) (key : List ℕ) (p : ℕ) (t : HasFirst blocks)
    → blocks_set {E = DeltaError} blocks key p
      ≡ ok (record blocks { buckets = bucket_set t.first key p ∷ t.others })
unfolding blocks_set
blocks_set-first blocks key p t = rw (bucket_index-first blocks key t) (rw (t.buckets))

pub blocks_get-first :
    (blocks : Blocks) (key : List ℕ) (t : HasFirst blocks)
    → blocks_get {E = DeltaError} blocks key ≡ ok (bucket_get t.first key)
unfolding blocks_get
blocks_get-first blocks key t = rw (bucket_index-first blocks key t) (rw (t.buckets))
