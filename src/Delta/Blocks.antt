-- ===== src/Delta/Blocks.antt =====
-- sliceBlock, hashBlock, Blocks and Bucket of delta.go: a source is cut into blocks, one to a line
-- of at most 90 bytes, and a table tells at which offsets a block begins. A byte string that is
-- read from an offset on is what lies behind the offset.
use git4go.Common.{
  ℕ, ◌+◌, ◌*◌, ◌/◌, ◌%◌, ◌^◌, bit_and, Bool, true, false, ◌&&◌, Option, none, some, List, [], ◌∷◌,
  ◌++◌, take, drop, get_elem?, set, replicate, ltb, ◌==◌, if◌then◌else◌, Outcome, ok, panic, ◌>>=◌,
}

-- The length of the block at the head of `rest`, of which `n` bytes are passed already: up to and
-- with a newline, or 90 bytes without one.
unfoldable pub block_length : (rest : List ℕ) (n : ℕ) → ℕ
block_length [] n = n
block_length (b ∷ rest) n =
    let longer = block_length rest (n + 1) in
    if b == 10 then n + 1 else if ltb n 90 then longer else n

unfoldable pub slice_block : List ℕ → ℕ → List ℕ
unfolding block_length
slice_block buffer pos = take (block_length (drop pos buffer) 0) (drop pos buffer)

-- The loop of hashBlock over the bytes left, on uint32.
unfoldable pub hash_loop : List ℕ → (rv w : ℕ) → ℕ
hash_loop [] rv w = rv
hash_loop (b ∷ buffer) rv w =
    let w' = bit_and (w * 29 % 2 ^ 32) 1073741824 in
    hash_loop buffer (bit_and ((rv + b * w' % 2 ^ 32) % 2 ^ 32) 1073741824) w'

unfoldable pub hash_block : List ℕ → ℕ
unfolding hash_loop
hash_block buffer = hash_loop buffer 0 1

-- bytes.Compare(a, b) == 0
unfoldable pub bytes_eq : List ℕ → List ℕ → Bool
bytes_eq [] [] = true
bytes_eq [] (b ∷ bs) = false
bytes_eq (a ∷ as') [] = false
bytes_eq (a ∷ as') (b ∷ bs) = a == b && bytes_eq as' bs

-- A bucket holds each key with the values that were set for it, in the order of the calls.
abbrev pub Bucket : Type 0
Bucket = List (List ℕ × List ℕ)

unfoldable pub bucket_set : Bucket → List ℕ → ℕ → Bucket
unfolding bytes_eq
bucket_set [] key value = (key, value ∷ []) ∷ []
bucket_set ((stored_key, values) ∷ b) key value =
    if bytes_eq key stored_key
    then (stored_key, values ++ (value ∷ [])) ∷ b
    else (stored_key, values) ∷ bucket_set b key value

-- `none` is the nil slice.
unfoldable pub bucket_get : Bucket → List ℕ → Option (List ℕ)
unfolding bytes_eq
bucket_get [] key = none
bucket_get ((stored_key, values) ∷ b) key =
    if bytes_eq key stored_key then some values else bucket_get b key

pub record Blocks : Type 0 where
  pub n : ℕ
  pub buckets : List Bucket

unfoldable pub new_blocks : ℕ → Blocks
new_blocks n = record { n = n; buckets = replicate n [] }

-- A division by zero panics, and so does an index behind the last bucket.
unfoldable pub bucket_at {ℓ} : {E : Type ℓ} → Blocks → ℕ → Outcome E Bucket
bucket_at b index = elim (get_elem? b.buckets index) [ none ↦ panic | some bucket ↦ ok bucket ]

unfoldable pub bucket_index {ℓ} : {E : Type ℓ} → Blocks → List ℕ → Outcome E ℕ
unfolding hash_block
bucket_index b key = if b.n == 0 then panic else ok (hash_block key / b.n)

unfoldable pub blocks_set {ℓ} : {E : Type ℓ} → Blocks → List ℕ → ℕ → Outcome E Blocks
unfolding bucket_index bucket_at bucket_set
blocks_set b key value = do
  index ← bucket_index b key
  bucket ← bucket_at b index
  ok (record b { buckets = set b.buckets index (bucket_set bucket key value) })

unfoldable pub blocks_get {ℓ} : {E : Type ℓ} → Blocks → List ℕ → Outcome E (Option (List ℕ))
unfolding bucket_index bucket_at bucket_get
blocks_get b key = do
  index ← bucket_index b key
  bucket ← bucket_at b index
  ok (bucket_get bucket key)
