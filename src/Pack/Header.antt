-- ===== src/Pack/Header.antt =====
-- unpackHeader of pack.go: the type and the size at the head of an entry.
pub mod RoundTrip
use git4go.Common.{
  ℕ, ◌+◌, ◌*◌, ◌/◌, ◌%◌, ◌^◌, bit_and, List, [], ◌∷◌, drop, length, ltb, leb, ◌==◌, if◌then◌else◌,
  Outcome, ok, err, panic, ◌>>=◌, GitError, message, byte_at,
}

pub record PackChainElem : Type 0 where
  pub base_key : ℕ
  pub obj_type : ℕ
  pub offset : ℕ
  pub size : ℕ

-- The loop of unpackHeader, which ends with the number of bytes used and the size. `c` is the byte
-- read last, `n` the length of the buffer, and the list what lies behind the bytes used.
unfoldable pub header_loop : (n used c size shift : ℕ) → List ℕ → Outcome GitError (ℕ × ℕ)
header_loop n used c size shift [] =
    if bit_and c 0x80 == 0
    then ok (used, size)
    else if ltb n used
    then err (message "buffer too small")
    else if leb 64 shift
    then err (message "packfile corrupted")
    else panic
header_loop n used c size shift (b ∷ buffer) =
    let more =
      header_loop n (used + 1) b ((size + bit_and b 0x7f * 2 ^ shift % 2 ^ 64) % 2 ^ 64) (shift + 7)
        buffer in
    if bit_and c 0x80 == 0
    then ok (used, size)
    else if ltb n used
    then err (message "buffer too small")
    else if leb 64 shift
    then err (message "packfile corrupted")
    else more

-- `mwf_open` is the Open of the pack's window: the bytes at an offset, at least as many as asked for
-- where the file has them.
unfoldable pub unpack_header :
    (mwf_open : ℕ → ℕ → Outcome GitError (List ℕ)) (cur_pos : ℕ) → Outcome GitError PackChainElem
unfolding header_loop
unpack_header mwf_open cur_pos = do
  buffer ← mwf_open cur_pos 20
  c ← byte_at buffer 0
  (used, size) ← header_loop (length buffer) 1 c (bit_and c 15) 4 (drop 1 buffer)
  ok (record {
    base_key = 0;
    obj_type = bit_and (c / 2 ^ 4) 7;
    offset = (cur_pos + used) % 2 ^ 64;
    size = size;
  })
