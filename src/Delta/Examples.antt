-- ===== src/Delta/Examples.antt =====
-- Runs of delta.go on the inputs of its tests, and the theorems at concrete inputs.
use git4go.Common.{
  ℕ, ◌≤◌, ◌≡◌, ◌≢◌, refl, arith, List, [], ◌∷◌, ◌++◌, inl, ok, panic, stuck, Slice, codes, some,
  length,
}
use git4go.Delta.Size.{encode_header, decode_header}
use git4go.Delta.Size.RoundTrip.{decode_header-encode_header}
use git4go.Delta.Blocks.{slice_block}
use git4go.Delta.Match.{choose_match}
use git4go.Delta.Emit.{DeltaError}
use git4go.Delta.Create.{create_delta}
use git4go.Delta.Apply.{apply_loop, apply_delta}
use git4go.Delta.Script.{copy, insert, encode_all, output, apply_loop-encode_all}
use git4go.Delta.RoundTrip.{apply_delta-create_delta}
use git4go.Delta.Total.{create_delta-total}
use git4go.Delta.Ends.{create_delta-ne-stuck}
use git4go.Delta.Applied.{apply_delta-eq-ok}
use git4go.Delta.ApplyEnds.{apply_delta-ne-stuck}
use git4go.Delta.ShortLine.{create_delta_short_line}

abbrev full : List ℕ → Slice
full bytes = record { elems = bytes; spare = [] }

abbrev source_lines : List ℕ
source_lines = codes "text file line 1\ntext file line 2\na"

abbrev target_lines : List ℕ
target_lines = codes "text file line 2\ntext file line 1\nab"

abbrev lines_delta : List ℕ
lines_delta = 0x23 ∷ 0x24 ∷ 0x91 ∷ 0x11 ∷ 0x11 ∷ 0x90 ∷ 0x11 ∷ 0x02 ∷ 0x61 ∷ 0x62 ∷ []

create_lines : create_delta source_lines (full target_lines) 0 ≡ ok lines_delta
unfolding create_delta
create_lines = refl

apply_lines : apply_delta 1000 (full source_lines) (full lines_delta) ≡ ok target_lines
unfolding apply_delta
apply_lines = refl

-- The theorems.
apply_delta-create_delta_example :
    apply_delta 1000 (full source_lines) (full lines_delta) ≡ ok target_lines
apply_delta-create_delta_example =
    apply_delta-create_delta 1000 0 (full source_lines) (full target_lines) [] lines_delta
      (omega arith, omega arith, inl (omega arith)) (omega arith) create_lines

abbrev two_lines : List ℕ
two_lines = codes "text file line 1\ntext file line 2\n"

create_delta-total_example :
    (delta : List ℕ) × (create_delta two_lines (full target_lines) 0 ≡ ok delta)
    × (apply_delta 1000 (full two_lines) (full delta) ≡ ok target_lines)
unfolding slice_block
create_delta-total_example =
    create_delta-total 1000 0 (full two_lines) (full target_lines) []
      (omega arith, omega arith, inl (omega arith)) (omega arith) (omega arith) (omega arith)

create_delta-ne-stuck_example : create_delta source_lines (full target_lines) 0 ≢ stuck
create_delta-ne-stuck_example = create_delta-ne-stuck source_lines (full target_lines) 0

create_delta_short_line_example : create_delta (codes "ab\n") (full (codes "ab\n")) 0 ≡ panic
unfolding slice_block
create_delta_short_line_example =
    create_delta_short_line (codes "ab\n") [] 0 (omega arith) (omega arith) refl (omega arith)

apply_delta-eq-ok_example :
    (target_size : ℕ) × (opcodes : List ℕ) × (decode_header {E = DeltaError} lines_delta
      ≡ ok (length source_lines, target_size, opcodes))
    × (length target_lines ≡ target_size)
    × (target_size ≤ 1000)
apply_delta-eq-ok_example =
    apply_delta-eq-ok 1000 (full source_lines) (full lines_delta) target_lines apply_lines

apply_delta-ne-stuck_example : apply_delta 1000 (full source_lines) (full (5 ∷ [])) ≢ stuck
apply_delta-ne-stuck_example = apply_delta-ne-stuck 1000 (full source_lines) (full (5 ∷ []))

decode_header-encode_header_example :
    decode_header {E = DeltaError} (encode_header source_lines target_lines ++ (0x91 ∷ []))
    ≡ ok (35, 36, 0x91 ∷ [])
decode_header-encode_header_example =
    decode_header-encode_header source_lines target_lines (0x91 ∷ [])

apply_loop-encode_all_example :
    apply_loop 2
      (full source_lines)
      (full lines_delta)
      (encode_all (copy 17 17 ∷ insert (7 ∷ 8 ∷ []) ∷ []))
      (output [] (codes "...................."))
    ≡ ok (output (codes "text file line 2\n" ++ (7 ∷ 8 ∷ [])) (codes "."))
apply_loop-encode_all_example =
    apply_loop-encode_all 2 (full source_lines) (full lines_delta)
      (copy 17 17 ∷ insert (7 ∷ 8 ∷ []) ∷ []) [] (codes "....................") (omega arith)
      (omega arith) (omega arith)

chosen :
    choose_match source_lines (17 ∷ 0 ∷ []) target_lines
    ≡ some (record { length = 17; offset = 17 })
unfolding choose_match
chosen = refl
