-- ===== src/Pack/Offset/Found.antt =====
-- findOffset of pack.go on a well-formed index of version 2 and a whole id.
use git4go.Common.{
  ℕ, zero, suc, ◌+◌, ◌-◌, ◌*◌, ◌<◌, ◌≤◌, Ordering, ◌≡◌, ◌≢◌, refl, sym, ap, ◌∙◌, true, false, List,
  [], ◌∷◌, ◌++◌, copy_at, arith, dec_lt, ltb, lt→ltb, le→not_ltb, ◌==◌, if◌then◌else◌, length, take,
  drop, drop-drop, length-take, length-drop, take-append-drop, overwrite-eq, bytes_compare_self,
  append-nil, ◌⊎◌, inl, inr, Outcome, ok, err, ◌>>=◌, bytes_compare, bytes_compare_flip, ℤ, pos,
  negsuc, message,
}
use git4go.Oid.{Oid, zero_oid, new_oid_from_bytes}
use git4go.Oid.RoundTrip.{new_oid_from_bytes-append}
use git4go.Pack.Search.Position.{row_at, IsPosition, sha1_position-IsPosition}
use git4go.Pack.Offset.{
  PackIndex, FindError, level1, nth_packed_object_offset, id_at, is_same, has_prefix, found_at,
  at_position, find_offset, table_offset, table_stride,
}
use git4go.Pack.Offset.Rows.{ids, first_byte, IsIndex, compare-first, suc_ne_zero, n_cmp-whole}

module _ (p : PackIndex) (fan : ℕ → ℕ) (index : IsIndex p fan) where
  length-row : (i : ℕ) → i < p.num_objects → length (row_at (ids p) 20 i) ≡ 20
  length-row i h =
      length-take 20 (drop (i * 20) (ids p).elems)
        (omega (arith, index.sorted.fits i h, length-drop (i * 20) (ids p).elems))

  -- The rows before those of a first byte are below each id with it, and the rows behind are above.
  rows_before :
      (key : Oid) (b i : ℕ)
      → length key ≡ 20
      → b < first_byte key
      → i < fan b
      → bytes_compare (row_at (ids p) 20 i) key ≡ Ordering.lt
  rows_before key b i twenty lt h =
      compare-first (row_at (ids p) 20 i) key
        (omega (arith, length-row i (omega (arith, h, index.within b)))) (omega (arith, twenty))
        (omega (arith, index.low b i h, lt))

  rows_behind :
      (key : Oid) (i : ℕ)
      → length key ≡ 20
      → fan (first_byte key) ≤ i
      → i < p.num_objects
      → bytes_compare (row_at (ids p) 20 i) key ≡ Ordering.gt
  rows_behind key i twenty h inside = (bytes_compare_flip key (row_at (ids p) 20 i)).1 (
      compare-first key (row_at (ids p) 20 i) (omega (arith, twenty))
        (omega (arith, length-row i inside)) (index.high (first_byte key) i h inside))

  offset_of_table : table_offset p ≡ 8 + 4 * 256
  unfolding table_offset
  offset_of_table = rw index.version refl

  stride_of_table : table_stride p ≡ 20
  unfolding table_stride
  stride_of_table = rw index.version refl

  table_inside : ltb (length p.index_map) (8 + 4 * 256) ≡ false
  table_inside = le→not_ltb (length p.index_map) (8 + 4 * 256) index.room

  -- The search that findOffset makes, with what its result says.
  abbrev Searches : (key : Oid) → Type 0
  Searches key =
      (r : ℤ) × (find_offset p key 40 ≡ at_position p key 40 r)
      × IsPosition (ids p) 20 p.num_objects key r

  find_offset-from :
      (b lo : ℕ) (tail : List ℕ)
      → length (b ∷ tail) ≡ 20
      → b < 256
      → ◌≡◌ {A = Outcome FindError ℕ} (if b == 0 then ok 0 else level1 p (b - 1)) (ok lo)
      → lo ≤ fan b
      → ((i : ℕ) → i < lo → bytes_compare (row_at (ids p) 20 i) (b ∷ tail) ≡ Ordering.lt)
      → Searches (b ∷ tail)
  unfolding find_offset
  find_offset-from b lo tail twenty small lo_word order below =
      let (r, searched, is_position) =
        sha1_position-IsPosition (ids p) 20 p.num_objects (b ∷ tail) FindError lo (fan b)
          index.sorted order (index.within b) below
          (λ i h k. rows_behind (b ∷ tail) i twenty h k) in
      (
        r,
        rw (index.words b small, lo_word, offset_of_table, stride_of_table, table_inside, searched)
            refl,
        is_position,
      )

  word_before :
      (b : ℕ)
      → ◌≡◌ {A = Outcome FindError ℕ}
          (if suc b == 0 then ok 0 else level1 p (suc b - 1))
          (level1 p b)
  word_before b = rw (suc_ne_zero b, one_less) refl
    where
      one_less : suc b - 1 ≡ b
      one_less = omega arith

  find_offset-position :
      (b : ℕ) (tail : List ℕ) → length (b ∷ tail) ≡ 20 → b < 256 → Searches (b ∷ tail)
  find_offset-position zero tail twenty small =
      find_offset-from zero 0 tail twenty small refl (omega arith)
        (λ i h. absurd (omega (arith, h)))
  find_offset-position (suc b) tail twenty small =
      find_offset-from (suc b) (fan b) tail twenty small
        (word_before b ∙ index.words b (omega (arith, small))) (index.rising b)
        (λ i h. rows_before (suc b ∷ tail) b i twenty (omega arith) h)

  row_bytes :
      (i : ℕ)
      → drop (8 + 4 * 256 + i * 20) p.index_map
        ≡ row_at (ids p) 20 i ++ drop 20 (drop (i * 20) (ids p).elems)
  row_bytes i =
      sym (drop-drop (i * 20) (8 + 4 * 256) p.index_map)
      ∙ sym (take-append-drop 20 (drop (i * 20) (ids p).elems))

  -- The id of a row is that row's bytes.
  id_of_row :
      (i : ℕ)
      → i < p.num_objects
      → new_oid_from_bytes {E = FindError} (drop (8 + 4 * 256 + i * 20) p.index_map) []
        ≡ ok (row_at (ids p) 20 i)
  id_of_row i h =
      rw (row_bytes i) (new_oid_from_bytes-append (row_at (ids p) 20 i) _ [] (length-row i h))

  found_at-row :
      (key : Oid) (i : ℕ)
      → i < p.num_objects
      → row_at (ids p) 20 i ≡ key
      → found_at p key 40 i ≡ (do offset ← nth_packed_object_offset p i; ok (offset, key))
  unfolding found_at
  found_at-row key i h same = rw (offset_of_table, stride_of_table, id_of_row i h ∙ ap ok same) refl

  no_prefix :
      (key : Oid) (i : ℕ)
      → length key ≡ 20
      → i < p.num_objects
      → bytes_compare (row_at (ids p) 20 i) key ≡ Ordering.gt
      → has_prefix p key 40 i ≡ ok false
  unfolding has_prefix id_at is_same
  no_prefix key i twenty h above =
      rw
        (
          offset_of_table,
          stride_of_table,
          le→not_ltb (length p.index_map) (8 + 4 * 256 + i * 20)
              (omega (arith, index.sorted.fits i h, length-drop (8 + 4 * 256) p.index_map)),
          copied,
          n_cmp-whole key (row_at (ids p) 20 i) Ordering.lt twenty (length-row i h)
              ((bytes_compare_flip (row_at (ids p) 20 i) key).0 above),
        )
        refl
    where
      copied :
          copy_at zero_oid 0 (take 20 (drop (8 + 4 * 256 + i * 20) p.index_map))
          ≡ row_at (ids p) 20 i
      copied =
          ap (λ l. copy_at zero_oid 0 (take 20 l))
            (sym (drop-drop (i * 20) (8 + 4 * 256) p.index_map))
          ∙ overwrite-eq zero_oid (row_at (ids p) 20 i) (omega (arith, length-row i h))
          ∙ ap (λ k. row_at (ids p) 20 i ++ drop k zero_oid) (length-row i h)
          ∙ append-nil (row_at (ids p) 20 i)

-- Where an index of version 2 is well formed, findOffset on a whole id gives the offset that the index
-- has for the row of the id, or the error of an id that is not found, and then no row has it.
pub find_offset-row :
    (p : PackIndex) (fan : ℕ → ℕ) (b : ℕ) (tail : List ℕ)
    → IsIndex p fan
    → length (b ∷ tail) ≡ 20
    → b < 256
    → ((i : ℕ) × (i < p.num_objects)
        × (row_at (ids p) 20 i ≡ b ∷ tail)
        × (find_offset p (b ∷ tail) 40
            ≡ (do offset ← nth_packed_object_offset p i; ok (offset, b ∷ tail))))
      ⊎ (((i : ℕ) → i < p.num_objects → row_at (ids p) 20 i ≢ b ∷ tail)
          × (find_offset p (b ∷ tail) 40
              ≡ err (record {
                not_found = true;
                error = message "failed to find offset for pack entry";
              })))
unfolding at_position
find_offset-row p fan b tail index twenty small =
    let (r, searched, is_position) = find_offset-position p fan index b tail twenty small in
    by_position r searched is_position
  where
    key : Oid
    key = b ∷ tail

    Result : Type 0
    Result =
        ((i : ℕ) × (i < p.num_objects)
          × (row_at (ids p) 20 i ≡ key)
          × (find_offset p key 40 ≡ (do offset ← nth_packed_object_offset p i; ok (offset, key))))
        ⊎ (((i : ℕ) → i < p.num_objects → row_at (ids p) 20 i ≢ key)
            × (find_offset p key 40
                ≡ err (record {
                  not_found = true;
                  error = message "failed to find offset for pack entry";
                })))

    absent :
        (m : ℕ)
        → IsPosition (ids p) 20 p.num_objects key (negsuc m)
        → (i : ℕ) → i < p.num_objects
        → row_at (ids p) 20 i ≢ key
    absent m (le, below, above) i inside same =
        let equal : bytes_compare (row_at (ids p) 20 i) key ≡ Ordering.eq =
          ap (λ l. bytes_compare l key) same ∙ bytes_compare_self key in
        elim (dec_lt i m) [
          | yes k ↦ cc (equal, below i k)
          | no k ↦ cc (equal, above i (omega (arith, k)) inside)
        ]

    refused :
        (m : ℕ)
        → IsPosition (ids p) 20 p.num_objects key (negsuc m)
        → at_position p key 40 (negsuc m)
          ≡ err
              (record { not_found = true; error = message "failed to find offset for pack entry" })
    refused m (le, below, above) = elim (dec_lt m p.num_objects) [
      | yes k ↦
          rw
            (
              lt→ltb m p.num_objects k,
              no_prefix p fan index key m twenty k (above m (omega arith) k),
            )
            refl
      | no k ↦ rw (le→not_ltb m p.num_objects (omega (arith, k))) refl
    ]

    by_position :
        (r : ℤ)
        → find_offset p key 40 ≡ at_position p key 40 r
        → IsPosition (ids p) 20 p.num_objects key r
        → Result
    by_position (pos i) searched (inside, same) =
        inl (i, inside, same, searched ∙ found_at-row p fan index key i inside same)
    by_position (negsuc m) searched is_position =
        inr (absent m is_position, searched ∙ refused m is_position)
