-- ===== src/Tree/Builder/RoundTrip.antt =====
-- newTree of tree.go reads the entries that TreeBuilder.Write of tree_builder.go wrote.
use git4go.Common.{
  or_else, or_cases, ==_iff, subst, ℕ, zero, suc, ◌^◌, ◌≤◌, ◌<◌, ◌≡◌, refl, sym, ap, ◌∙◌, inl, inr,
  true, false, some, List, [], ◌∷◌, ◌++◌, append-nil, append_assoc, arith, ◌==◌, length, drop, All,
  length-append, drop-append_self, ◌>>=◌, ok, GitError,
}
use git4go.Oid.{oid_raw_size}
use git4go.Oid.RoundTrip.{new_oid_from_bytes-append}
use git4go.Tree.Number.Octal.{octal, strtol32-octal}
use git4go.Tree.Entries.{
  filemode_tree, filemode_blob, filemode_blob_executable, filemode_link, filemode_commit, TreeEntry,
  attr2o_type, attr2_filemode, valid_filemode, split_zero, read_name, read_entry, read_round,
  new_tree_loop, new_tree,
}
use git4go.Tree.Builder.{encode_entry, encode_entries}

-- An entry that a tree object can hold: the name is not empty and has no byte 0, the id has its
-- length, the mode is one of the five, and the type is the one of the mode.
pub record IsEntry (e : TreeEntry) : Type 0 where
  pub named : 0 < length e.name
  pub no_zero : All (λ c. 0 < c) e.name
  pub whole_id : length e.id ≡ oid_raw_size
  pub of_mode : valid_filemode e.filemode ≡ true
  pub of_type : e.object_type ≡ attr2o_type e.filemode

valid_filemode-cases :
    (P : ℕ → Type 0) (mode : ℕ)
    → valid_filemode mode ≡ true
    → P filemode_tree
      × P filemode_blob
      × P filemode_blob_executable
      × P filemode_link
      × P filemode_commit
    → P mode
unfolding valid_filemode
valid_filemode-cases P mode h all = elim (or_cases _ _ h) [
  | inl e ↦ at e all.0
  | inr h ↦ elim (or_cases _ _ h) [
    | inl e ↦ at e all.1
    | inr h ↦ elim (or_cases _ _ h) [
      | inl e ↦ at e all.2
      | inr h ↦ elim (or_cases _ _ h) [ inl e ↦ at e all.3 | inr e ↦ at e all.4 ]
    ]
  ]
]
  where
    at : {k : ℕ} → mode == k ≡ true → P k → P mode
    at {k} e p = subst P (sym ((==_iff mode k).0 e)) p

pub attr2_filemode-valid :
    (mode : ℕ) → valid_filemode mode ≡ true → (attr2_filemode mode ≡ mode) × (mode < 2 ^ 32)
unfolding attr2_filemode
attr2_filemode-valid mode h =
    valid_filemode-cases (λ m. (attr2_filemode m ≡ m) × (m < 2 ^ 32)) mode h
      (
        (refl, omega arith),
        (refl, omega arith),
        (refl, omega arith),
        (refl, omega arith),
        (refl, omega arith),
      )

split_zero-append :
    (front name rest : List ℕ)
    → All (λ c. 0 < c) name
    → split_zero front (name ++ (0 ∷ rest)) ≡ some (front ++ name, rest)
unfolding split_zero
split_zero-append front [] rest h = rw (append-nil front) refl
split_zero-append front (c ∷ name) rest h = rw other (
    split_zero-append (front ++ (c ∷ [])) name rest h.1
    ∙ ap (λ t. some (t, rest)) (append_assoc front (c ∷ []) name))
  where
    other : c == 0 ≡ false
    other = ground (arith, h.0)

read_entry-append :
    (spare : List ℕ) (attr : ℕ) (name id rest : List ℕ)
    → 0 < length name
    → length id ≡ oid_raw_size
    → read_entry spare attr (name, id ++ rest)
      ≡ ok (
        record {
          name = name;
          id = id;
          object_type = attr2o_type attr;
          filemode = attr2_filemode attr;
        },
        rest,
      )
unfolding read_entry
read_entry-append spare attr [] id rest h k = absurd (omega arith)
read_entry-append spare attr (c ∷ name) id rest h k =
    rw (new_oid_from_bytes-append {E = GitError} id rest spare k, behind) refl
  where
    behind : drop 20 (id ++ rest) ≡ rest
    behind = ap (λ n. drop n (id ++ rest)) (sym k) ∙ drop-append_self id rest

encode_entry-append :
    (e : TreeEntry) (rest : List ℕ)
    → encode_entry e ++ rest ≡ octal e.filemode ++ (32 ∷ (e.name ++ (0 ∷ (e.id ++ rest))))
unfolding encode_entry
encode_entry-append e rest =
    append_assoc (octal e.filemode) (32 ∷ (e.name ++ (0 ∷ e.id))) rest
    ∙ ap (λ t. octal e.filemode ++ (32 ∷ t)) (append_assoc e.name (0 ∷ e.id) rest)

-- A round of newTree takes one entry off, whatever the entry before was.
read_round-encode_entry :
    (spare before : List ℕ) (e : TreeEntry) (rest : List ℕ)
    → IsEntry e
    → read_round spare before (encode_entry e ++ rest) ≡ ok (e, rest)
unfolding read_round read_name
read_round-encode_entry spare before e rest v =
    rw
      (
        encode_entry-append e rest,
        strtol32-octal e.filemode (e.name ++ (0 ∷ (e.id ++ rest))) (omega (arith, mode.1)),
        ap (λ t. or_else t (before, e.name ++ (0 ∷ (e.id ++ rest))))
            (split_zero-append [] e.name (e.id ++ rest) v.no_zero),
        read_entry-append spare e.filemode e.name e.id rest v.named v.whole_id,
        mode.0,
        ← v.of_type,
      )
      refl
  where
    mode : (attr2_filemode e.filemode ≡ e.filemode) × (e.filemode < 2 ^ 32)
    mode = attr2_filemode-valid e.filemode v.of_mode

new_tree_loop-round :
    (fuel : ℕ) (spare before contents : List ℕ) (e : TreeEntry) (rest : List ℕ)
    → 0 < length contents
    → read_round spare before contents ≡ ok (e, rest)
    → new_tree_loop (suc fuel) spare before contents
      ≡ (new_tree_loop fuel spare e.name rest >>= λ entries. ok (e ∷ entries))
unfolding new_tree_loop
new_tree_loop-round fuel spare before [] e rest h p = absurd (omega arith)
new_tree_loop-round fuel spare before (c ∷ contents) e rest h p = rw p refl

length-encode_entry :
    (e : TreeEntry) (rest : List ℕ) → length rest < length (encode_entry e ++ rest)
length-encode_entry e rest = rw (encode_entry-append e rest) (
    omega (
      arith,
      length-append (octal e.filemode) (32 ∷ (e.name ++ (0 ∷ (e.id ++ rest)))),
      length-append e.name (0 ∷ (e.id ++ rest)),
      length-append e.id rest,
    ))

length-encode_entries :
    (entries : List TreeEntry) → length entries ≤ length (encode_entries entries)
unfolding encode_entries
length-encode_entries [] = omega arith
length-encode_entries (e ∷ entries) =
    omega (arith, length-encode_entries entries, length-encode_entry e (encode_entries entries))

new_tree_loop-encode_entries :
    (fuel : ℕ) (spare before : List ℕ) (entries : List TreeEntry)
    → All IsEntry entries
    → length entries ≤ fuel
    → new_tree_loop fuel spare before (encode_entries entries) ≡ ok entries
unfolding encode_entries
new_tree_loop-encode_entries zero spare before [] v h = unfold new_tree_loop in refl
new_tree_loop-encode_entries (suc fuel) spare before [] v h = unfold new_tree_loop in refl
new_tree_loop-encode_entries zero spare before (e ∷ entries) v h = absurd (omega arith)
new_tree_loop-encode_entries (suc fuel) spare before (e ∷ entries) v h =
    new_tree_loop-round fuel spare before _ e (encode_entries entries)
      (omega (arith, length-encode_entry e (encode_entries entries)))
      (read_round-encode_entry spare before e (encode_entries entries) v.0)
    ∙ rw (new_tree_loop-encode_entries fuel spare e.name entries v.1 (omega arith)) refl

-- newTree gives back the entries whose bytes Write hands to the database, in their order, whatever
-- stands behind those bytes in the array.
pub new_tree-encode_entries :
    (entries : List TreeEntry) (spare : List ℕ)
    → All IsEntry entries
    → new_tree (record { elems = encode_entries entries; spare = spare }) ≡ ok entries
unfolding new_tree
new_tree-encode_entries entries spare v =
    new_tree_loop-encode_entries _ spare [] entries v (length-encode_entries entries)
