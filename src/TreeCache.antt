-- ===== src/TreeCache.antt =====
-- treecache.go: the tree of counts and ids that an index can hold. A pointer to a cache is a value or
-- nothing, since no cache has two owners.
pub mod Unread
use git4go.Common.{
  ℕ, zero, suc, ◌+◌, ◌-◌, ◌/◌, ◌%◌, Option, none, some, List, [], ◌∷◌, ◌++◌, ltb, ◌==◌,
  if◌then◌else◌, length, take, drop, Outcome, ◌>>=◌, ok, err, panic, stuck, GitError, or_error,
  message, bytes_equal, or_panic, ℤ, pos, negsuc, decrement,
}
use git4go.Oid.{Oid, new_oid_from_bytes, oid_raw_size}
use git4go.Util.{find_char}
use git4go.Tree.Entries.{TreeEntry, filemode_tree}
use git4go.Tree.Number.{strtol32}

-- A slice of children, in which a place can be nil.
mutual
  pub data TreeCache : Type 0 where
    tree_cache :
        (name : List ℕ) (entry_count : ℤ) (oid : Option Oid) (children : Children) → TreeCache

  pub data Children : Type 0 where
    no_child : Children
    nil_child : Children → Children
    cons_child : TreeCache → Children → Children

abbrev pub cache_name : TreeCache → List ℕ
cache_name (tree_cache name entry_count oid children) = name

-- `entryCount--`.
unfoldable pub discount : TreeCache → TreeCache
unfolding decrement
discount (tree_cache name entry_count oid children) =
    tree_cache name (decrement entry_count) oid children

-- strings.Split by '/', without the empty fragments, which both loops pass over.
unfoldable pub first_fragment : (fragment path : List ℕ) → Option (List ℕ)
first_fragment [] [] = none
first_fragment (f ∷ fragment) [] = some (f ∷ fragment)
first_fragment [] (c ∷ path) =
    let rest = first_fragment [] path in
    let more = first_fragment (c ∷ []) path in if c == 47 then rest else more
first_fragment (f ∷ fragment) (c ∷ path) =
    let more = first_fragment ((f ∷ fragment) ++ (c ∷ [])) path in
    if c == 47 then some (f ∷ fragment) else more

-- The loop over the children in get: after it the method returns nil, found or not. A child that is
-- nil has no name to read.
unfoldable pub look_at_children :
    Children → (fragment : List ℕ) → Outcome GitError (Option TreeCache)
look_at_children no_child fragment = ok none
look_at_children (nil_child children) fragment = panic
look_at_children (cons_child cache children) fragment = look_at_children children fragment

unfoldable pub get : TreeCache → (path : List ℕ) → Outcome GitError (Option TreeCache)
unfolding first_fragment look_at_children
get (tree_cache name entry_count oid children) path = elim (first_fragment [] path) [
  | none ↦ ok (some (tree_cache name entry_count oid children))
  | some fragment ↦ look_at_children children fragment
]

-- The loop over the children in invalidatePath: all of the fragment's name lose one entry.
unfoldable pub discount_children : Children → (fragment : List ℕ) → Outcome GitError Children
unfolding discount bytes_equal
discount_children no_child fragment = ok no_child
discount_children (nil_child children) fragment = panic
discount_children (cons_child cache children) fragment = do
  children' ← discount_children children fragment
  ok (
      cons_child (if bytes_equal (cache_name cache) fragment then discount cache else cache)
        children')

-- The method returns after its first fragment.
unfoldable pub invalidate_cache : TreeCache → (path : List ℕ) → Outcome GitError TreeCache
unfolding decrement first_fragment discount_children
invalidate_cache (tree_cache name entry_count oid children) path = elim (first_fragment [] path) [
  | none ↦ ok (tree_cache name (decrement entry_count) oid children)
  | some fragment ↦ (do
    children' ← discount_children children fragment
    ok (tree_cache name (decrement entry_count) oid children'))
]

-- invalidatePath, whose receiver can be nil: then `v.entryCount--` panics.
unfoldable pub invalidate_path :
    Option TreeCache → (path : List ℕ) → Outcome GitError (Option TreeCache)
unfolding invalidate_cache
invalidate_path none path = panic
invalidate_path (some cache) path = do cache' ← invalidate_cache cache path; ok (some cache')

abbrev pub corrupted : GitError
corrupted = message "Corrupted TREE extension in index"

-- A number of strtol32 between an offset and the end, with the offset behind it; none is -1.
unfoldable pub number_at : (buffer : List ℕ) (offset buffer_end base : ℕ) → Option ℕ × ℕ
unfolding strtol32
number_at buffer offset buffer_end base =
    behind (strtol32 (take (buffer_end - offset) (drop offset buffer)) base)
  where
    behind : Option (ℕ × List ℕ) → Option ℕ × ℕ
    behind none = (none, offset)
    behind (some (n, rest)) = (some n, buffer_end - length rest)

-- The id of a cache that holds entries, and the offset behind it.
unfoldable pub read_cache_oid :
    (buffer : List ℕ) (offset buffer_end entry_count : ℕ) → Outcome GitError (Option Oid × ℕ)
unfolding new_oid_from_bytes
read_cache_oid buffer offset buffer_end entry_count =
    if ltb 0 entry_count
    then if ltb buffer_end (offset + oid_raw_size) then err corrupted else (do
      oid ← new_oid_from_bytes (take oid_raw_size (drop offset buffer)) []
      ok (some oid, offset + oid_raw_size))
    else ok (none, offset)

-- readTreeInternal, whose loop over the children stops at the first: no call returns without an
-- error. `depth` bounds the recursion, and `make` never lacks memory.
unfoldable pub read_tree_internal :
    (depth : ℕ) (buffer : List ℕ) (offset buffer_end : ℕ) → Outcome GitError (TreeCache × ℕ)
read_tree_internal zero buffer offset buffer_end = stuck
read_tree_internal (suc depth) buffer offset buffer_end = do
  found ← find_char buffer 0 offset buffer_end
  name_end ← or_error found corrupted
  if ltb (buffer_end - name_end) 8 then err corrupted else (do
    let (entry_count, offset') = number_at buffer (name_end + 1) buffer_end 10
    let (child_count, offset'') = number_at buffer offset' buffer_end 10
    entries ← or_error entry_count corrupted
    children ← or_error child_count corrupted
    (oid, start) ← read_cache_oid buffer offset'' buffer_end entries
    below ←
        (if ltb 0 children then read_tree_internal depth buffer start buffer_end else err corrupted)
    err corrupted)

-- readTreeCache. The pointer that it returns with an error is nil, or the caller ignores the error.
unfoldable pub read_tree_cache :
    (buffer : List ℕ) (offset extension_size : ℕ) → Outcome GitError TreeCache
unfolding read_tree_internal
read_tree_cache buffer offset extension_size = do
  (tree, new_offset) ← read_tree_internal (length buffer) buffer offset (offset + extension_size)
  ok tree

-- The digits of a number behind `digits`, highest first. A number has no more digits than it counts.
decimal_loop : (rounds n : ℕ) (digits : List ℕ) → List ℕ
decimal_loop zero n digits = (48 + n % 10) ∷ digits
decimal_loop (suc rounds) n digits =
    let rest = decimal_loop rounds (n / 10) ((48 + n % 10) ∷ digits) in
    if ltb n 10 then (48 + n) ∷ digits else rest

-- `%d`.
unfoldable pub decimal : ℤ → List ℕ
unfolding decimal_loop
decimal (pos n) = decimal_loop n n []
decimal (negsuc n) = 45 ∷ decimal_loop (n + 1) (n + 1) []

unfoldable pub count_children : Children → ℕ
count_children no_child = 0
count_children (nil_child children) = count_children children + 1
count_children (cons_child cache children) = count_children children + 1

-- `if v.entryCount != -1 { buffer.Write(v.oid[:]) }`: an id that is nil has no bytes to take.
unfoldable pub oid_bytes : ℤ → Option Oid → Outcome GitError (List ℕ)
oid_bytes (negsuc zero) oid = ok []
oid_bytes (negsuc (suc n)) oid = or_panic oid
oid_bytes (pos n) oid = or_panic oid

unfoldable mutual
  unfolding decimal count_children oid_bytes

  -- What write adds to the buffer.
  pub write : TreeCache → Outcome GitError (List ℕ)
  write (tree_cache name entry_count oid children) = do
    id ← oid_bytes entry_count oid
    below ← write_children children
    ok (
        name
        ++ (0
            ∷ (decimal entry_count
                ++ (32 ∷ (decimal (pos (count_children children)) ++ (10 ∷ (id ++ below)))))))

  pub write_children : Children → Outcome GitError (List ℕ)
  write_children no_child = ok []
  write_children (nil_child children) = panic
  write_children (cons_child cache children) = do
    first ← write cache
    rest ← write_children children
    ok (first ++ rest)

unfoldable pub count_trees : List TreeEntry → ℕ
count_trees [] = 0
count_trees (entry ∷ entries) =
    count_trees entries + (if entry.filemode == filemode_tree then 1 else 0)

unfoldable pub nil_children : ℕ → Children
nil_children zero = no_child
nil_children (suc n) = nil_child (nil_children n)

-- `cache.children[i] = childCache`.
unfoldable pub set_child : Children → ℕ → TreeCache → Outcome GitError Children
set_child no_child i cache = panic
set_child (nil_child children) zero cache = ok (cons_child cache children)
set_child (cons_child other children) zero cache = ok (cons_child cache children)
set_child (nil_child children) (suc i) cache = do
  children' ← set_child children i cache
  ok (nil_child children')
set_child (cons_child other children) (suc i) cache = do
  children' ← set_child children i cache
  ok (cons_child other children')

-- createTreeCacheFromTree of a tree with an id and its entries. `lookup_tree` is LookupTree of the
-- tree's owner.
module _ (lookup_tree : Oid → Outcome GitError (Oid × List TreeEntry)) where
  -- The loop over the entries: a child is stored at its index among all entries. `below` is the call
  -- for a child, which gives the child's children; every count of entries stays 0.
  unfoldable pub fill_children :
      (below : List TreeEntry → Outcome GitError Children) (entries : List TreeEntry) (i : ℕ)
      (children : Children)
      → Outcome GitError Children
  unfolding set_child
  fill_children below [] i children = ok children
  fill_children below (entry ∷ entries) i children =
      if entry.filemode == filemode_tree
      then (do
        (id, child_entries) ← lookup_tree entry.id
        grandchildren ← below child_entries
        children' ← set_child children i (tree_cache entry.name (pos 0) (some id) grandchildren)
        fill_children below entries (i + 1) children')
      else fill_children below entries (i + 1) children

  -- readTreeCacheFromTreeRecursive, with a bound on the depth of the trees.
  unfoldable pub read_children_from_tree :
      (depth : ℕ) (entries : List TreeEntry) → Outcome GitError Children
  unfolding count_trees nil_children fill_children
  read_children_from_tree zero entries = stuck
  read_children_from_tree (suc depth) entries =
      fill_children (read_children_from_tree depth) entries 0 (nil_children (count_trees entries))

  -- The cache that createTreeCacheFromTree fills, and then drops.
  unfoldable pub create_tree_cache_from_tree :
      (depth : ℕ) (id : Oid) (entries : List TreeEntry) → Outcome GitError TreeCache
  unfolding read_children_from_tree
  create_tree_cache_from_tree depth id entries = do
    children ← read_children_from_tree depth entries
    ok (tree_cache [] (pos 0) (some id) children)
