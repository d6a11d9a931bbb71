-- ===== src/TreeCache/Unread.antt =====
-- What treecache.go does with the TREE extension of an index, and with a path.
use git4go.Common.{ℕ, zero, suc, ◌+◌, List, arith, length, Fails, Fails->>=}
use git4go.TreeCache.{read_tree_internal, read_tree_cache}

read_tree_internal-Fails :
    (depth : ℕ) (buffer : List ℕ) (offset buffer_end : ℕ)
    → Fails (read_tree_internal depth buffer offset buffer_end)
unfolding read_tree_internal
read_tree_internal-Fails zero buffer offset buffer_end = λ a h. cc
read_tree_internal-Fails (suc depth) buffer offset buffer_end = λ a h. ground arith

-- readTreeCache never gives a cache: readTreeInternal returns an error even where all of its bytes
-- are right.
pub read_tree_cache-Fails :
    (buffer : List ℕ) (offset extension_size : ℕ)
    → Fails (read_tree_cache buffer offset extension_size)
unfolding read_tree_cache
read_tree_cache-Fails buffer offset extension_size =
    Fails->>= (read_tree_internal (length buffer) buffer offset (offset + extension_size)) _
      (read_tree_internal-Fails (length buffer) buffer offset (offset + extension_size))
