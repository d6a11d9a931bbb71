-- ===== src/Lib.antt =====
-- A model of git4go, a library that reads and writes git repositories in Go.
--
-- The program keeps objects (blobs, trees, commits, tags) under the SHA-1 of their bytes, in loose
-- files and in packs, in which an object may be stored as a delta against another. Trees are made
-- by a builder and parsed from their bytes. Ids are written as 40 hexadecimal digits, of which a
-- prefix may stand for the whole.
--
-- Files and parts:
-- - Common: Go's outcomes, slices, byte comparisons, errors, and lemmas on lists and bits that the
--   other files share.
-- - Delta (delta.go): CreateDelta is create_delta of Delta/Create.antt, with sliceBlock and Blocks
--   in Delta/Blocks.antt, chooseMatch in Delta/Match.antt, emitInsert and emitCopy in
--   Delta/Emit.antt, and the header's sizes in Delta/Size.antt. ApplyDelta is apply_delta of
--   Delta/Apply.antt. The other files under Delta are about how the two fit.
-- - Oid (oid.go): one function for each method, with their names in small letters.
--   Oid/RoundTrip.antt is about whole texts, Oid/Prefix.antt about prefixes, Oid/Line.antt about
--   header lines.
-- - Tree (tree.go, tree_builder.go, and strtol32 of util.go): Tree/Number.antt is strtol32,
--   Tree/Entries.antt is newTree with the modes, Tree/Builder.antt the builder. Its Write is joined
--   to newTree in Tree/Builder/Operations.antt, and to the Inserts and Removes before it in
--   Tree/Builder/Edits.antt.
-- - Pack (pack.go): sha1Position is sha1_position of Pack/Search.antt, unpackHeader is
--   unpack_header of Pack/Header.antt, getDeltaBase get_delta_base of Pack/Base.antt. checkIndex,
--   findOffset, findEntry and nthPackedObjectOffset are in Pack/Offset.antt; dependencyChain, unpack,
--   unpackCompressed, openWindow and resolveHeader in Pack/Chain.antt, where ApplyDelta of Delta is
--   used on what zlib's reader gives.
-- - Fnmatch (fnmatch.go): fnMatchX and fnMatch are in Fnmatch/Match.antt, with a function for each
--   case of the switch; rangeMatch is range_match_at of Fnmatch/Range.antt, and the comparisons
--   without regard to case stand in Fnmatch/Fold.antt.
-- - Util (util.go): the numbers of 32 and 16 bits in network order, findChar and readString.
-- - TreeCache (treecache.go): the cache with its children, of which a slot can be nil, and all of
--   its methods. TreeCache/Unread.antt is about its reader.
-- - Index (index.go): the entries and their stages are in Index/Entry.antt, the Less of each list
--   in Index/Order.antt, the index itself with its sorting and capabilities in Index/Store.antt,
--   Find and the search among REUC entries in Index/Search.antt, the conflicts and their iterator
--   in Index/Conflicts.antt, Add, Remove, RemoveByPath, AddByPath and RemoveConflict in
--   Index/Changes.antt, ReadTree in Index/ReadTree.antt. Reading a file is readEntry in
--   Index/Format.antt, the entries of the extensions in Index/Extensions.antt, and Read with
--   OpenIndex in Index/Read.antt. An index holds a tree cache, which its changes invalidate.
-- - RevWalk (revwalk.go and commitlist.go): the nodes and their lists are in RevWalk/Node.antt,
--   commitQuickParse in RevWalk/Parse.antt and RevWalk/State.antt, the marks on hidden commits in
--   RevWalk/Mark.antt, the queues in RevWalk/Iterators.antt, and prepareWalk, Next, Push, Hide and
--   Reset in RevWalk/Walk.antt and RevWalk/State.antt. A walk reads commits through the ids of Oid.
-- - RefDb (RefDb.go): Lookup is in RefDb.antt, the lines of packed references in RefDb/Lines.antt,
--   and reloadIfChanged with the rest of the cache in RefDb/Packed.antt.
-- - Reference (reference.go): names, referenceLookupResolved and the methods on it in
--   Reference.antt. They use the Lookup of RefDb as an argument.
-- - Object (signature.go, commit.go): parseSignature is parse_signature of Object/Signature.antt, and
--   newCommit is new_commit of Object/Commit.antt, which reads ids by parseOidWithPrefix of Oid and
--   stands beside NthGenAncestor and the other methods on parents.
--
-- How Go is read: a byte is a number, a slice its elements together with what its array holds up to
-- the capacity, where a slice expression can reach that. A call returns an Outcome: a value, an
-- error, or a panic for an index, a slice bound or a division that Go refuses. Integers keep their
-- width where the source can exceed it: the 32 bits of the lengths in a delta, the 64 bits of a
-- size that is read and of ParseInt. A map is the list of its pairs, or a function to an Option. A
-- method that changes its receiver is an Action of Common/Actions.antt: from the receiver to the
-- receiver afterwards, together with the outcome, so that what was changed before an error stays. A
-- pointer to a node of a walk is the id under which the walk's map has the node. An error that
-- MakeGitError makes keeps its code, one that errors.New makes its text. sort.Sort is an insertion
-- sort that leaves equal elements in their order, and ToLower and TrimSpace are on ASCII.
--
-- Parameters of the definitions are what the code only calls: the binary search of bsearch, os.Stat
-- and ReadFile, SHA-1, WalkPost with filepath.Join, the creation of a blob, Read and Write of the
-- object database, LookupTree, Lookup and Peel of the repository, the resolution of a reference
-- where a walk asks for it, the normal form of golang.org/x/text, the Open of a pack's window, zlib's
-- reader, the longest slice that can be made, LookupCommit, and the machine's zone at a time.
--
-- Loops on fuel give `stuck` where it is spent. The loops of CreateDelta get the lengths of source
-- and target, the loop of ApplyDelta the length of the delta, newTree the length of its contents, and the loops over packed references that of their file:
-- each round takes a byte at least. sha1Position gets the distance of its bounds, the loop of
-- fnMatchX the lengths of pattern and string, of which a round moves one offset on, and the loop of
-- rangeMatch the length of the pattern. The search for the end of a long path, the marks on hidden
-- commits and the walks that prepareWalk makes take their rounds as an argument: the first never
-- ends in the source, and the others depend on the number of commits in the database. So do
-- dependencyChain and resolveHeader, whose deltas by id may form a cycle. encodeSize
-- and %o are by well-founded recursion.
--
-- Not modelled: files, mmap, zlib, SHA-1 and the clock, the locks, the methods of an index and of a
-- walk that are empty in the source, the bookkeeping of a pack's windows, forEach over a pack's ids,
-- the overflow of a zone of very many digits, and the parts of the program that have no file here: the
-- walks over all references and the globs of a revision walk, tags as objects and the peeling of
-- objects, the databases and the configuration.
pub mod Common
pub mod Delta
pub mod Oid
pub mod Tree
pub mod Pack
pub mod Fnmatch
pub mod Util
pub mod TreeCache
pub mod Index
pub mod RevWalk
pub mod RefDb
pub mod Reference
pub mod Object
