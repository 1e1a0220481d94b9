-- ===== src/Lib.antt =====
-- A verification library for liballocs, which keeps, at run time, metadata about the allocations of a
-- process. It models the parts of the C code that hold the metadata of big allocations and of cached
-- queries.
--
-- Parts and files:
-- - Common: Boolean tests, options, lists and doubly linked chains that the parts share.
-- - Cache: the memory range cache of include/liballocs_cil_inlines.h and src/cache.c. A state is a
--   record Cache; unlink, push_head_mru, bump_victim, bump_mru, lookup, lookup_notype,
--   cache_with_type and uncache_all are the functions __liballocs_cache_... and
--   __liballocs_uncache_all. Cache/Sane has the invariant, Cache/Lookup, Cache/Insert and
--   Cache/Uncache the operations' theorems, Cache/Debug the debug check, Cache/Reach sequences of
--   operations, Cache/Tests concrete runs.
-- - Pageindex: src/pageindex.c and include/pageindex.h. Pageindex/Vas has the address arithmetic,
--   Pageindex/State the records and the state, Pageindex/Forest the tree that the records' links
--   form. Pageindex/Memset is memset_bigalloc, Pageindex/Link add_child and unlink_child,
--   Pageindex/Sanity the check of a record that add_child makes where assertions are compiled in,
--   Pageindex/Toplevel the list of records without a parent, Pageindex/Find the searches that
--   descend the tree, Pageindex/Depth the climb to parents, Pageindex/Create the creation of
--   records, Pageindex/Resize the operations that move a bound of a record, Pageindex/Delete their
--   deletion, also over a range of addresses, Pageindex/Split the split of a record, and
--   Pageindex/Lookup the searches that set out from the index, with the request for a new record
--   whose parent is looked up. Most have their theorems in child modules. Pageindex/Indexed says
--   what the index means; Pageindex/Tests, Pageindex/Examples and Pageindex/Runs have concrete
--   runs.
-- - Mmap: the mapping sequences of src/allocators/mmap.c (struct mapping_sequence of
--   src/liballocs_private.h). Mmap/Entries reads a sequence as a list of entries and as a map from
--   addresses to attributes, Mmap/Compare has the comparisons, Mmap/Delete
--   delete_mapping_sequence_span, and Mmap/Augment augment_sequence, with what their loops and
--   branches do in child modules; Mmap/Tests has concrete runs.
-- - Lifetime: the lifetime policies of src/lifetime_policies.c. Lifetime/Policies and Lifetime/Registry
--   have the theorems on policies, Lifetime/Writes those on pointer writes, and Lifetime/Copy the
--   notification of copies; Lifetime/Tests has concrete runs.
-- - Subobject: the searches of subobjects in include/liballocs.h, over a table of types. Subobject/Bisect
--   has the bisection of members by their offsets, Subobject/First, Subobject/Match and Subobject/Walk
--   what the three searches do; Subobject/Tests has concrete runs.
-- - Allocsites: the identifiers of allocation sites, of src/allocsites.c and include/allocsites.h.
--   Allocsites/Contiguous has the spine of the files' vectors, Allocsites/RoundTrip the way from a site
--   to its identifier and back; Allocsites/Tests has concrete runs.
-- - Bfs: the breadth-first walk of objects in src/uniqtype-bfs.c and include/uniqtype-bfs.h;
--   walk_bfs_from_object is __uniqtype_walk_bfs_from_object. Bfs/TreeMap has its maps, Bfs/Queue its
--   queue of linked records, Bfs/Adjacency the adjacency lists, Bfs/Reference a search over lists,
--   Bfs/Maps and Bfs/Correct the walk against that search; Bfs/Tests has concrete runs.
-- - Mallocindex: the bitmap index of heap chunks in include/generic_malloc_index.h, with the inserts of
--   include/malloc-meta.h, as built with NO_BIGALLOCS and NO_ALLOC_CACHE. Mallocindex/Lookup says what
--   the index holds and has the lookup, Mallocindex/Update the insertion and deletion of chunks;
--   Mallocindex/Tests has concrete runs.
-- - Memtable: the address arithmetic of include/memtable.h.
-- - Addrlist: the growing list of addresses of src/addrlist.c.
--
-- A query looks at the cache first; on a miss it goes to the page index, whose entry for the page of
-- the address names the record from which a search descends. The operations of the page index call
-- memset_bigalloc for the pages that change hands.
--
-- Conventions: pointers and addresses are natural numbers and 0 is null; a pointer to a record of a
-- table is its number in the table. An abort or a failed assertion is `none`. A 64-bit address never
-- wraps around: the sums that the code forms stay below 2 ^ 64 for the user addresses it handles;
-- stores to 8-bit and 16-bit fields of the cache are reduced, and where a difference or a sum can
-- wrap around, as in the index of heap chunks, the wrap-around is written out.
--
-- Fuel: the walk of the recency list has one unit more than the table has slots. A search in a tree
-- needs one unit more than the tree has records, a search of the list of records without a parent one
-- more than the list has records, and the climb to a root as many as the record has records above it
-- and itself: none of these walks visits a record twice. A sanity check needs as much fuel as the tree
-- has records, for its recursion and for the depths that it compares.
--
-- The search for the first overlapped entry of a mapping sequence has as much fuel as there are
-- entries in use, and the compaction of a sequence one unit more. The deletion of a record needs
-- one unit more than it has descendants, and the deletion of a range at most one more than the
-- table has records.
--
-- The searches of subobjects need one unit more than the depth at which types contain each other, which a
-- rank of the types bounds; the bisection has one unit more than the type has members.
--
-- The breadth-first walk needs more fuel than there are objects to reach, and its adjacency lists
-- as much as the composite types nest.
--
-- The loop of __notify_copy takes fuel, of which the model says whether it sufficed; it needs one
-- unit more than there are objects copied.
--
-- Parameters: PAGENUM, ROUND_UP, ROUND_DOWN, MAXIMUM_USER_ADDRESS and BIGGEST_SANE_USER_ALLOC are
-- defined in vas.h of another repository and are fields of the record Vas, with what they compute
-- for pages of 4096 bytes; x86_64 is an instance. The free functions of records, the allocators and
-- their minimum alignment are numbers and functions that the operations take. The function
-- get_highest_loaded_object_below and the copy of a filename are functions that augment_sequence takes.
-- What the stack and the mmap allocator do with an address that has no entry are functions that the
-- searches take. What a struct uniqtype holds is a table that the searches of subobjects take, and the symbol lookup
-- and bsearch_leq_generic, of another project, are what the identifiers of allocation sites take. The
-- bounds of user addresses, the queries of allocators and the callbacks that
-- lifetime policies use are functions too, and a struct uniqtype is the tree that the macros of
-- another project read from it. The bitmaps
-- and the rounding of addresses that the index of heap chunks uses are a record of operations with their
-- laws. The functions
-- tfind and tsearch of the C library are a record of operations with their laws, which the walk takes,
-- and memory and follow_ptr are functions. The reallocation function that the list of addresses calls is a
-- function that keeps the elements.
--
-- Not modelled: locks, since each operation runs under one; output; the checks
-- SANITY_CHECK_BIGALLOC outside add_child, which store nothing and abort in builds with assertions where
-- a record fails sanity_check_bigalloc: the operations on records use link_child, which is add_child less
-- these checks, and the results on them do not say that the checks pass; the alternatives LIBALLOCS_CACHE_LINEAR and
-- LIBALLOCS_CACHE_REPLACE_FIFO, which the build leaves off; the part of a search from the root that
-- runs before system calls are trapped; the promotion of heap chunks to big allocations; the other allocators and the tools.
pub mod Common
pub mod Addrlist
pub mod Allocsites
pub mod Bfs
pub mod Cache
pub mod Lifetime
pub mod Mallocindex
pub mod Memtable
pub mod Mmap
pub mod Pageindex
pub mod Subobject
