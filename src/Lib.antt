-- ===== src/Lib.antt =====
-- Gaveta (src/ and test/ of the repository), a small storage engine in C: a page allocator, the data
-- structures on top of it, and a B-tree. This library models the allocator, the data structures and the
-- B-tree, and of the code around them what computes.
--
-- Memory is src/modules/memory/mem.c. A `State` is a pool and the static clock index. `g_allocate`,
-- `g_deallocate`, `g_reallocate`, `second_chance` and `push_free_stack` are the functions of these
-- names, with their loops as functions of their own (`make_room` the replacement of pages, `first_fit`
-- and `region_free` the search, `place` all behind the second `sem_wait`). Memory/Boot has the global
-- pool, `init_memory` and `clear_memory`. Memory/Region is about runs of free pages, Memory/Clock about
-- the loop of `second_chance`, Memory/Blocks about the blocks that clients hold, and Memory/Evict about
-- what happens when pages run out.
--
-- Heap is what the other modules see of the allocator: nodes and blocks at addresses. The addresses
-- that `g_alloc` returns are arguments of the operations, and what the theorems ask of them is that
-- they are not in use. LinkedList is src/modules/ds/GenericLinkedList.c and Queue is
-- src/modules/ds/GenericQueue.c, on the shared Heap/Seg, which relates a chain of nodes to the list of
-- its entries. Queue/Fifo has the view of a client. DynamicArray is
-- src/modules/ds/GenericDynamicArray.c, where an array is a record with the bytes of its block.
--
-- HashTable is src/modules/ds/HashTable.c. Its chains are the lists that LinkedList proves its
-- operations to keep, newest first. HashTable/Represents says which map from keys to data a table
-- answers for, HashTable/Put that `init_ht` and `put_ht` are the empty map and an update of it. The
-- comparison that a client passes is a parameter, and all that is asked of it is to compare keys.
-- HashTable/Hash has the three hash functions, on machine words.
--
-- BTree is about the nodes of src/modules/ds/BTree.c: `search_in_btree_node` (BTree/Search),
-- `insert_in_btree_node` (BTree/Insert, on BTree/Shift, which has the loops that move cells),
-- `redistribute` and `merge` without their writes (BTree/Balance), and `split` (BTree/Split: what it
-- gathers of a leaf in BTree/Split/Gather and of an inner node in BTree/Split/Full and
-- BTree/Split/Children, the two new nodes in BTree/Split/Halves and BTree/Split/Inner). BTree/FreeRrn is
-- `get_free_rrn`, on a list of LinkedList. A node is a record with the arrays that it points to, and
-- `Holds` relates it to the list of its keys. In the source `split` makes the new node with
-- `alloc_btree_node`; here it is an argument of `split`, and BTree/Tree composes the two. The program's own
-- `alloc_btree_node` writes through a null pointer, so that Halves and Inner are about a node that it
-- never makes, and only what is gathered before it is among the results.
--
-- BTree/Tree is about the functions of src/modules/ds/BTree.c on the whole tree, written over the
-- operations of a `Pager` (BTree/Pager): to load, write, release and make a node, to take and give back a
-- record number, to wipe and to read a data record. BTree/Pager/Cache has the program's own
-- operations, `own_pager`: `load_btree_node`, `write_index_record` and `alloc_btree_node`. BTree/Tree has
-- `b_search` and `b_insert` with the functions that these call, BTree/Tree/Remove `b_remove`,
-- `find_parent` and `get_sibling`, BTree/Tree/Range `b_range_search`, and BTree/Tree/Build
-- `build_tree_from_data_file`. What these do with the program's own operations is in BTree/Tree/Own
-- (`b_insert` without a root, and the first record of `build_tree_from_data_file`), Own/Insert (`b_insert`
-- on any B-tree), Own/Search, Remove/Own and Range/Own.
--
-- The other modules below BTree/Tree are about the same functions over operations that would keep
-- their promises. `PagerLaws` says what these are: that a page is loaded as it was written, and that a new
-- node has room and an unused number. The program's own operations do not keep them, and none of its
-- states satisfies what those modules ask for; BTree/Pager/Disk has an ideal page file that does. They say
-- how the functions fit together once the operations are mended, and nothing of them is among the
-- results. Shape says what a search tree in the pages is, with the list of its items in order (Trace):
-- the keys of the leaves, and the separators of inner nodes. Way is the child that a search goes to.
-- Growth, Order, Frame, Replace, Written, Pages, Grown, Inner and Descend follow an insertion down to its
-- leaf and back, and NewRoot and Root end it; Find, RoundTrip, Build, Remove/Missing and Range/Whole (on
-- the chain of leaves of Range/Linked) are searches, loading, removals of keys that are not found and
-- range searches over such operations.
--
-- Utils is src/modules/utils/utils.c, Log is src/modules/log/log.c, Config is
-- src/modules/config/config.c (Config/Fields the lines of a file), App is src/App.c, and DsUtils is
-- src/modules/ds/ds_utils.c, with the text of lists in files (DsUtils/Numbers).
--
-- Base has what all modules share, and each component has its tests, at concrete inputs, in a module
-- Tests.
--
-- A call comes to a `Run` (Base/Outcome): a value, or undefined behaviour, or `exit`, or a wait for
-- ever, or fuel that ran out. Fuel is an argument of the loops over chains, and the theorems ask for
-- more of it than there are entries. The loop of `second_chance` has one round more than there are
-- pages and `make_room` one more than pages are asked for, and with these they end.
-- Numbers of 32 bits wrap around where the code computes on them. The offsets of a pool stay below
-- 2 ^ 32, as its size does.
--
-- A descent in a B-tree has the number of its levels as fuel, the walk of a range search the number of
-- leaves, and the reading of a list the number of entries. Keys of a B-tree are strings, and the copies
-- that go through the field `id` of a key, a pointer, are taken to have room; so are the buffers that
-- `sprintf` fills. `g_alloc` ends the program where no run of pages is free, and returns NULL after a wrong
-- request: in BTree/Pager/Cache both are a flag, and the model goes on with NULL.
--
-- Output is not modelled, but for the text of exported lists and of messages. Threads are not: the
-- semaphore is a counter, and a wait at 0 blocks for ever. Of the hash table `clear_ht` and `get_ht_keys`
-- are not modelled. Of the B-tree `sort_list`, the lists and records that are loaded from files, and the
-- creation and removal of B-trees and files are not modelled; nor are the schema, a file without code,
-- and the set-up of the application, which is calls of the operating system.
pub mod Base
pub mod Memory
pub mod Heap
pub mod LinkedList
pub mod Queue
pub mod DynamicArray
pub mod HashTable
pub mod BTree
pub mod Utils
pub mod Log
pub mod Config
pub mod App
pub mod DsUtils
