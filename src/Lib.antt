-- ===== src/Lib.antt =====
-- The k-LSM: a relaxed concurrent priority queue built of log-structured merge trees.
--
-- Items hold a key, a value and a version, and are reused once taken. Sorted blocks of references to
-- items, whose capacities are powers of two, form the LSMs. Each thread has its own LSM, a linked list
-- of blocks; the shared LSM is an array of blocks, with pivots that bound what a relaxed `delete_min`
-- may return. Keys and values are uint32_t, versions 32-bit words that wrap around, sizes 64-bit words
-- that wrap around where the code subtracts them. The sequential LSM has 32-bit sizes, which are numbers
-- here; a capacity that it asks for is cut to 32 bits and made an int, as in the code.
--
-- Files and the code that they model:
--   Base     shared names, machine arithmetic (Base/Tests the Boolean tests, Base/Lists the arrays);
--   Item     components/item.h and item_inl.h: `item`, `initialize`, `take`; Item/Laws;
--            Item/Races the accesses of owner and takers interleaved, with Item/Races/Once;
--   Block    components/block.h and block_inl.h: `insert`, `merge`, `copy`, `peek`, `peek_tail`; a
--            block is a record with the list of its cells. Block/Order has validity and sortedness,
--            Block/Merge, Block/Copy and Block/Peek the laws; Block/Spying the iterator;
--   Storage  components/block_storage.h: rows of `N` blocks for each level; Storage/Laws and
--            Storage/GetBlock;
--   Alloc    util/mm.h: the ring of chunks of `item_allocator` and its amortised search; Alloc/Acquire;
--   Pool     shared_lsm/block_pool.h: four blocks for each level with status and version; Pool/Get,
--            Pool/Free and Pool/Tracked;
--   Pivots   shared_lsm/block_pivots.h and block_pivots_inl.h: the ranges and their count;
--            Pivots/Resize `resize`, `grow`, `shrink`; Pivots/Total and Pivots/Stale the laws;
--   Array    shared_lsm/block_array.h and block_array_inl.h: the array on the pools of all threads;
--            Array/Insert `insert` and `compact`, Array/Peek `peek` and `delete_min`, with laws in
--            Array/Nulls, Array/Stamp and Array/Peek/Laws;
--   Packed   shared_lsm/versioned_array_ptr.h and aligned_block_array.h: versions in pointers;
--            Packed/Laws;
--   Protocol shared_lsm/shared_lsm_local_inl.h, `refresh_local_array_copy` and the loop of
--            `insert_block`, as steps of threads: Protocol/Inv has the invariant, Protocol/Change,
--            Protocol/Writes, Protocol/Own, Protocol/Moves and Protocol/Safety its preservation, and
--            Protocol/Runs what follows;
--   Shared   shared_lsm/shared_lsm_local_inl.h: the operations of a thread while no other takes a step;
--            Shared/Rounds how many rounds they take, Shared/Turns which array they write;
--   Rng      util/xorshf96.h;
--   Dist     dist_lsm/dist_lsm_local.h and dist_lsm_local_inl.h: `insert` and `merge_insert`; Dist/Peek
--            `peek`, `spy` and `delete_min`; Dist/Keeps and Dist/Cache the laws of the cached item;
--   KLsm     k_lsm/k_lsm_inl.h: `insert` and `delete_min` on Dist and Shared; KLsm/Choice which item is
--            taken;
--   Multi    multi_lsm/multi_lsm_inl.h: the queues of all threads, `insert` and `delete_min`; Multi/Own
--            which queue a thread chooses;
--   Seq      sequential_lsm/lsm.cpp: the blocks; Seq/Lsm the list of blocks, `insert` and `delete_min`;
--            Seq/Window, Seq/Blocks, Seq/Filling and Seq/Popping the laws of a block; Seq/Store,
--            Seq/Pool and Seq/Merging which blocks are in use; Seq/Chain the list and its invariant;
--            Seq/Between `insert_between`, Seq/Splice lists with other blocks in them; Seq/Round,
--            Seq/Loop, Seq/Link and Seq/Insert the law of `insert`; Seq/Least the loop of `delete_min`,
--            Seq/Taken what it does next, and its branches: Seq/Shorter leaves the block in place,
--            Seq/Unlink takes it out, and Seq/Shrink, Seq/Close, Seq/Placing and Seq/Stays move its
--            values to a smaller one, which Seq/Behind leaves and Seq/Rejoin, Seq/Joined and Seq/Merges
--            merge; Seq/Delete the law of `delete_min`; Seq/Sorted and Seq/Replay sequences of calls;
--   Vector   util/lockfree_vector.h: loads and exchanges of threads, interleaved; Vector/Index where
--            an index lies, Vector/Runs that threads get the same elements;
--   Threading util/thread_local_ptr.cpp: how threads get their identifiers;
--   Tests    runs on small inputs.
--
-- Pointers and failures. A block in a storage or a pool is named by its place there, an item by a
-- number; the store of items is a function from numbers. A read through a null pointer, fuel that runs
-- out, a row of a block storage past its 32 and most failed assertions are `none`. Not checked are the
-- assertions of `insert_tail`, `merge`, `copy`, `set_used` and `set_unused` of a block, of `count_in` (where
-- the count is then 0), of `remove_null_blocks` on descending capacities and of `free_local_except` on
-- repeated indexes; nor the room for 192 of these. The power 2^p stands for the int shift `1 << p`, and
-- `mark_first_taken_in` stops at 0 where the code wraps. A pointer into the shared LSM names a thread's
-- pool and an index. How the shared LSM takes a block is a parameter of Dist, which KLsm fills with
-- Shared.
--
-- Fuel. `acquire` gets `amortized + 2` rounds, since each chunk without a free item costs its size from
-- the account. The binary search of `resize` gets 35 rounds, since each halves an interval of 32-bit
-- keys. The search for the level of a capacity gets 64, since each shifts a 64-bit word. From level
-- 31 on a capacity is no positive int, so the sequential LSM is taken to hold fewer than 2^30 keys. The
-- loop of Array/Peek and the list traversals of Dist take any fuel.
--
-- Threads. Item/Races and Protocol interleave single accesses to shared memory, in an order that all
-- threads agree on. Versions are cut to 32 bits, and packed pointers have 11 bits of them, so their
-- theorems suppose that a thread is not overtaken by 2^32 versions of an item, or by 2046 publications
-- during an insertion or a peek. In Protocol the contents of an array are words; what `peek` writes into
-- the pivots of a thread's own copy, and what an insertion writes into a new array, may be anything. The
-- operations of the other modules
-- run while no other thread takes a step.
--
-- Not modelled: the wrappers shared_lsm, dist_lsm and thread_local_ptr, which forward,
-- counters, printing, destructors, the benchmarks, the tests and the libraries under
-- lib, with which the benchmarks compare.
pub mod Base
pub mod Item
pub mod Block
pub mod Storage
pub mod Alloc
pub mod Pool
pub mod Pivots
pub mod Rng
pub mod Shared
pub mod KLsm
pub mod Multi
pub mod Array
pub mod Packed
pub mod Protocol
pub mod Dist
pub mod Seq
pub mod Threading
pub mod Vector
pub mod Tests
