-- ===== src/Lib.antt =====
-- Verification of the umi kernel (mizu): the parts of it that are plain state and arithmetic.
--
-- Parts, and the files that model them:
--
--   Base (with Base/Tests, Base/Lists, Base/Slices): tests into Bool, lists by native numbers, slices,
--   `Result` and `Run` for errors and panics.
--   BTree, Words: the parts of Rust's `BTreeMap` and of 64-bit words that the code uses.
--   Crates: the queues of the crate crossbeam, as records of operations with their documented laws;
--   Crates/Lists has the simplest structures of that kind.
--   RangeMap (mizu/lib/range-map/src/lib.rs): a map from disjoint ranges to values. RangeMap/Tiling is
--   its invariant; Insert, Query, Drain and Split are its operations; Alloc, with Gaps, Gap,
--   Positions and Aslr, is the search for a free range. The search is a loop, here on a number of
--   rounds: the random placement needs two, which is proved, and any other predicate more than a
--   measure of its state that it lowers. The generator of random numbers is a parameter.
--   Sygnal (mizu/lib/sygnal/src): types.rs in Sygnal and Sygnal/Sets, action.rs in Sygnal/Action,
--   queue.rs in Sygnal/Queue. A word of 32 or 64 bits is a number below 2^32 or 2^64; a signal is its
--   bit pattern. `Signals` keeps a set of bits beside its queues, and the queues are of Crates. The
--   polls of the futures that wait for a signal are loops of at most three rounds, which is proved.
--   Pipe (mizu/kernel/src/fs/pipe.rs): pages, the queue of full pages, and the two critical sections.
--   Pipe/Pages and Pipe/Frames are `End::read` and `End::write`; Pipe/Stream and Pipe/Sending relate a
--   step to the stream of bytes; Pipe/Fifo is about schedules. A frame is the list of its 4096 bytes;
--   what `Frame::new` returns is an argument of a write.
--   Files (mizu/kernel/src/task/fd.rs): the table of descriptors; `dup3`, and `fcntl`
--   and `pipe` in Files/Syscalls, are of fd/syscall.rs. Files/Table
--   has the invariant and `open`, Files/Steps the other operations. What `fs::open_dir` returns for the
--   current directory is an argument; the map is the interface of hashbrown in Crates.
--   Instant (mizu/lib/ktime-core/src/instant.rs): instants and durations, with their panics.
--   Futex (mizu/kernel/src/mem/futex.rs): a queue of waiters; Futex/Wake and Futex/Requeue.
--   Futex/Futexes has the queues of a process and the future of a waiter; it follows its entry from
--   queue to queue, here for a number of them.
--   Paging (mizu/lib/paging/src): levels and entries in Paging, tables in Paging/Table, with the board
--   qemu-virt. Memory is a function from the physical address of a table to its entries.
--   Timer (mizu/lib/ktime/src/timer.rs): the heap of deadlines with its pending batches; a key, a pair
--   of an instant and an id, is one number. Timer/Future has the timers, which are futures and streams;
--   Timer/Batches, Timer/Ticks and Timer/Polls are about the queue, a tick and a poll. A poll and a tick
--   take the instant as an argument. `proc_batch` makes as many rounds as the queue has places, which
--   is proved to empty it.
--   Fat (mizu/lib/afat32/src): table.rs in Fat/Entry, Fat/Table, Fat/Search and Fat/Chain, time.rs in
--   Fat/Date and Fat/Time, raw.rs and fs.rs in Fat/Volume, with Counts, Account and Layout, file.rs in
--   Fat/File, with Growth and Runs, dirent.rs in Fat/Dirent: Parse has the parser, over the interface
--   `Nom` of Crates, Editor the entry that is written back, to the interface `Disk`, and Bytes and Edits
--   are about them. The device of the table is the interface `Io` of Fat/Table, reads and writes of a word at
--   an offset, and Fat/Memory is one in memory. Fat/Table/Cells, Writes, Updates and Success are about
--   the words on the device and `set`; Fat/Search/Scan, Batches, Bounds, Allocate and Space about `find_free`
--   and `allocate`; Fat/Chain/Chains, Freeing and Clusters about chains. The search makes at most one
--   round for each cluster of its range; `free` polls once more than the table has clusters, and
--   `all_clusters` reads as many batches, which is enough for a chain without a loop.
--
-- Each critical section and each call under a lock is one step, so a schedule is a sequence of steps;
-- races between the atomic operations of one call are not modelled. Wakers, events, input and output,
-- devices, assembly, procedural macros, and the copies of other crates (kmem/src/lru.rs,
-- umifs/src/path.rs) are not modelled.
pub mod Base
pub mod BTree
pub mod Words
pub mod Crates
pub mod RangeMap
pub mod Sygnal
pub mod Pipe
pub mod Files
pub mod Instant
pub mod Futex
pub mod Paging
pub mod Timer
pub mod Fat
