-- ===== src/Lib.antt =====
-- CreDB is a database that runs inside a trusted enclave. Its data live in pages that leave the
-- enclave encrypted, so the enclave keeps version numbers by which it recognises a page that was
-- rolled back. This library models the storage core of the enclave (src/enclave, with
-- src/common/util and include/credb), the transactions over several nodes, and the disk of the host
-- (src/server) with what they promise.
--
-- * VersionNumber, from src/enclave/version_number.h: the 16-bit counter that may wrap around.
-- * EventId, from include/credb/event_id.h: identifiers of events on the ledger, intervals of
--   events, and their order. EventId/Sets is a std::set of events under that order.
-- * Node, from src/enclave/HashMapNode.h and src/enclave/MultiMapNode.h: a page of entries with its
--   header. How keys, values and sizes are encoded is a parameter, the record Layout.
-- * Map, from src/enclave/AbstractMap.h: buckets, each a chain of pages. The version of a page is
--   recorded where the page is referred to, in the bucket or in the page before it.
-- * HashMap, from src/enclave/HashMap.cpp: the primary index. HashMap/Refinement shows that it
--   implements a function from keys to values.
-- * MultiMap, from src/enclave/MultiMap.cpp: the secondary indexes.
-- * Block, from src/enclave/Block.h and src/enclave/Block.inl: an append-only block of the ledger, a
--   header, an index of offsets and the bytes of the events.
-- * RwLockable, from src/common/util/RWLockable.h and src/common/util/RWLockable.inl: the lock for
--   many readers or one writer. RwLockable/Threads makes each atomic access a step of one of many
--   threads.
-- * LockHandle, from src/enclave/LockHandle.h and src/enclave/LockHandle.cpp: the locks that an
--   operation or a transaction holds on the shards, counted per shard.
-- * TransactionHandle, from src/enclave/TransactionHandle.h, src/enclave/TransactionHandle.cpp and
--   write_op_set of src/enclave/TransactionLedger.cpp: the record of a committed transaction and the
--   intervals it covers.
-- * Transaction, from src/enclave/Transaction.h, src/enclave/Transaction.cpp and remove_transaction
--   of src/enclave/TransactionManager.cpp: which locks a transaction collects, prepare, abort and
--   cleanup. The operations and the ledger are the parameter Operations, in which a validation takes
--   locks through the transaction's handle and may throw. Transaction/Commit adds commit, over the
--   parameter Writes.
-- * ObjectEvent, from src/enclave/ObjectEventHandle.h and src/enclave/ObjectEventHandle.cpp: an
--   event of the ledger as a JSON array, and the fields a handle reads from it.
-- * Ledger, from src/enclave/Ledger.cpp, src/enclave/Ledger.inl and src/enclave/Shard.cpp: shards of
--   blocks, the chain of versions of an object, and its reads. Ledger/Write has apply_write,
--   put_next_version, put_tombstone and organize_ledger, Ledger/Iterator
--   src/enclave/ObjectIterator.cpp, and Ledger/Operations the calls put, add, remove,
--   put_without_key and count_writes with the policy of a collection. Ledger/Layout is the abstract
--   view, a history of versions for each object. Ledger/Specification says what a write makes of the
--   history of its object, and Ledger/Steps follows the iterator from an event to its predecessor.
-- * Operation, from src/enclave/op_info.h, src/enclave/op_info.cpp and parse_path of
--   src/common/util/keys.h: what the operations of a transaction lock, validate and write.
-- * BufferManager, from src/enclave/BufferManager.h, src/enclave/BufferManager.inl,
--   src/enclave/BufferManager.cpp and src/enclave/Page.h: one shard of the cache of pages.
--   BufferManager/Contents is its abstract view, one content for each page wherever it is.
-- * Disk, from src/server/Disk.h and src/server/Disk.cpp: the files of the enclave on 64 shards in
--   memory, written in batches to the file system of the host, which is the parameter FileSystem.
--   Disk/Contents is its abstract view, the bytes stored under each name, and Disk/Dump has
--   dump_everything and load_everything. A mutex that is unlocked twice is an error there.
-- * TwoPhase, from src/enclave/TransactionExecutor.cpp, src/enclave/wait.h, work of
--   src/enclave/TransactionProxy.cpp and the handlers of TransactionPrepare, TransactionAbort and
--   TransactionCommit of src/enclave/RemoteParty.cpp: two-phase commit of a transaction between a
--   coordinator and its children, each a node with a transaction of Transaction.
-- * TransactionManager, from src/enclave/TransactionManager.h, src/enclave/TransactionManager.cpp
--   and src/enclave/Counter.h: the table of the transactions of a node, by the identity of their
--   root and their number.
-- * HashIndex, from src/enclave/Index.h and src/enclave/Index.cpp: the secondary index over a
--   MultiMap, and its answer to a predicate with or without $in. What the JSON library says of a
--   document is the parameter Json.
-- * TransactionLedger, from src/enclave/TransactionLedger.h, src/enclave/TransactionLedger.cpp and
--   local_ops of src/enclave/TransactionHandle.h: the records of the committed transactions, in
--   blocks of Block. How a record becomes a document is the parameter Codec.
--
-- How they interact: the maps and the ledger store nodes and blocks through the buffer manager, of
-- which their models have a store of pages by number, as BufferManager/Contents justifies for a page
-- that is pinned or synced; the ledger inserts encoded events into the blocks of Block and reads
-- them back, and keeps as the primary index of a collection the function for which a HashMap stands;
-- LockHandle calls the locks of the shards by the rounds of RwLockable; a transaction's record is a
-- set of event identifiers and its bounds are intervals of EventId. A coordinator of TwoPhase calls
-- prepare, commit and abort of Transaction at its own node, and the messages to its children call
-- them there, one node after the other in the order of the children; the nodes share nothing but
-- messages, so any other order between different nodes leaves the same. Which children are connected
-- is an argument of each phase. That a validation gives back the locks that it takes is the
-- hypothesis KeepsLocks of Transaction/Locking: it takes them through a child of the transaction's
-- lock handle, which gives them back at its end. An exception is a result (err, a constructor of an
-- outcome, or none).
--
-- Bounds and fuel: machine integers keep their width where the code can reach it, the offsets of a
-- block on 32 bits, counts and indices on 16, the lock's counter on 32 with its sign, page numbers
-- on 32. The loops over a chain of pages take fuel, and the theorems about them say how much is
-- enough: one round per page, and for an insertion one more for the page it may create. The loops of
-- the ledger and of its iterator over events that are no versions take fuel, of which one round is
-- enough, since only versions and tombstones are written; check_evict has one round for each
-- evictable page and one more. Block::insert has no fuel: its index grows at most once per call. The
-- sizes of loaded pages are naturals, and stop at 0 where the source's would wrap around. The
-- numbers of pages that the transaction ledger takes have 32 bits. The counters of the disk keep 64
-- bits, the length of a name in a dump 32 and that of a file 64, the number of a transaction 32. The
-- loops over shards, files, children and documents are over lists or a number of rounds that the
-- code fixes.
--
-- Not modelled: the remote (downstream) branches of get_node_internal and of Shard::get_block, the
-- iterators of the maps but for set_value, the JSON documents and the byte streams, which come from
-- submodules, the interpreter that runs policies, the locks that the calls of the ledger take, which
-- LockHandle models by themselves, the ledger's clear, find, diff, create_witness and its metadata,
-- the secondary indexes behind the parameter Calls, reload_page and the threads of the buffer
-- manager, encryption, the operation that finds objects and the witnesses, the destructors of the
-- disk and of the transaction manager, the threads that share a disk or a table, the operations that
-- a client sends to a node, and all other network, attestation and client code. An unordered
-- container is a list or a function.
pub mod Prelude
pub mod VersionNumber
pub mod EventId
pub mod TransactionHandle
pub mod Node
pub mod ObjectEvent
pub mod Ledger
pub mod BufferManager
pub mod Map
pub mod HashMap
pub mod MultiMap
pub mod Block
pub mod RwLockable
pub mod LockHandle
pub mod Transaction
pub mod Operation
pub mod Disk
pub mod TwoPhase
pub mod TransactionManager
pub mod HashIndex
pub mod TransactionLedger
