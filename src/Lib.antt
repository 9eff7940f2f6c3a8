-- ===== src/Lib.antt =====
-- Database-Concurrency-Control: a transaction processor with serial, locking, optimistic and
-- multiversion concurrency control, modelled and verified.
--
-- The program. Clients hand transactions to a TxnProcessor (txn/txn_processor.cc), whose scheduler
-- thread takes them from a queue and runs them on a thread pool (utils/static_thread_pool.h)
-- against a storage (txn/storage.cc, txn/mvcc_storage.cc). In the locking modes a lock manager
-- (txn/lock_manager.cc) decides which transactions are ready. Queues between threads are those of
-- utils/atomic.h.
--
-- The modules, and the code that each is about:
--   Prelude      Boolean tests, lists, tables, ordered maps and sets, and outcomes of code that can
--                end the process; the other modules take the library's names from it.
--   Places       what it means that a queue holds exactly the things that are at a place.
--   Task         utils/task.h: Function, and in Methods Method; Calls says what they call.
--   Txn          txn/txn.h, txn/txn.cc: Txn::Read, Write, CheckReadWriteSets, CopyTxnInternals.
--   TxnTypes     txn/txn_types.h: Noop, Expect, Put and RMW, with clone and Run; Random has the
--                constructor of RMW that picks its sets by rand().
--   Storage      txn/storage.h, txn/storage.cc: the single-version storage with its timestamps.
--   MvccStorage  txn/mvcc_storage.h, txn/mvcc_storage.cc: versions, Read, Write, CheckWrite, locks.
--   Atomic       utils/atomic.h: Queue, Keyed (AtomicMap and AtomicSet) and Cell (Atomic).
--   ThreadPool   utils/static_thread_pool.h: RunTask and RunThread; System has all the threads and
--                callers of a pool, step by step. DynamicPool has those of
--                utils/dynamic_thread_pool.h, with the waits of utils/condition.h.
--   LockManager  txn/lock_manager.h, txn/lock_manager.cc: Requests (the tables), ManagerA, ManagerB,
--                and Interface, the abstract class with laws on its deques, which
--                Implementations proves. What is granted is in the Grants modules of each.
--   Processor    txn/txn_processor.h, txn/txn_processor.cc: Objects (the shared state), Construction
--                (what is made for each mode), Execution (ExecuteTxn, ApplyWrites,
--                OCCValidateTransaction), Serial, Locking, Occ and Mvcc.
--                Workers has ExecuteTxn in the steps of a thread, Serializability says what a
--                history is worth, and Exclusive is Locking over LockManagerA. Occ/System,
--                Exclusive/System and Mvcc/System put clients, scheduler, storage and threads
--                together.
--   Examples     tests, and the theorems at concrete inputs.
-- Functions keep the names of the methods, in snake case; a loop, or a branch behind a test, is a
-- function of its own. Child modules hold the proofs and are named for what they prove.
--
-- How the code is represented. State is passed explicitly. A pointer to a transaction or a task
-- is a number. std::set and std::map are lists in increasing order of the keys; an unordered map
-- is a function. DIE gives `died`; a null pointer that is read, or a mutex that cannot be locked,
-- gives `none`. A call under a mutex is one step. Threads appear as explicit interference:
-- ExecuteTxn takes the writes that the scheduler makes before each of its reads, MVCCExecuteTxn
-- takes what other threads do before each of its calls of Lock, and a queue of utils/atomic.h is
-- used by a series of calls, whoever makes them. In the system of the mode MVCC a step of a
-- thread is one call of the storage: the lock, the read and the release of a key each; only the
-- checks and the writes, which touch keys whose locks the thread has, are one step together. In
-- the systems of the modes OCC and LOCKING_EXCLUSIVE_ONLY clients, the scheduler and the threads
-- take steps in any order: a step of a thread is a reading of the clock, the read of a key, or
-- the run of the logic with the hand-over, which touch nothing else that is shared; a step of the
-- scheduler starts one transaction, hands one to the pool or finishes one. A task in the pool
-- begins at any time. The state has, for the proofs only, the place of each transaction, what it
-- was when a thread began it, and the transactions that have committed; in the mode OCC also what
-- the client handed in, and whether it was restarted. In this mode the clock is taken to give a
-- later time at each reading, because the code compares times by `>`; the clock of GetTime, which
-- counts microseconds and may be set back, gives no such promise. What
-- rand(), TryLock and GetTime return are arguments. Reads of uninitialised memory are arguments
-- too: the old `*result`, and, in LockManagerB::Release, the mode read through the erased
-- iterator (`stale`). In the systems of the two thread pools a step is one access to what the
-- threads share, the state has, for the proofs only, where each task is, and each call of RunTask
-- has a task of its own; a wait on a condition variable is several steps, and may end by itself.
--
-- Numbers. Values and the counts of exclusive requests are of 64 bits and wrap around as written
-- out. An Atomic is modelled at the type int, where an overflow gives `none`. Ids and the timestamps of versions are numbers without a bound, as are the counts of waits,
-- which have a sign. Times are numbers.
--
-- Bounds and fuel. Both storages are initialised with one million records, as in the code. The only
-- function on fuel is `drain`, the loop of a stopping thread: the length of its queue is enough.
-- The random constructor of RMW takes the results of rand() as a list: as many rounds of all keys
-- as it wants keys are enough. RunTask's loop takes the attempts that are made. The outer loops of
-- the schedulers and of the threads do not end by themselves, and are modelled round by round.
--
-- Not modelled: the creation, pinning and joining of threads, and the freeing of memory; the
-- abstract classes of utils/thread_pool.h and utils/task.h; of utils/mutex.h and
-- utils/condition.h, which wrap calls of pthread, what is not called; txn/haha.cc, which the
-- program does not use; the operators *=, /= and %= of Atomic, which nothing calls; the busy loop of RMW::Run, which only takes time; the tests and their
-- helpers.
pub mod Places
pub mod Prelude
pub mod Task
pub mod Txn
pub mod TxnTypes
pub mod Storage
pub mod MvccStorage
pub mod Atomic
pub mod ThreadPool
pub mod LockManager
pub mod Processor
pub mod Examples
