-- ===== src/Processor/Construction.antt =====
-- txn/txn_processor.cc: the constructor and the destructor, which differ by mode.
use database_concurrency_con.Prelude.{
  ℕ, ◌≡◌, refl, Bool, true, false, [], Option, none, some, ltb, if◌then◌else◌,
}
use database_concurrency_con.TxnTypes.{Object}
use database_concurrency_con.Storage.{Storage}
use database_concurrency_con.Storage
use database_concurrency_con.Storage.History.{read-init_storage}
use database_concurrency_con.MvccStorage.{MvccStorage}
use database_concurrency_con.MvccStorage
use database_concurrency_con.ThreadPool.{Pool, new_pool, active}
use database_concurrency_con.Processor.Objects.{
  CcMode, serial, locking_exclusive_only, locking, occ, p_occ, mvcc, Scheduler,
  run_serial_scheduler, run_locking_scheduler, run_occ_scheduler, run_occ_parallel_scheduler,
  run_mvcc_scheduler, run_scheduler, Shared,
}
use database_concurrency_con.Processor.Mvcc.Progress.{IsFresh, init_storage-IsFresh}

-- `THREAD_COUNT`
abbrev pub thread_count : ℕ
thread_count = 4

-- The classes of lock managers, and the storages.
pub data Manager : Type 0 where
  lock_manager_a lock_manager_b : Manager

pub data AnyStorage : Type 0 where
  single : Storage → AnyStorage
  multi : MvccStorage → AnyStorage

-- `lm_`, if it is set, `storage_`, `tp_` and the queues.
pub record TxnProcessor : Type 0 where
  pub mode : CcMode
  pub manager : Option Manager
  pub storage : AnyStorage
  pub pool : Pool
  pub shared : Shared

-- What the constructor sets `lm_` to.
new_manager : CcMode → Option Manager
new_manager serial = none
new_manager locking_exclusive_only = some lock_manager_a
new_manager locking = some lock_manager_b
new_manager occ = none
new_manager p_occ = none
new_manager mvcc = none

-- The storage that the constructor makes, after `InitStorage`. `times` are the times that it reads.
new_storage : (ℕ → ℕ) → CcMode → AnyStorage
new_storage times serial = single (Storage.init_storage times Storage.empty)
new_storage times locking_exclusive_only = single (Storage.init_storage times Storage.empty)
new_storage times locking = single (Storage.init_storage times Storage.empty)
new_storage times occ = single (Storage.init_storage times Storage.empty)
new_storage times p_occ = single (Storage.init_storage times Storage.empty)
new_storage times mvcc = multi (MvccStorage.init_storage MvccStorage.empty)

-- `TxnProcessor::TxnProcessor`, but for the thread of the scheduler. The transactions are the clients'.
pub new_processor : (ℕ → ℕ) → (ℕ → Object) → CcMode → TxnProcessor
new_processor times objects mode = record {
  mode = mode;
  manager = new_manager mode;
  storage = new_storage times mode;
  pool = new_pool thread_count;
  shared = record {
    objects = objects;
    next_unique_id = 1;
    txn_requests = [];
    completed_txns = [];
    txn_results = [];
    ticks = 0;
  };
}

-- Whether the destructor deletes `lm_`.
pub deletes_manager : CcMode → Bool
deletes_manager serial = false
deletes_manager locking_exclusive_only = true
deletes_manager locking = true
deletes_manager occ = false
deletes_manager p_occ = false
deletes_manager mvcc = false

abbrev pub is_set : Option Manager → Bool
is_set none = false
is_set (some m) = true

-- Storage without versions as a client finds it: the keys below one million read as 0, and their
-- timestamps are the times at which they were entered; all others are missing.
abbrev IsInitial : (ℕ → ℕ) → Storage → Type 0
IsInitial times st =
    (k result : ℕ)
    → (Storage.read k result st ≡ (if ltb k 1000000 then (true, 0) else (false, result)))
      × (Storage.timestamp k st ≡ (if ltb k 1000000 then times k else 0))

-- The lock manager that a mode is named for: with exclusive locks only in one locking mode, and with
-- shared ones too in the other.
abbrev pub IsManagerOf : CcMode → Option Manager → Type 0
IsManagerOf serial m = m ≡ none
IsManagerOf locking_exclusive_only m = m ≡ some lock_manager_a
IsManagerOf locking m = m ≡ some lock_manager_b
IsManagerOf occ m = m ≡ none
IsManagerOf p_occ m = m ≡ none
IsManagerOf mvcc m = m ≡ none

-- The storage that a scheduler uses: the MVCC scheduler needs versions with unlocked mutexes, and the
-- others a storage without versions.
abbrev pub Serves : (ℕ → ℕ) → AnyStorage → Scheduler → Type 0
Serves times storage run_mvcc_scheduler = (st : MvccStorage) × (storage ≡ multi st) × IsFresh st
Serves times storage run_serial_scheduler =
    (st : Storage) × (storage ≡ single st) × IsInitial times st
Serves times storage run_locking_scheduler =
    (st : Storage) × (storage ≡ single st) × IsInitial times st
Serves times storage run_occ_scheduler = (st : Storage) × (storage ≡ single st) × IsInitial times st
Serves times storage run_occ_parallel_scheduler =
    (st : Storage) × (storage ≡ single st) × IsInitial times st

serves_single :
    (times : ℕ → ℕ) (storage : AnyStorage)
    → storage ≡ single (Storage.init_storage times Storage.empty)
    → (st : Storage) × (storage ≡ single st) × IsInitial times st
serves_single times storage e =
    (Storage.init_storage times Storage.empty, e, λ k result. read-init_storage times k result)

-- A pool of four threads that has no task and goes on, the first id 1, and empty queues.
abbrev pub IsIdle : TxnProcessor → Type 0
IsIdle p =
    (p.pool.thread_count ≡ 4)
    × (active p.pool ≡ true)
    × ((i : ℕ) → p.pool.queues i ≡ [])
    × (p.shared.next_unique_id ≡ 1)
    × (p.shared.txn_requests ≡ [])
    × (p.shared.completed_txns ≡ [])
    × (p.shared.txn_results ≡ [])

-- In each mode the constructor makes the lock manager of this mode, LockManagerA for exclusive locks
-- only and LockManagerB for both kinds, or none; a storage that the scheduler which RunScheduler calls
-- in this mode can use, with one million keys that read as 0, in the mode MVCC as one version each with
-- an unlocked mutex; and four threads, empty queues and the first id 1. The destructor deletes the lock
-- manager exactly when the constructor has made one.
pub new_processor-Serves :
    (times : ℕ → ℕ) (objects : ℕ → Object) (mode : CcMode)
    → let p = new_processor times objects mode in
      IsManagerOf mode p.manager
      × Serves times p.storage (run_scheduler mode)
      × IsIdle p
      × (deletes_manager mode ≡ is_set p.manager)
unfolding new_processor new_manager new_storage run_scheduler deletes_manager active
new_processor-Serves times objects serial =
    (refl, serves_single times _ refl, (refl, refl, λ i. refl, refl, refl, refl, refl), refl)
new_processor-Serves times objects locking_exclusive_only =
    (refl, serves_single times _ refl, (refl, refl, λ i. refl, refl, refl, refl, refl), refl)
new_processor-Serves times objects locking =
    (refl, serves_single times _ refl, (refl, refl, λ i. refl, refl, refl, refl, refl), refl)
new_processor-Serves times objects occ =
    (refl, serves_single times _ refl, (refl, refl, λ i. refl, refl, refl, refl, refl), refl)
new_processor-Serves times objects p_occ =
    (refl, serves_single times _ refl, (refl, refl, λ i. refl, refl, refl, refl, refl), refl)
new_processor-Serves times objects mvcc = (
  refl,
  (MvccStorage.init_storage MvccStorage.empty, refl, init_storage-IsFresh),
  (refl, refl, λ i. refl, refl, refl, refl, refl),
  refl,
)
