-- ===== src/Transaction.antt =====
-- src/enclave/Transaction.h and src/enclave/Transaction.cpp: the states of a transaction, the locks
-- that it collects and takes, and how it ends. The operations, the ledger and what an operation reads
-- from it are parameters.
pub mod Locking
pub mod Collecting
pub mod Commit
mod Examples
use credb.Prelude.{
  ℕ, ◌≡◌, Bool, true, false, ◌&&◌, ◌||◌, not, Option, none, some, List, [], ◌∷◌, if◌then◌else◌,
  ◌==◌, lookup, insert,
}
use credb.RwLockable.{LockType, read, write}
use credb.LockHandle.{
  Handle, Handles, root, After, Outcome, returns, would_block, waits, runtime_error, fatal,
  Counters, get_shard, clear, no_locks, root_of,
}

pub data TransactionState : Type 0 where
  pending prepared committed aborted : TransactionState

-- `m_shard_lock_types`, a `std::map`: its entries by ascending shard.
abbrev pub LockTypes : Type 0
LockTypes = List (ℕ × LockType)

unfoldable pub set_read_lock : ℕ → LockTypes → LockTypes
set_read_lock sid locks = elim (lookup sid locks) [
  | some type ↦ locks
  | none ↦ insert sid read locks
]

unfoldable pub set_write_lock : ℕ → LockTypes → LockTypes
set_write_lock sid locks = insert sid write locks

-- The transaction's own fields; of `m_error` whether it is set.
pub record Transaction (Op : Type 0) : Type 0 where
  pub state : TransactionState
  pub lock_types : LockTypes
  pub handle : Handle
  pub ops : List Op
  pub has_error : Bool
  pub origin : ℕ
  pub identifier : ℕ

-- What transactions share: the counters of the shards' locks, the keys in the manager's table, and
-- the ledger.
pub record World (Ledger : Type 0) : Type 0 where
  pub counters : Counters
  pub registered : ℕ → ℕ → Bool
  pub ledger : Ledger

-- How a validation ends: with an answer, or as a call that takes a lock does which does not return.
pub data Validity : Type 0 where
  valid invalid : Validity
  broken : Outcome → Validity

-- A validation, with the lock handle and the counters of the locks that it leaves, and whether it
-- has set `m_error`.
pub record Validated : Type 0 where
  pub validity : Validity
  pub handle : Handle
  pub counters : Counters
  pub sets_error : Bool

-- What the transaction calls of its operations and of the ledger: the calls of `set_read_lock` and
-- `set_write_lock` that `collect_shard_lock_type` makes, `validate`, which takes locks through the
-- transaction's handle, and `organize_ledger`.
pub record Operations (Op Ledger : Type 0) : Type 0 where
  pub collects : Op → List (ℕ × LockType)
  pub validate : Op → Handle → Counters → Ledger → Validated
  pub organize_ledger : ℕ → Ledger → Ledger

-- How a call ends: with a value, or with an exception.
pub data Ending : Type 0 where
  value : Bool → Ending
  invalid_state no_such_transaction write_failed : Ending
  no_lock : Outcome → Ending

pub record Done (Op Ledger : Type 0) : Type 0 where
  pub ending : Ending
  pub tx : Transaction Op
  pub world : World Ledger

-- The first loop of `prepare`: the locks, in the order of the map.
unfoldable pub acquire : LockTypes → Handles → Counters → After
acquire [] handles counters = record { outcome = returns; handles = handles; counters = counters }
acquire ((sid, type) ∷ locks) handles counters =
    let r = get_shard handles counters sid type false in
    let rest = acquire locks r.handles r.counters in elim r.outcome [ returns ↦ rest | _ ↦ r ]

module _ {Op Ledger : Type 0} (I : Operations Op Ledger) where
  -- The constructor: the lock handle does not block.
  unfoldable pub new_transaction : ℕ → ℕ → Transaction Op
  new_transaction origin identifier = record {
    state = pending;
    lock_types = [];
    handle = record { locks = no_locks; nonblocking = true };
    ops = [];
    has_error = false;
    origin = origin;
    identifier = identifier;
  }

  unfoldable pub collect : List (ℕ × LockType) → LockTypes → LockTypes
  unfolding set_read_lock set_write_lock
  collect [] locks = locks
  collect ((sid, read) ∷ calls) locks = collect calls (set_read_lock sid locks)
  collect ((sid, write) ∷ calls) locks = collect calls (set_write_lock sid locks)

  -- `register_operation`; `m_ops` with the newest operation first.
  unfoldable pub register_operation : Op → Transaction Op → Transaction Op
  unfolding collect
  register_operation op tx = record tx {
    ops = op ∷ tx.ops;
    lock_types = collect (I.collects op) tx.lock_types;
  }

  -- The loop of `cleanup` over the shards that were locked for writing.
  unfoldable pub organize : LockTypes → Ledger → Ledger
  organize [] ledger = ledger
  organize ((sid, read) ∷ locks) ledger = organize locks ledger
  organize ((sid, write) ∷ locks) ledger = organize locks (I.organize_ledger sid ledger)

  abbrev pub unregister : ℕ → ℕ → (ℕ → ℕ → Bool) → ℕ → ℕ → Bool
  unregister origin identifier table o i =
      if o == origin && i == identifier then false else table o i

  abbrev pub is_committed : TransactionState → Bool
  is_committed committed = true
  is_committed _ = false

  -- `cleanup`, with `remove_transaction` of the manager, which throws on an unknown transaction.
  unfoldable pub cleanup : Bool → Transaction Op → World Ledger → Done Op Ledger
  unfolding organize clear
  cleanup result tx w =
      let ledger' = if is_committed tx.state then organize tx.lock_types w.ledger else w.ledger in
      let r = clear (root tx.handle) w.counters in
      let tx' = record tx { handle = root_of r.handles; ops = [] } in
      let w' = record w { counters = r.counters; ledger = ledger' } in
      if w.registered tx.origin tx.identifier
      then record {
        ending = value result;
        tx = tx';
        world = record w' { registered = unregister tx.origin tx.identifier w.registered };
      }
      else record { ending = no_such_transaction; tx = tx'; world = w' }

  -- `abort`; `result` is what the caller returns once it has ended.
  unfoldable pub abort : Bool → Transaction Op → World Ledger → Done Op Ledger
  unfolding cleanup
  abort result tx w = elim tx.state [
    | aborted ↦ record { ending = value result; tx = tx; world = w }
    | pending ↦ cleanup result (record tx { state = aborted }) w
    | prepared ↦ cleanup result (record tx { state = aborted }) w
    | committed ↦ record { ending = invalid_state; tx = tx; world = w }
  ]

  -- The loop of `prepare` that validates, oldest operation first.
  unfoldable pub validate_all : List Op → Handle → Counters → Ledger → Validated
  validate_all [] handle counters ledger = record {
    validity = valid;
    handle = handle;
    counters = counters;
    sets_error = false;
  }
  validate_all (op ∷ ops) handle counters ledger =
      let before = validate_all ops handle counters ledger in
      let last = I.validate op before.handle before.counters ledger in
      elim before.validity [
        | valid ↦ record last { sets_error = before.sets_error || last.sets_error }
        | _ ↦ before
      ]

  -- The end of `prepare`: what a validation throws leaves the state and the locks as they are.
  unfoldable pub finish_prepare : Validated → Transaction Op → World Ledger → Done Op Ledger
  unfolding abort
  finish_prepare v tx w =
      let tx' = record tx { handle = v.handle; has_error = tx.has_error || v.sets_error } in
      let w' = record w { counters = v.counters } in
      elim v.validity [
        | valid ↦ record { ending = value true; tx = record tx' { state = prepared }; world = w' }
        | invalid ↦ abort false tx' w'
        | broken outcome ↦ record { ending = no_lock outcome; tx = tx'; world = w' }
      ]

  -- `prepare`, without the witness.
  unfoldable pub prepare : Transaction Op → World Ledger → Done Op Ledger
  unfolding acquire abort validate_all finish_prepare
  prepare tx w = elim tx.state [
    | pending ↦
        let r = acquire tx.lock_types (root tx.handle) w.counters in
        let tx1 = record tx { handle = root_of r.handles } in
        let w1 = record w { counters = r.counters } in
        elim r.outcome [
          | returns ↦ finish_prepare (validate_all tx.ops tx1.handle w1.counters w.ledger) tx1 w1
          | would_block ↦ abort false (record tx1 { has_error = true }) w1
          | waits ↦ record { ending = no_lock waits; tx = tx1; world = w1 }
          | runtime_error ↦ record { ending = no_lock runtime_error; tx = tx1; world = w1 }
          | fatal ↦ record { ending = no_lock fatal; tx = tx1; world = w1 }
        ]
    | _ ↦ record { ending = invalid_state; tx = tx; world = w }
  ]
