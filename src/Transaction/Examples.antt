-- ===== src/Transaction/Examples.antt =====
-- The theorems about src/enclave/Transaction.cpp at concrete transactions.
use credb.Prelude.{ℕ, ◌≡◌, inl, refl, true, false, [], ◌∷◌, arith, lookup, pos}
use credb.RwLockable.{read, write}
use credb.LockHandle.{Counters, no_locks, update}
use credb.LockHandle.Root.{Inv}
use credb.Transaction.{
  Transaction, World, Operations, LockTypes, pending, abort, value, valid, register_operation,
}
use credb.Transaction.Collecting.{strongest, register_operation_lem}
use credb.Transaction.Locking.{Ascending, IsDiscarded, abort-IsDiscarded}

-- An operation is the shard it writes.
abbrev writes : Operations ℕ ℕ
writes = record {
  collects = λ op. (op, write) ∷ (2, read) ∷ [];
  validate =
      λ op h c ledger. record { validity = valid; handle = h; counters = c; sets_error = false };
  organize_ledger = λ sid ledger. ledger;
}

abbrev locks : LockTypes
locks = (2, read) ∷ (5, write) ∷ []

abbrev ready : Transaction ℕ
ready = record {
  state = pending;
  lock_types = locks;
  handle = record { locks = no_locks; nonblocking = true };
  ops = 5 ∷ [];
  has_error = false;
  origin = 1;
  identifier = 9;
}

-- Another transaction reads shard 5.
abbrev others : Counters
others = update (λ s. pos 0) 5 (pos 1)

abbrev busy : World ℕ
busy = record { counters = others; registered = λ o i. true; ledger = 0 }

ready-Inv : Inv others ready.handle others
ready-Inv s = refl

abort-IsDiscarded_example :
    ((abort writes true ready busy).ending ≡ value true)
    × IsDiscarded writes others (abort writes true ready busy)
abort-IsDiscarded_example =
    abort-IsDiscarded writes others true ready busy (inl refl) refl ready-Inv

register_operation_lem_example :
    Ascending (register_operation writes 7 ready).lock_types
    × ((sid : ℕ)
        → lookup sid (register_operation writes 7 ready).lock_types
          ≡ strongest (lookup sid locks) sid (writes.collects 7))
register_operation_lem_example = register_operation_lem writes 7 ready ((omega arith, tt), (tt, tt))
