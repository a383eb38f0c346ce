-- ===== src/TwoPhase/Examples.antt =====
-- The theorems about src/enclave/TransactionExecutor.cpp at a transaction over three nodes.
use credb.Prelude.{
  ℕ, ◌+◌, ◌≡◌, ◌⊎◌, refl, Bool, true, false, List, [], ◌∷◌, pos, ◌==◌, if◌then◌else◌,
}
use credb.RwLockable.{write}
use credb.LockHandle.{Counters, no_locks, would_block}
use credb.ObjectEvent.{LedgerPos}
use credb.Transaction.{
  Transaction, Operations, pending, prepared, valid, broken, value, write_failed,
}
use credb.Transaction.Commit.{Writes, commit, Throws, IsCommitted, commit-IsCommitted}
use credb.TwoPhase.{Node}

-- An operation is the shard it writes; a ledger is the sum of what was written.
abbrev operations : Operations ℕ ℕ
operations = record {
  collects = λ op. (op, write) ∷ [];
  validate =
      λ op h c ledger. record { validity = valid; handle = h; counters = c; sets_error = false };
  organize_ledger = λ sid ledger. ledger;
}

abbrev start : LedgerPos
start = record { block = 1; index = 0 }

abbrev adding : Writes ℕ ℕ
adding = record {
  extract_reads = λ op. [];
  extract_writes = λ op counts. counts;
  next_event_ids = λ shard num ledger. [];
  insert_record = λ origin identifier set ledger. (ledger, start);
  do_write = λ ref op ledger. (ledger + op, true);
}

abbrev free : ℕ → Counters
free c s = pos 0

abbrev node : Bool → Node ℕ ℕ
node is_remote = record {
  object = record {
    state = pending;
    lock_types = (5, write) ∷ [];
    handle = record { locks = no_locks; nonblocking = true };
    ops = 5 ∷ [];
    has_error = false;
    origin = 1;
    identifier = 9;
  };
  is_remote = is_remote;
  world = record { counters = λ s. pos 0; registered = λ o i. true; ledger = 0 };
}

abbrev children : List ℕ
children = 2 ∷ 3 ∷ []

abbrev locked : Transaction ℕ
locked = record ((node false).object) { state = prepared }

commit-IsCommitted_example :
    (((commit operations adding locked (node false).world).ending ≡ value true)
      × IsCommitted operations adding
          (λ s. pos 0)
          locked
          (node false).world
          (commit operations adding locked (node false).world))
    ⊎ (((commit operations adding locked (node false).world).ending ≡ write_failed)
        × ((commit operations adding locked (node false).world).tx ≡ locked)
        × Throws operations adding locked.ops)
commit-IsCommitted_example =
    commit-IsCommitted operations adding (λ s. pos 0) locked (node false).world refl refl
      (λ s. refl)

-- The same operations, of which those of shard 7 do not get a lock.
abbrev contended : Operations ℕ ℕ
contended = record operations {
  validate = λ op h c ledger. record {
    validity = if op == 7 then broken would_block else valid;
    handle = h;
    counters = c;
    sets_error = false;
  };
}

-- The coordinator's operation is one of those.
abbrev coordinator : Node ℕ ℕ
coordinator = record (node false) { object = record ((node false).object) { ops = 7 ∷ [] } }
