-- ===== src/Transaction/Collecting.antt =====
-- Which locks a transaction of src/enclave/Transaction.cpp has collected when it is prepared.
use credb.Prelude.{
  ℕ, ◌≡◌, ◌<◌, inl, inr, Bool, true, false, ◌&&◌, ◌||◌, Option, none, some, List, [], ◌∷◌, All,
  arith, lookup, insert, lookup-insert, dec_lt, sym, subst, ◌==◌, if◌then◌else◌, Option-cases,
}
use credb.RwLockable.{LockType, read, write}
use credb.Transaction.{
  LockTypes, Transaction, Operations, set_read_lock, set_write_lock, collect, register_operation,
}
use credb.Transaction.Locking.{Ascending}

-- An operation asks for a lock of the type on the shard.
abbrev pub is_write : LockType → Bool
is_write write = true
is_write read = false

pub asks_write : ℕ → List (ℕ × LockType) → Bool
asks_write sid [] = false
asks_write sid ((s, t) ∷ calls) = (sid == s && is_write t) || asks_write sid calls

pub asks : ℕ → List (ℕ × LockType) → Bool
asks sid [] = false
asks sid ((s, t) ∷ calls) = (sid == s) || asks sid calls

-- The lock type of a shard after the calls: writing if one asks for it, else what it was, else
-- reading if one asks at all.
abbrev pub or_read : Option LockType → Bool → Option LockType
or_read (some t) asked = some t
or_read none true = some read
or_read none false = none

abbrev pub strongest : Option LockType → ℕ → List (ℕ × LockType) → Option LockType
strongest before sid calls =
    if asks_write sid calls then some write else or_read before (asks sid calls)

insert-Above :
    (b sid : ℕ) (type : LockType) (locks : LockTypes)
    → b < sid
    → All (λ (f : ℕ × LockType). b < f.0) locks
    → All (λ (f : ℕ × LockType). b < f.0) (insert sid type locks)
insert-Above b sid type [] l up = (l, tt)
insert-Above b sid type ((s, t) ∷ locks) l up = ground (arith, insert-Above b sid type locks l up.1)

above :
    (b c : ℕ) (locks : LockTypes)
    → b < c
    → All (λ (f : ℕ × LockType). c < f.0) locks
    → All (λ (f : ℕ × LockType). b < f.0) locks
above b c [] l up = tt
above b c ((s, t) ∷ locks) l up = (omega (arith, up.0), above b c locks l up.1)

insert-Ascending :
    (sid : ℕ) (type : LockType) (locks : LockTypes)
    → Ascending locks
    → Ascending (insert sid type locks)
insert-Ascending sid type [] up = (tt, tt)
insert-Ascending sid type ((s, t) ∷ locks) up = elim (dec_lt sid s) [
  | yes l ↦
      let e : insert sid type ((s, t) ∷ locks) ≡ (sid, type) ∷ (s, t) ∷ locks = ground arith in
      subst Ascending (sym e) ((l, above sid s locks l up.0), up)
  | no m ↦ elim (dec_lt s sid) [
    | yes l ↦
        let e : insert sid type ((s, t) ∷ locks) ≡ (s, t) ∷ insert sid type locks = ground arith in
        subst Ascending (sym e)
          (insert-Above s sid type locks l up.0, insert-Ascending sid type locks up.1)
    | no k ↦
        let same : s ≡ sid = omega arith in
        let e : insert sid type ((s, t) ∷ locks) ≡ (sid, type) ∷ locks = ground arith in
        subst Ascending (sym e)
          (subst (λ (x : ℕ). All (λ (f : ℕ × LockType). x < f.0) locks) same up.0, up.1)
  ]
]

collect-lookup :
    {Op Ledger : Type 0} (I : Operations Op Ledger) (sid : ℕ) (calls : List (ℕ × LockType))
    (locks : LockTypes)
    → lookup sid (collect I calls locks) ≡ strongest (lookup sid locks) sid calls
unfolding collect set_read_lock set_write_lock asks asks_write
collect-lookup I sid [] locks = ground arith
collect-lookup I sid ((s, read) ∷ calls) locks = elim (Option-cases (lookup s locks)) [
  | inl e ↦
      ground
        (arith, e, collect-lookup I sid calls (insert s read locks), lookup-insert s sid read locks)
  | inr (t, e) ↦ ground (arith, e, collect-lookup I sid calls locks)
]
collect-lookup I sid ((s, write) ∷ calls) locks =
    ground
      (arith, collect-lookup I sid calls (set_write_lock s locks), lookup-insert s sid write locks)

set_read_lock-Ascending :
    (sid : ℕ) (locks : LockTypes) → Ascending locks → Ascending (set_read_lock sid locks)
unfolding set_read_lock
set_read_lock-Ascending sid locks up = elim (Option-cases (lookup sid locks)) [
  | inl e ↦ rw (Ascending, e) (insert-Ascending sid read locks up)
  | inr (t, e) ↦ rw (Ascending, e) up
]

collect-Ascending :
    {Op Ledger : Type 0} (I : Operations Op Ledger) (calls : List (ℕ × LockType))
    (locks : LockTypes)
    → Ascending locks
    → Ascending (collect I calls locks)
unfolding collect set_write_lock
collect-Ascending I [] locks up = up
collect-Ascending I ((s, read) ∷ calls) locks up =
    collect-Ascending I calls (set_read_lock s locks) (set_read_lock-Ascending s locks up)
collect-Ascending I ((s, write) ∷ calls) locks up =
    collect-Ascending I calls (set_write_lock s locks) (insert-Ascending s write locks up)

-- `register_operation` keeps the lock types ascending by shard, and gives each shard the strongest
-- lock: one for writing if the operation asks for it, else the one that it had, else one for reading
-- if the operation asks at all.
pub register_operation_lem :
    {Op Ledger : Type 0} (I : Operations Op Ledger) (op : Op) (tx : Transaction Op)
    → Ascending tx.lock_types
    → Ascending (register_operation I op tx).lock_types
      × ((sid : ℕ)
          → lookup sid (register_operation I op tx).lock_types
            ≡ strongest (lookup sid tx.lock_types) sid (I.collects op))
unfolding register_operation
register_operation_lem I op tx up = (
  collect-Ascending I (I.collects op) tx.lock_types up,
  λ sid. collect-lookup I sid (I.collects op) tx.lock_types,
)
