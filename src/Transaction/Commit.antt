-- ===== src/Transaction/Commit.antt =====
-- `commit` of src/enclave/Transaction.cpp, without the witness: the record of the transaction, the
-- writes of its operations, and the end.
use credb.Prelude.{
  ℕ, zero, suc, ◌-◌, ◌≡◌, ◌<◌, ◌⊎◌, inl, inr, refl, ap, ◌∙◌, subst, Bool, Bool-cases, true, false,
  none, List, [], ◌∷◌, arith, ltb, if◌then◌else◌,
}
use credb.EventId.{EventId}
use credb.EventId.Sets.{set_insert}
use credb.ObjectEvent.{LedgerPos}
use credb.TransactionHandle.{OpSet}
use credb.LockHandle.{Counters, num_shards}
use credb.LockHandle.Root.{Inv, clear-frees}
use credb.Transaction.{
  Transaction, World, Operations, Done, value, invalid_state, write_failed, prepared, committed,
  cleanup, organize,
}

-- What `commit` calls of its operations and of the two ledgers; of a write the ledger that it leaves,
-- and whether it returns.
pub record Writes (Op Ledger : Type 0) : Type 0 where
  pub extract_reads : Op → List EventId
  pub extract_writes : Op → (ℕ → ℕ) → ℕ → ℕ
  pub next_event_ids : ℕ → ℕ → Ledger → List EventId
  pub insert_record : ℕ → ℕ → OpSet → Ledger → Ledger × LedgerPos
  pub do_write : LedgerPos → Op → Ledger → Ledger × Bool

-- `std::set::insert`, one after the other.
unfoldable pub insert_events : List EventId → List EventId → List EventId
insert_events set [] = set
insert_events set (e ∷ es) = insert_events (set_insert e set) es

pair-eq : {A : Type 0} (p : A × Bool) {b : Bool} → p.1 ≡ b → p ≡ (p.0, b)
pair-eq p e = ap (λ b. (p.0, b)) e

module _ {Op Ledger : Type 0} (I : Operations Op Ledger) (J : Writes Op Ledger) where
  -- The first loop, oldest operation first: what was read, and how often each shard is written.
  unfoldable pub extract : List Op → List EventId × (ℕ → ℕ)
  unfolding insert_events
  extract [] = ([], λ s. 0)
  extract (op ∷ ops) =
      let r = extract ops in (insert_events r.0 (J.extract_reads op), J.extract_writes op r.1)

  -- The loop over the shards, of which `rounds` are left: the events that will be written.
  unfoldable pub collect_events : ℕ → (ℕ → ℕ) → Ledger → List EventId → List EventId
  unfolding insert_events
  collect_events zero counts ledger set = set
  collect_events (suc rounds) counts ledger set =
      let shard = num_shards - suc rounds in
      collect_events rounds counts ledger (
        if ltb 0 (counts shard)
        then insert_events set (J.next_event_ids shard (counts shard) ledger)
        else set)

  -- The loop over `do_write`, oldest operation first: the ledger, and whether every write returned.
  unfoldable pub write_all : LedgerPos → List Op → Ledger → Ledger × Bool
  write_all ref [] ledger = (ledger, true)
  write_all ref (op ∷ ops) ledger =
      let r = write_all ref ops ledger in if r.1 then J.do_write ref op r.0 else r

  -- The events that were read and those that will be written.
  unfoldable pub set_of : List Op → Ledger → OpSet
  unfolding extract collect_events
  set_of ops ledger =
      let r = extract ops in
      record { reads = r.0; writes = collect_events num_shards r.1 ledger [] }

  -- The ledgers once the transaction's record is inserted, and where it stands.
  unfoldable pub record_commit : Transaction Op → Ledger → Ledger × LedgerPos
  unfolding set_of
  record_commit tx ledger = J.insert_record tx.origin tx.identifier (set_of tx.ops ledger) ledger

  -- The ledgers after the writes, and whether every write returned.
  unfoldable pub apply_all : Transaction Op → Ledger → Ledger × Bool
  unfolding record_commit write_all
  apply_all tx ledger = let r = record_commit tx ledger in write_all r.1 tx.ops r.0

  -- `commit`; of the witness it returns, that it returns. A write that throws leaves the transaction
  -- prepared, and what was written before.
  unfoldable pub commit : Transaction Op → World Ledger → Done Op Ledger
  unfolding apply_all cleanup
  commit tx w = elim tx.state [
    | prepared ↦
        let r = apply_all tx w.ledger in
        let w' = record w { ledger = r.0 } in
        if r.1
        then cleanup I true (record tx { state = committed }) w'
        else record { ending = write_failed; tx = tx; world = w' }
    | _ ↦ record { ending = invalid_state; tx = tx; world = w }
  ]

  -- Each operation, oldest first, was written to the ledger that the one before it left.
  abbrev pub Applied : LedgerPos → List Op → Ledger → Ledger → Type 0
  Applied ref [] before after = after ≡ before
  Applied ref (op ∷ ops) before after =
      (between : Ledger) × Applied ref ops before between
      × (J.do_write ref op between ≡ (after, true))

  -- The record of the transaction was inserted, then every operation was written with its position,
  -- and then the shards that were locked for writing were organized.
  pub record TakesEffect (tx : Transaction Op) (before after : Ledger) : Type 0 where
    pub ref : LedgerPos
    pub inserted : Ledger
    pub written : Ledger
    pub recorded :
        J.insert_record tx.origin tx.identifier (set_of tx.ops before) before ≡ (inserted, ref)
    pub applied : Applied ref tx.ops inserted written
    pub organized : after ≡ organize I tx.lock_types written

  -- Only the key, the operations and the lock types matter.
  pub TakesEffect-same :
      (tx tx' : Transaction Op) (l l' after : Ledger)
      → tx.origin ≡ tx'.origin
      → tx.identifier ≡ tx'.identifier
      → tx.ops ≡ tx'.ops
      → tx.lock_types ≡ tx'.lock_types
      → l ≡ l'
      → TakesEffect tx l after
      → TakesEffect tx' l' after
  TakesEffect-same tx tx' l l' after o i ops types e t = record {
    ref = t.ref;
    inserted = t.inserted;
    written = t.written;
    recorded = rw (← o, ← i, ← ops, ← e) t.recorded;
    applied = subst (λ (xs : List Op). Applied t.ref xs t.inserted t.written) ops t.applied;
    organized = t.organized ∙ ap (λ k. organize I k t.written) types;
  }

  -- The transaction has taken effect and is over: it holds no lock, every counter of a shard is what
  -- it is without it, and the manager does not know it any more.
  pub record IsCommitted (free : Counters) (tx : Transaction Op) (w : World Ledger)
      (d : Done Op Ledger) : Type 0 where
    pub state : d.tx.state ≡ committed
    pub effect : TakesEffect tx w.ledger d.world.ledger
    pub locks : (s : ℕ) → d.tx.handle.locks s ≡ none
    pub counters : (s : ℕ) → s < num_shards → d.world.counters s ≡ free s
    pub ops : d.tx.ops ≡ []
    pub unknown : d.world.registered d.tx.origin d.tx.identifier ≡ false

  -- The write of one of the operations throws at some ledger.
  abbrev pub Throws : List Op → Type 0
  Throws [] = ⊥
  Throws (op ∷ ops) =
      ((ref : LedgerPos) × (l : Ledger) × ((J.do_write ref op l).1 ≡ false)) ⊎ Throws ops

  write_all-Applied :
      (ref : LedgerPos) (ops : List Op) (l : Ledger)
      → (((write_all ref ops l).1 ≡ true) × Applied ref ops l (write_all ref ops l).0)
        ⊎ (((write_all ref ops l).1 ≡ false) × Throws ops)
  unfolding write_all
  write_all-Applied ref [] l = inl (refl, refl)
  write_all-Applied ref (op ∷ ops) l = elim (write_all-Applied ref ops l) [
    | inr (e, throws) ↦ inr (rw (e, write_all) refl, inr throws)
    | inl (e, before) ↦ elim (Bool-cases (J.do_write ref op (write_all ref ops l).0).1) [
      | inl t ↦ inl (rw (e, write_all) t, (_, before, rw (e, write_all) (pair-eq _ t)))
      | inr f ↦ inr (rw (e, write_all) f, inl (ref, (write_all ref ops l).0, f))
    ]
  ]

  commit_runs :
      (tx : Transaction Op) (w : World Ledger)
      → tx.state ≡ prepared
      → (apply_all tx w.ledger).1 ≡ true
      → commit tx w
        ≡ cleanup I true
            (record tx { state = committed })
            (record w { ledger = (apply_all tx w.ledger).0 })
  unfolding commit
  commit_runs tx w p e = ground arith

  -- `commit` of a prepared transaction that the manager knows and whose counts agree with the
  -- counters of the locks ends in one of two ways. It returns: its record is in the ledger, every
  -- operation was written once, oldest first, and the shards organized; the transaction holds no lock,
  -- each counter is as it is without it, it has no operations, and the manager does not know it. Or a
  -- write of one of its operations throws, and the transaction is as it was.
  pub commit-IsCommitted :
      (free : Counters) (tx : Transaction Op) (w : World Ledger)
      → tx.state ≡ prepared
      → w.registered tx.origin tx.identifier ≡ true
      → Inv free tx.handle w.counters
      → (((commit tx w).ending ≡ value true) × IsCommitted free tx w (commit tx w))
        ⊎ (((commit tx w).ending ≡ write_failed) × ((commit tx w).tx ≡ tx) × Throws tx.ops)
  unfolding commit cleanup apply_all record_commit
  commit-IsCommitted free tx w s known v =
      let r = record_commit tx w.ledger in
      elim (write_all-Applied r.1 tx.ops r.0) [
        | inr (e, throws) ↦ inr (ground (arith, e, s), ground (arith, e, s), throws)
        | inl (e, applied) ↦ inl (
          ground (arith, e),
          record {
            state = ground (arith, e);
            effect = record {
              ref = r.1;
              inserted = r.0;
              written = (write_all r.1 tx.ops r.0).0;
              recorded = refl;
              applied = applied;
              organized = ground (arith, e);
            };
            locks = λ x. ground (arith, e);
            counters = λ x l. ground (arith, e, (clear-frees free tx.handle w.counters x v l).0);
            ops = ground (arith, e);
            unknown = ground (arith, e);
          },
        )
      ]
