-- ===== src/TwoPhase/Nodes.antt =====
-- What each message of src/enclave/TransactionExecutor.cpp makes of a node.
use credb.Prelude.{
  ℕ, ◌≡◌, ◌<◌, ◌⊎◌, inl, inr, refl, ◌∙◌, Bool, true, false, ◌&&◌, not, none, List, [], ◌∷◌, arith,
  All,
}
use credb.ObjectEvent.{LedgerPos}
use credb.LockHandle.{Counters, num_shards, Outcome, would_block, runtime_error}
use credb.LockHandle.Root.{Inv}
use credb.Transaction.{
  Transaction, World, Operations, Ending, Done, value, no_lock, prepare, abort, cleanup,
  TransactionState, pending, prepared, aborted, committed, broken, finish_prepare,
}
use credb.Transaction.Locking.{
  Room, Ascending, HoldsLock, KeepsLocks, validated, prepare_lem, abort-IsDiscarded,
}
use credb.Transaction.Commit.{
  Writes, commit, Throws, TakesEffect, TakesEffect-same, commit-IsCommitted,
}
use credb.TwoPhase.{
  Node, answers, is_known, is_done, after, handle_prepare, handle_abort, handle_commit,
}

module _ {Op Ledger : Type 0} where
  -- The transaction of the second node stands where that of the first stood before it was prepared:
  -- it is in the given state, its manager knows it, it holds every lock that it collected, and
  -- nothing is written.
  pub record IsHolding (s : TransactionState) (free : Counters) (before n : Node Op Ledger)
      : Type 0 where
    pub state : n.object.state ≡ s
    pub known : is_known n ≡ true
    pub counts : Inv free n.object.handle n.world.counters
    pub holds : All (HoldsLock n.object.handle) before.object.lock_types
    pub origin : n.object.origin ≡ before.object.origin
    pub identifier : n.object.identifier ≡ before.object.identifier
    pub ops : n.object.ops ≡ before.object.ops
    pub lock_types : n.object.lock_types ≡ before.object.lock_types
    pub ledger : n.world.ledger ≡ before.world.ledger

  -- The transaction is over, in the given state: it holds no lock, every counter of a shard is what
  -- it is without it, and the manager does not know it any more.
  pub record IsReleased (s : TransactionState) (free : Counters) (n : Node Op Ledger) : Type 0 where
    pub state : n.object.state ≡ s
    pub locks : (i : ℕ) → n.object.handle.locks i ≡ none
    pub counters : (i : ℕ) → i < num_shards → n.world.counters i ≡ free i
    pub unknown : is_known n ≡ false

  -- It was given up, and nothing is written.
  abbrev pub IsRefused : Counters → Node Op Ledger → Node Op Ledger → Type 0
  IsRefused free before n = IsReleased aborted free n × (n.world.ledger ≡ before.world.ledger)

abbrev pub granted : Ending → Bool
granted (value b) = b
granted _ = false

module _ {Op Ledger : Type 0} (I : Operations Op Ledger) (J : Writes Op Ledger) where
  -- The transaction can be prepared: it is pending, the manager knows it, its lock handle does not
  -- block, its counts agree with the counters of the locks, there is room for the locks that it
  -- has collected, and a validation that does not answer throws.
  pub record IsReady (free : Counters) (n : Node Op Ledger) : Type 0 where
    pub state : n.object.state ≡ pending
    pub known : is_known n ≡ true
    pub nonblocking : n.object.handle.nonblocking ≡ true
    pub counts : Inv free n.object.handle n.world.counters
    pub room : Room n.object.handle free n.object.lock_types
    pub ascending : Ascending n.object.lock_types
    pub throws :
        (o : Outcome)
        → (validated I n.object n.world).validity ≡ broken o
        → (o ≡ would_block) ⊎ (o ≡ runtime_error)

  -- It has committed: its record and its operations are written.
  abbrev pub IsDone : Counters → Node Op Ledger → Node Op Ledger → Type 0
  IsDone free before n =
      IsReleased committed free n × TakesEffect I J before.object before.world.ledger n.world.ledger

  abbrev pub prepared_node : Node Op Ledger → Node Op Ledger
  prepared_node n = after n (prepare I n.object n.world)

  -- What `prepare` leaves as it was.
  abbrev Kept : Transaction Op → World Ledger → Done Op Ledger → Type 0
  Kept tx w d =
      (d.tx.origin ≡ tx.origin)
      × (d.tx.identifier ≡ tx.identifier)
      × (d.tx.ops ≡ tx.ops)
      × (d.tx.lock_types ≡ tx.lock_types)
      × (d.world.registered d.tx.origin d.tx.identifier ≡ w.registered tx.origin tx.identifier)

  prepare-ledger :
      (tx : Transaction Op) (w : World Ledger) → (prepare I tx w).world.ledger ≡ w.ledger
  unfolding prepare finish_prepare abort cleanup
  prepare-ledger tx w = ground arith

  prepare_granted-Kept :
      (tx : Transaction Op) (w : World Ledger)
      → (prepare I tx w).ending ≡ value true
      → Kept tx w (prepare I tx w)
  unfolding prepare finish_prepare abort cleanup
  prepare_granted-Kept tx w e =
      (ground arith, ground arith, ground arith, ground arith, ground arith)

  prepare_broken-Kept :
      (tx : Transaction Op) (w : World Ledger) (o : Outcome)
      → (prepare I tx w).ending ≡ no_lock o
      → Kept tx w (prepare I tx w)
  unfolding prepare finish_prepare abort cleanup
  prepare_broken-Kept tx w o e =
      (ground arith, ground arith, ground arith, ground arith, ground arith)

  holding :
      (s : TransactionState) (free : Counters) (n : Node Op Ledger)
      → is_known n ≡ true
      → Kept n.object n.world (prepare I n.object n.world)
      → (prepare I n.object n.world).tx.state ≡ s
      → Inv free (prepare I n.object n.world).tx.handle (prepare I n.object n.world).world.counters
      → All (HoldsLock (prepare I n.object n.world).tx.handle) n.object.lock_types
      → IsHolding s free n (prepared_node n)
  holding s free n known (o, i, ops, types, table) state counts holds = record {
    state = state;
    known = table ∙ known;
    counts = counts;
    holds = holds;
    origin = o;
    identifier = i;
    ops = ops;
    lock_types = types;
    ledger = prepare-ledger n.object n.world;
  }

  -- How `prepare` of a node that is ready ends.
  pub prepare_node :
      (free : Counters) (n : Node Op Ledger)
      → KeepsLocks I
      → IsReady free n
      → (((prepare I n.object n.world).ending ≡ value true)
          × IsHolding prepared free n (prepared_node n))
        ⊎ (((prepare I n.object n.world).ending ≡ value false) × IsRefused free n (prepared_node n))
        ⊎ ((o : Outcome) × ((prepare I n.object n.world).ending ≡ no_lock o)
            × ((validated I n.object n.world).validity ≡ broken o)
            × IsHolding pending free n (prepared_node n))
  prepare_node free n keeps r =
      elim (prepare_lem I free n.object n.world keeps r.state r.known r.nonblocking r.counts r.room
        r.ascending) [
          | inl (e, p) ↦ inl (
            e,
            holding prepared free n r.known (prepare_granted-Kept n.object n.world e) p.state
                p.counts p.holds,
          )
          | inr (inl (e, p)) ↦ inr (
              inl (
                e,
                (
                  record {
                    state = p.state;
                    locks = p.locks;
                    counters = p.counters;
                    unknown = p.unknown;
                  },
                  prepare-ledger n.object n.world,
                ),
              ))
          | inr (inr (o, e, p)) ↦ inr (
              inr (
                o,
                e,
                p.broke,
                holding pending free n r.known (prepare_broken-Kept n.object n.world o e) p.state
                    p.counts p.holds,
              ))
        ]

  pub handle_prepare_lem :
      (free : Counters) (n : Node Op Ledger)
      → KeepsLocks I
      → IsReady free n
      → n.is_remote ≡ true
      → handle_prepare I J n
        ≡ (prepared_node n, answers (granted (prepare I n.object n.world).ending))
  unfolding handle_prepare
  handle_prepare_lem free n keeps r remote = elim (prepare_node free n keeps r) [
    | inl (e, h) ↦ rw (r.known) (rw (remote) (rw (e) refl))
    | inr (inl (e, h)) ↦ rw (r.known) (rw (remote) (rw (e) refl))
    | inr (inr (o, e, b, h)) ↦
        rw (r.known)
          (rw (remote) (rw (e) (elim (r.throws o b) [ inl t ↦ rw (t) refl | inr t ↦ rw (t) refl ])))
  ]

  -- The states in which a transaction can be aborted.
  abbrev pub IsOpen : TransactionState → Type 0
  IsOpen s = (s ≡ pending) ⊎ (s ≡ prepared)

  abort-ledger :
      (tx : Transaction Op) (w : World Ledger)
      → IsOpen tx.state
      → (abort I true tx w).world.ledger ≡ w.ledger
  unfolding abort cleanup
  abort-ledger tx w can = ground arith

  IsOpen-state :
      (s : TransactionState) (tx : Transaction Op) → IsOpen s → tx.state ≡ s → IsOpen tx.state
  IsOpen-state s tx (inl p) e = inl (e ∙ p)
  IsOpen-state s tx (inr p) e = inr (e ∙ p)

  pub abort_node :
      (s : TransactionState) (free : Counters) (before n : Node Op Ledger)
      → IsOpen s
      → IsHolding s free before n
      → ((abort I true n.object n.world).ending ≡ value true)
        × IsRefused free before (after n (abort I true n.object n.world))
  abort_node s free before n can h =
      let can' = IsOpen-state s n.object can h.state in
      let (e, p) = abort-IsDiscarded I free true n.object n.world can' h.known h.counts in
      (
        e,
        (
          record { state = p.state; locks = p.locks; counters = p.counters; unknown = p.unknown },
          abort-ledger n.object n.world can' ∙ h.ledger,
        ),
      )

  pub abort_done :
      (n : Node Op Ledger)
      → n.object.state ≡ aborted
      → abort I true n.object n.world
        ≡ record { ending = value true; tx = n.object; world = n.world }
  unfolding abort
  abort_done n e = ground arith

  pub handle_abort_holding :
      (s : TransactionState) (free : Counters) (before n : Node Op Ledger)
      → IsOpen s
      → IsHolding s free before n
      → n.is_remote ≡ true
      → handle_abort I J n ≡ (after n (abort I true n.object n.world), answers true)
  unfolding handle_abort
  handle_abort_holding s free before n can h remote =
      let can' = IsOpen-state s n.object can h.state in
      let live : (is_known n && not (is_done n.object.state)) ≡ true =
        ground (arith, h.known, can') in
      rw (live) (rw (remote) (rw ((abort_node s free before n can h).0) refl))

  pub handle_abort_released :
      (s : TransactionState) (free : Counters) (n : Node Op Ledger)
      → IsReleased s free n
      → handle_abort I J n ≡ (n, answers false)
  unfolding handle_abort
  handle_abort_released s free n h = rw (h.unknown) refl

  -- No write throws.
  abbrev pub WritesReturn : Type 0
  WritesReturn = (ref : LedgerPos) (op : Op) (l : Ledger) → (J.do_write ref op l).1 ≡ true

  never-Throws : WritesReturn → (ops : List Op) → Throws I J ops → ⊥
  never-Throws writes [] t = t
  never-Throws writes (op ∷ ops) (inl (ref, l, f)) = let t = writes ref op l in cc
  never-Throws writes (op ∷ ops) (inr t) = never-Throws writes ops t

  pub commit_node :
      (free : Counters) (before n : Node Op Ledger)
      → WritesReturn
      → IsHolding prepared free before n
      → ((commit I J n.object n.world).ending ≡ value true)
        × IsDone free before (after n (commit I J n.object n.world))
  commit_node free before n writes h =
      elim (commit-IsCommitted I J free n.object n.world h.state h.known h.counts) [
        | inr (_, _, throws) ↦ absurd (never-Throws writes n.object.ops throws)
        | inl (e, p) ↦ (
          e,
          (
            record { state = p.state; locks = p.locks; counters = p.counters; unknown = p.unknown },
            TakesEffect-same I J n.object before.object n.world.ledger before.world.ledger _
                h.origin h.identifier h.ops h.lock_types h.ledger p.effect,
          ),
        )
      ]

  pub handle_commit_holding :
      (free : Counters) (before n : Node Op Ledger)
      → WritesReturn
      → IsHolding prepared free before n
      → n.is_remote ≡ true
      → handle_commit I J n ≡ (after n (commit I J n.object n.world), answers true)
  unfolding handle_commit
  handle_commit_holding free before n writes h remote =
      rw (h.known) (rw (remote) (rw ((commit_node free before n writes h).0) refl))
