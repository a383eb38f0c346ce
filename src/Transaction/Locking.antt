-- ===== src/Transaction/Locking.antt =====
-- `prepare` and `abort` of src/enclave/Transaction.cpp against the locks of the shards.
use credb.Prelude.{
  ℕ, ◌≡◌, ◌≢◌, ◌<◌, ◌⊎◌, inl, inr, refl, Bool, true, false, Option, none, some, List, [], ◌||◌, ◌∷◌,
  All, arith, subst, ◌∙◌, sym,
}
use credb.RwLockable.{
  LockType, read, write, try_read_lock, try_write_lock, read_unlock, increment, decrement,
  read_lock, write_lock, read_to_write_lock,
}
use credb.LockHandle.{
  Handle, root, LockInfo, After, Outcome, returns, would_block, Counters, get_shard, get_new,
  get_again, upgrade, first_round, new_info, count_up, root_of, num_shards,
}
use credb.LockHandle.Root.{Inv, InvAfter, Small, get_shard-Inv, clear-frees, count_of}
use credb.Transaction.{
  LockTypes, Transaction, World, Operations, Done, value, pending, prepared, aborted, acquire,
  prepare, abort, cleanup, validate_all, finish_prepare, Validity, valid, invalid, broken,
  Validated, no_lock,
}

-- The handle has an entry of that type for the shard.
abbrev pub Held : LockType → Option LockInfo → Type 0
Held type none = ⊥
Held type (some info) = 0 < count_of type info

abbrev pub HoldsLock : Handle → ℕ × LockType → Type 0
HoldsLock h e = Held e.1 (h.locks e.0)

-- The shards ascend.
abbrev pub Ascending : LockTypes → Type 0
Ascending [] = Unit
Ascending (e ∷ locks) = All (λ (f : ℕ × LockType). e.0 < f.0) locks × Ascending locks

-- The counts can go up at every shard of the list.
abbrev pub Room : Handle → Counters → LockTypes → Type 0
Room h free = All (λ (e : ℕ × LockType). Small (h.locks e.0) (free e.0))

get_shard_frame :
    (h : Handle) (counters : Counters) (sid : ℕ) (type : LockType) (nb : Bool)
    → ((get_shard (root h) counters sid type nb).handles
        ≡ root (root_of (get_shard (root h) counters sid type nb).handles))
      × ((s : ℕ)
          → s ≢ sid
          → (root_of (get_shard (root h) counters sid type nb).handles).locks s ≡ h.locks s)
      × ((root_of (get_shard (root h) counters sid type nb).handles).nonblocking ≡ h.nonblocking)
unfolding get_shard get_new get_again upgrade
get_shard_frame h counters sid read nb = (ground arith, λ s d. ground arith, ground arith)
get_shard_frame h counters sid write nb = (ground arith, λ s d. ground arith, ground arith)

get_shard_tries :
    (free : Counters) (h : Handle) (counters : Counters) (sid : ℕ) (type : LockType) (nb : Bool)
    → h.nonblocking ≡ true
    → Inv free h counters
    → Small (h.locks sid) (free sid)
    → ((get_shard (root h) counters sid type nb).outcome ≡ would_block)
      ⊎ (((get_shard (root h) counters sid type nb).outcome ≡ returns)
          × HoldsLock (root_of (get_shard (root h) counters sid type nb).handles) (sid, type))
unfolding get_shard get_new get_again upgrade first_round new_info count_up try_read_lock
    try_write_lock read_unlock increment decrement read_lock write_lock read_to_write_lock
get_shard_tries free h counters sid read nb t v small = ground (arith, v sid)
get_shard_tries free h counters sid write nb t v small = ground (arith, v sid)

-- What `acquire` leaves behind.
abbrev Acquires : Counters → Handle → LockTypes → After → Type 0
Acquires free h locks r =
    (r.handles ≡ root (root_of r.handles))
    × InvAfter free r
    × ((s : ℕ)
        → All (λ (e : ℕ × LockType). e.0 ≢ s) locks
        → (root_of r.handles).locks s ≡ h.locks s)
    × ((r.outcome ≡ would_block)
        ⊎ ((r.outcome ≡ returns) × All (HoldsLock (root_of r.handles)) locks))

acquire_stops :
    (h : Handle) (counters : Counters) (sid : ℕ) (type : LockType) (locks : LockTypes)
    → (get_shard (root h) counters sid type false).outcome ≡ would_block
    → acquire ((sid, type) ∷ locks) (root h) counters ≡ get_shard (root h) counters sid type false
unfolding acquire
acquire_stops h counters sid type locks e = ground arith

acquire_goes_on :
    (h h' : Handle) (counters : Counters) (sid : ℕ) (type : LockType) (locks : LockTypes)
    → (get_shard (root h) counters sid type false).outcome ≡ returns
    → (get_shard (root h) counters sid type false).handles ≡ root h'
    → acquire ((sid, type) ∷ locks) (root h) counters
      ≡ acquire locks (root h') (get_shard (root h) counters sid type false).counters
unfolding acquire
acquire_goes_on h h' counters sid type locks e same = ground arith

-- A lock outside the list is as it was, so a lock of the list has room as long as it is to come.
Room-after :
    (free : Counters) (h h' : Handle) (sid : ℕ) (locks : LockTypes)
    → ((s : ℕ) → s ≢ sid → h'.locks s ≡ h.locks s)
    → All (λ (f : ℕ × LockType). sid < f.0) locks
    → Room h free locks
    → Room h' free locks
Room-after free h h' sid [] same up room = tt
Room-after free h h' sid ((s, t) ∷ locks) same up room =
    (rw (same s (omega (arith, up.0))) room.0, Room-after free h h' sid locks same up.1 room.1)

apart :
    (sid : ℕ) (locks : LockTypes)
    → All (λ (f : ℕ × LockType). sid < f.0) locks
    → All (λ (e : ℕ × LockType). e.0 ≢ sid) locks
apart sid [] up = tt
apart sid ((s, t) ∷ locks) up = (omega (arith, up.0), apart sid locks up.1)

acquire_none :
    (free : Counters) (h : Handle) (counters : Counters)
    → Inv free h counters
    → Acquires free h [] (acquire [] (root h) counters)
unfolding acquire
acquire_none free h counters v = (refl, v, (λ s d. refl), inr (refl, tt))

acquire_lem :
    (free : Counters) (locks : LockTypes) (h : Handle) (counters : Counters)
    → h.nonblocking ≡ true
    → Inv free h counters
    → Room h free locks
    → Ascending locks
    → Acquires free h locks (acquire locks (root h) counters)
acquire_lem free [] h counters t v room up = acquire_none free h counters v
acquire_lem free ((sid, type) ∷ locks) h counters t v room up =
    elim (get_shard_tries free h counters sid type false t v room.0) [
      | inl e ↦
          subst (Acquires free h ((sid, type) ∷ locks))
            (sym (acquire_stops h counters sid type locks e))
            (frame.0, inv, (λ s d. frame.1 s (λ k. d.0 (sym k))), inl e)
      | inr (e, held) ↦
          let (same, inv', rest, ends) =
            acquire_lem free locks h' r.counters (frame.2 ∙ t) inv
              (Room-after free h h' sid locks frame.1 up.0 room.1) up.1 in
          subst (Acquires free h ((sid, type) ∷ locks))
            (sym (acquire_goes_on h h' counters sid type locks e frame.0))
            (
              same,
              inv',
              (λ s d. rest s d.1 ∙ frame.1 s (λ k. d.0 (sym k))),
              (elim ends [
                | inl k ↦ inl k
                | inr (k, all) ↦
                    inr (k, (subst (Held type) (sym (rest sid (apart sid locks up.0))) held, all))
              ]),
            )
    ]
  where
    r : After
    r = get_shard (root h) counters sid type false

    h' : Handle
    h' = root_of r.handles

    frame :
        (r.handles ≡ root h')
        × ((s : ℕ) → s ≢ sid → h'.locks s ≡ h.locks s)
        × (h'.nonblocking ≡ h.nonblocking)
    frame = get_shard_frame h counters sid type false

    inv : Inv free h' r.counters
    inv = get_shard-Inv free h counters sid type false v room.0

pub Validity-cases : (v : Validity) → (v ≡ valid) ⊎ (v ≡ invalid) ⊎ ((o : Outcome) × (v ≡ broken o))
Validity-cases valid = inl refl
Validity-cases invalid = inr (inl refl)
Validity-cases (broken o) = inr (inr (o, refl))

All-map :
    {A : Type 0} (R S : A → Type 0) (xs : List A) → ((x : A) → R x → S x) → All R xs → All S xs
All-map R S [] f all = tt
All-map R S (x ∷ xs) f (r, all) = (f x r, All-map R S xs f all)

module _ {Op Ledger : Type 0} (I : Operations Op Ledger) where
  -- The transaction is over: its state is `aborted`, it holds no lock, every counter of a shard is
  -- what it is without it, and the manager does not know it any more.
  pub record IsDiscarded (free : Counters) (d : Done Op Ledger) : Type 0 where
    pub state : d.tx.state ≡ aborted
    pub locks : (s : ℕ) → d.tx.handle.locks s ≡ none
    pub counters : (s : ℕ) → s < num_shards → d.world.counters s ≡ free s
    pub ops : d.tx.ops ≡ []
    pub unknown : d.world.registered d.tx.origin d.tx.identifier ≡ false

  -- `abort` of a pending or prepared transaction that the manager knows, and whose counts agree
  -- with the counters of the locks, ends and discards it: its state is `aborted`, it holds no
  -- lock, each counter is what it would be without it, it has no operations, and the manager does
  -- not know it.
  pub abort-IsDiscarded :
      (free : Counters) (result : Bool) (tx : Transaction Op) (w : World Ledger)
      → (tx.state ≡ pending) ⊎ (tx.state ≡ prepared)
      → w.registered tx.origin tx.identifier ≡ true
      → Inv free tx.handle w.counters
      → ((abort I result tx w).ending ≡ value result) × IsDiscarded free (abort I result tx w)
  unfolding abort cleanup
  abort-IsDiscarded free result tx w s known v = (
    ground arith,
    record {
      state = ground arith;
      locks = λ x. ground arith;
      counters = λ x l. ground (arith, (clear-frees free tx.handle w.counters x v l).0);
      ops = ground arith;
      unknown = ground arith;
    },
  )

  -- The transaction and the world once `acquire` has ended.
  abbrev locked : Transaction Op → World Ledger → Transaction Op
  locked tx w = record tx {
    handle = root_of (acquire tx.lock_types (root tx.handle) w.counters).handles;
  }

  abbrev locked_world : Transaction Op → World Ledger → World Ledger
  locked_world tx w = record w {
    counters = (acquire tx.lock_types (root tx.handle) w.counters).counters;
  }

  prepare_blocked :
      (tx : Transaction Op) (w : World Ledger)
      → tx.state ≡ pending
      → (acquire tx.lock_types (root tx.handle) w.counters).outcome ≡ would_block
      → prepare I tx w
        ≡ abort I false (record (locked tx w) { has_error = true }) (locked_world tx w)
  unfolding prepare
  prepare_blocked tx w p e = ground arith

  -- What the validations leave, once the locks are taken.
  abbrev pub validated : Transaction Op → World Ledger → Validated
  validated tx w =
      let r = acquire tx.lock_types (root tx.handle) w.counters in
      validate_all I tx.ops (root_of r.handles) r.counters w.ledger

  prepare_validates :
      (tx : Transaction Op) (w : World Ledger)
      → tx.state ≡ pending
      → (acquire tx.lock_types (root tx.handle) w.counters).outcome ≡ returns
      → prepare I tx w ≡ finish_prepare I (validated tx w) (locked tx w) (locked_world tx w)
  unfolding prepare
  prepare_validates tx w p e = ground arith

  -- A validation leaves the handle's counts in agreement with the counters of the locks, and each
  -- lock that the handle held: it takes its locks through a child handle, which gives them back at
  -- its end, also at an exception.
  pub record KeepsLocks : Type 0 where
    pub counts :
        (free : Counters) (op : Op) (h : Handle) (c : Counters) (l : Ledger)
        → Inv free h c
        → Inv free (I.validate op h c l).handle (I.validate op h c l).counters
    pub holds :
        (op : Op) (h : Handle) (c : Counters) (l : Ledger) (e : ℕ × LockType)
        → HoldsLock h e
        → HoldsLock (I.validate op h c l).handle e

  validate_all-Inv :
      (free : Counters) (ops : List Op) (h : Handle) (c : Counters) (l : Ledger)
      → KeepsLocks
      → Inv free h c
      → Inv free (validate_all I ops h c l).handle (validate_all I ops h c l).counters
  unfolding validate_all
  validate_all-Inv free [] h c l keeps v = v
  validate_all-Inv free (op ∷ ops) h c l keeps v =
      let before = validate_all-Inv free ops h c l keeps v in
      elim (Validity-cases (validate_all I ops h c l).validity) [
        | inl e ↦ rw (e, validate_all) (keeps.counts free op _ _ l before)
        | inr (inl e) ↦ rw (e, validate_all) before
        | inr (inr (o, e)) ↦ rw (e, validate_all) before
      ]

  validate_all-HoldsLock :
      (ops : List Op) (h : Handle) (c : Counters) (l : Ledger) (x : ℕ × LockType)
      → KeepsLocks
      → HoldsLock h x
      → HoldsLock (validate_all I ops h c l).handle x
  unfolding validate_all
  validate_all-HoldsLock [] h c l x keeps v = v
  validate_all-HoldsLock (op ∷ ops) h c l x keeps v =
      let before = validate_all-HoldsLock ops h c l x keeps v in
      elim (Validity-cases (validate_all I ops h c l).validity) [
        | inl e ↦ rw (e, validate_all) (keeps.holds op _ _ l x before)
        | inr (inl e) ↦ rw (e, validate_all) before
        | inr (inr (o, e)) ↦ rw (e, validate_all) before
      ]

  -- The transaction is ready to commit: it holds a lock of the type it asked for on every shard that
  -- it named, its counts agree with the counters, and every operation was validated.
  pub record IsPrepared (free : Counters) (tx : Transaction Op) (w : World Ledger)
      (d : Done Op Ledger) : Type 0 where
    pub state : d.tx.state ≡ prepared
    pub counts : Inv free d.tx.handle d.world.counters
    pub holds : All (HoldsLock d.tx.handle) tx.lock_types
    pub passed : (validated tx w).validity ≡ valid

  -- A validation has thrown or does not return: the transaction is still pending, and holds its
  -- locks.
  pub record IsBroken (free : Counters) (tx : Transaction Op) (w : World Ledger) (outcome : Outcome)
      (d : Done Op Ledger) : Type 0 where
    pub state : d.tx.state ≡ pending
    pub counts : Inv free d.tx.handle d.world.counters
    pub holds : All (HoldsLock d.tx.handle) tx.lock_types
    pub broke : (validated tx w).validity ≡ broken outcome

  pub prepare_lem :
      (free : Counters) (tx : Transaction Op) (w : World Ledger)
      → KeepsLocks
      → tx.state ≡ pending
      → w.registered tx.origin tx.identifier ≡ true
      → tx.handle.nonblocking ≡ true
      → Inv free tx.handle w.counters
      → Room tx.handle free tx.lock_types
      → Ascending tx.lock_types
      → (((prepare I tx w).ending ≡ value true) × IsPrepared free tx w (prepare I tx w))
        ⊎ (((prepare I tx w).ending ≡ value false) × IsDiscarded free (prepare I tx w))
        ⊎ ((o : Outcome) × ((prepare I tx w).ending ≡ no_lock o)
            × IsBroken free tx w o (prepare I tx w))
  unfolding finish_prepare
  prepare_lem free tx w keeps p known t v room up =
      let (same, inv, rest, ends) =
        acquire_lem free tx.lock_types tx.handle w.counters t v room up in
      elim ends [
        | inl e ↦ inr (
            inl (
              rw (prepare_blocked tx w p e) (
                abort-IsDiscarded free false (record (locked tx w) { has_error = true })
                  (locked_world tx w) (inl p) known inv)))
        | inr (e, held) ↦
            let a = acquire tx.lock_types (root tx.handle) w.counters in
            let counts =
              validate_all-Inv free tx.ops (root_of a.handles) a.counters w.ledger keeps inv in
            let holds =
              All-map (HoldsLock (root_of a.handles)) (HoldsLock (validated tx w).handle)
                tx.lock_types
                (λ x. validate_all-HoldsLock tx.ops (root_of a.handles) a.counters w.ledger x keeps)
                held in
            rw (prepare_validates tx w p e) (elim (Validity-cases (validated tx w).validity) [
              | inl f ↦ inl (
                  rw (f, finish_prepare)
                    (refl, record { state = refl; counts = counts; holds = holds; passed = f }))
              | inr (inl f) ↦ inr (
                  inl (
                    rw (f, finish_prepare)
                      (abort-IsDiscarded free false
                        (record (locked tx w) {
                          handle = (validated tx w).handle;
                          has_error = tx.has_error || (validated tx w).sets_error;
                        })
                        (record w { counters = (validated tx w).counters }) (inl p) known counts)))
              | inr (inr (o, f)) ↦ inr (
                  inr (
                    o,
                    rw (f, finish_prepare) refl,
                    rw (f, finish_prepare)
                        (record { state = p; counts = counts; holds = holds; broke = f }),
                  ))
            ])
      ]
