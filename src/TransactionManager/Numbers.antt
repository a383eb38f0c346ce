-- ===== src/TransactionManager/Numbers.antt =====
-- Which numbers src/enclave/TransactionManager.cpp gives to the transactions of its own node.
use credb.Prelude.{
  ℕ, suc, ◌+◌, ◌%◌, ◌^◌, ◌<◌, ◌≡◌, ◌≢◌, ◌⊎◌, refl, inl, inr, Bool, true, false, none, some, List,
  [], ◌∷◌, if◌then◌else◌, arith, Bool-cases, Option-cases,
}
use credb.TransactionManager.{
  Manager, new_manager, next, same_key, find, insert, erase, get, init_local, init_remote,
  remove_transaction,
}

module _ {T : Type 0} where
  find-insert :
      (k j : ℕ × ℕ) (t : T) (m : List ((ℕ × ℕ) × T))
      → find j (insert k t m) ≡ (if same_key j k then some t else find j m)
  unfolding find insert
  find-insert k j t [] = refl
  find-insert k j t ((i, u) ∷ m) = ground (arith, find-insert k j t m)

  find-erase :
      (k j : ℕ × ℕ) (m : List ((ℕ × ℕ) × T))
      → find j (erase k m) ≡ (if same_key j k then none else find j m)
  unfolding find erase
  find-erase k j [] = ground arith
  find-erase k j ((i, u) ∷ m) = ground (arith, find-erase k j m)

module _ {T : Type 0} (make : ℕ → ℕ → Bool → T) (has_identity : ℕ → Bool) (uid : ℕ) where
  -- After so many transactions of the node's own. A transaction that another node started carries
  -- that node's identity.
  pub data Reach : ℕ → Manager T → Type 0 where
    start : Reach 0 new_manager
    own : (n : ℕ) (m : Manager T) → Reach n m → Reach (suc n) (init_local make uid m).0
    remote :
        (n : ℕ) (m m' : Manager T) (root id : ℕ) (tx : T)
        → root ≢ uid
        → init_remote make has_identity root id m ≡ some (m', tx)
        → Reach n m
        → Reach n m'
    over :
        (n : ℕ) (m m' : Manager T) (root id : ℕ)
        → remove_transaction root id m ≡ some m'
        → Reach n m
        → Reach n m'

  -- The counter is past every number of the node's own transactions.
  record Numbered (n : ℕ) (m : Manager T) : Type 0 where
    counter : m.next_id ≡ (n + 1) % 2 ^ 32
    past : (id : ℕ) → n < 2 ^ 32 → n < id → get uid id m ≡ none

  init_local-Numbered :
      (n : ℕ) (m : Manager T) → Numbered n m → Numbered (suc n) (init_local make uid m).0
  unfolding init_local next get
  init_local-Numbered n m h = record {
    counter = omega (arith, h.counter);
    past = λ id small l. ground (
      arith,
      find-insert (uid, m.next_id) (uid, id) (make uid m.next_id false) m.transactions,
      h.past id (omega arith) (omega arith),
      h.counter,
    );
  }

  init_remote_cases :
      (m m' : Manager T) (root id : ℕ) (tx : T)
      → init_remote make has_identity root id m ≡ some (m', tx)
      → (m' ≡ m)
        ⊎ (m' ≡ record m { transactions = insert (root, id) (make root id true) m.transactions })
  unfolding init_remote
  init_remote_cases m m' root id tx e = elim (Option-cases (find (root, id) m.transactions)) [
    | inr (t, f) ↦ inl (ground (arith, f, e))
    | inl f ↦ elim (Bool-cases (has_identity root)) [
      | inl k ↦ inr (ground (arith, f, e, k))
      | inr k ↦ absurd (ground (arith, f, e, k))
    ]
  ]

  init_remote-Numbered :
      (n : ℕ) (m m' : Manager T) (root id : ℕ) (tx : T)
      → root ≢ uid
      → init_remote make has_identity root id m ≡ some (m', tx)
      → Numbered n m
      → Numbered n m'
  unfolding get
  init_remote-Numbered n m m' root id tx away e h = elim (init_remote_cases m m' root id tx e) [
    | inl same ↦ rw (same) h
    | inr more ↦ rw (more) (record {
      counter = h.counter;
      past = λ i small l. ground (
        arith,
        find-insert (root, id) (uid, i) (make root id true) m.transactions,
        h.past i small l,
      );
    })
  ]

  remove-Numbered :
      (n : ℕ) (m m' : Manager T) (root id : ℕ)
      → remove_transaction root id m ≡ some m'
      → Numbered n m
      → Numbered n m'
  unfolding remove_transaction get
  remove-Numbered n m m' root id e h = elim (Option-cases (find (root, id) m.transactions)) [
    | inl f ↦ absurd (ground (arith, f, e))
    | inr (t, f) ↦
        let more : m' ≡ record m { transactions = erase (root, id) m.transactions } =
          ground (arith, f, e) in
        rw (more) (record {
          counter = h.counter;
          past = λ i small l.
              ground (arith, find-erase (root, id) (uid, i) m.transactions, h.past i small l);
        })
  ]

  Reach-Numbered : (n : ℕ) (m : Manager T) → Reach n m → Numbered n m
  unfolding new_manager get find
  Reach-Numbered n m start = record { counter = omega arith; past = λ i small l. refl }
  Reach-Numbered n m (own k m0 r) = init_local-Numbered k m0 (Reach-Numbered k m0 r)
  Reach-Numbered n m (remote _ m0 m1 root id tx away e r) =
      init_remote-Numbered n m0 m root id tx away e (Reach-Numbered n m0 r)
  Reach-Numbered n m (over _ m0 m1 root id e r) =
      remove-Numbered n m0 m root id e (Reach-Numbered n m0 r)

  -- A node that has started fewer than 2 ^ 32 - 1 transactions of its own gives the next one a key that
  -- no transaction of the table has, adds it, and keeps all others, whatever other nodes started here
  -- and whatever is over; those of other nodes carry another identity than its own.
  pub init_local-fresh :
      (n : ℕ) (m : Manager T)
      → Reach n m
      → n + 1 < 2 ^ 32
      → (get uid m.next_id m ≡ none)
        × ((root id : ℕ)
            → get root id (init_local make uid m).0 ≡ (
                if same_key (root, id) (uid, m.next_id)
                then some (init_local make uid m).1
                else get root id m))
  unfolding init_local next get
  init_local-fresh n m r small =
      let h = Reach-Numbered n m r in
      (
        h.past m.next_id (omega arith) (omega (arith, h.counter)),
        λ root id.
            find-insert (uid, m.next_id) (root, id) (make uid m.next_id false) m.transactions,
      )

  init_remote_found :
      (m : Manager T) (root id : ℕ) (tx : T) (known : ℕ → Bool)
      → find (root, id) m.transactions ≡ some tx
      → init_remote make known root id m ≡ some (m, tx)
  unfolding init_remote
  init_remote_found m root id tx known f = ground arith

  -- A transaction that another node has started here is found again, by the same call whatever the
  -- identities are by then, and by `get`; no other entry changes.
  init_remote-again :
      (m m' : Manager T) (root id : ℕ) (tx : T) (later : ℕ → Bool)
      → init_remote make has_identity root id m ≡ some (m', tx)
      → (init_remote make later root id m' ≡ some (m', tx))
        × ((o i : ℕ) → get o i m' ≡ (if same_key (o, i) (root, id) then some tx else get o i m))
  unfolding init_remote get
  init_remote-again m m' root id tx later e = elim (Option-cases (find (root, id) m.transactions)) [
    | inr (t, f) ↦
        let same : m' ≡ m = ground (arith, f, e) in
        let what : tx ≡ t = ground (arith, f, e) in
        rw (same) (
          rw (what) (
            init_remote_found m root id t later f,
            λ o i. elim (Bool-cases (same_key (o, i) (root, id))) [
              | inr k ↦ rw (k) refl
              | inl k ↦
                  let e1 : o ≡ root = ground arith in
                  let e2 : i ≡ id = ground arith in rw (k) (rw (e1, e2) f)
            ],
          ))
    | inl f ↦ elim (Bool-cases (has_identity root)) [
      | inr k ↦ absurd (ground (arith, f, e, k))
      | inl k ↦
          let more : m'
              ≡ record m { transactions = insert (root, id) (make root id true) m.transactions } =
            ground (arith, f, e, k) in
          let what : tx ≡ make root id true = ground (arith, f, e, k) in
          rw (more) (
            rw (what) (
              init_remote_found _ root id (make root id true) later (
                  ground
                    (arith, find-insert (root, id) (root, id) (make root id true) m.transactions)),
              λ o i. find-insert (root, id) (o, i) (make root id true) m.transactions,
            ))
    ]
  ]
