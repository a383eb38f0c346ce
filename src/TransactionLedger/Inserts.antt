-- ===== src/TransactionLedger/Inserts.antt =====
-- What `insert` of src/enclave/TransactionLedger.cpp leaves in the blocks, whether or not it closes the
-- pending one.
use credb.Prelude.{
  Bool, ◌<◌, ◌-◌, ℕ, ◌^◌, ◌≤◌, ◌≡◌, refl, inl, inr, true, false, some, List, [], ◌∷◌, ◌++◌, ltb,
  ◌==◌, length, get_elem?, arith, Bool-cases, ==_of_eq,
}
use credb.Block.{Block, new_block, end_pos, seal}
use credb.Block.Layout.{Holds, new_block-Holds}
use credb.Block.Insert.{insert-Holds, insert_unsealed}
use credb.Block.Reads.{get-Holds}
use credb.ObjectEvent.{LedgerPos}
use credb.TransactionHandle.{OpSet, write_ops}
use credb.Ledger.Write.{min_block_size}
use credb.Ledger.Appends.{small-HasRoom}
use credb.Ledger.Sealing.{new_block_lem, sealed-Holds}
use credb.TransactionLedger.{
  TransactionLedger, Codec, Result, ok, get_block, get_pending_block, generate_block,
  organize_ledger, finish_insert, insert, get, update,
}

-- `own` says which pages are the ledger's: their numbers are given out, each holds the records that
-- the ghost gives for it, and the pending one is among them, not sealed and small.
pub record Sound (l : TransactionLedger) (own : ℕ → Bool) (g : ℕ → List (List ℕ)) : Type 0 where
  pub page : (p : ℕ) → own p ≡ true → (b : Block) × (l.pages p ≡ some b) × Holds b (g p)
  pub below : (p : ℕ) → own p ≡ true → p < l.next_page
  pub pending : own l.pending_block ≡ true
  pub open_block :
      (b : Block) (at : l.pages l.pending_block ≡ some b)
      → (b.is_sealed ≡ false) × (end_pos b < min_block_size)

-- Other components may take page numbers in between.
pub others-Sound :
    (l : TransactionLedger) (own : ℕ → Bool) (g : ℕ → List (List ℕ)) (n : ℕ)
    → l.next_page ≤ n
    → Sound l own g
    → Sound (record l { next_page = n }) own g
others-Sound l own g n more sound = record {
  page = sound.page;
  below = λ p k. (let old = sound.below p k in omega arith);
  pending = sound.pending;
  open_block = sound.open_block;
}

-- The records with one more.
abbrev pub added : (ℕ → List (List ℕ)) → ℕ → List ℕ → ℕ → List (List ℕ)
added g p e = update g p (g p ++ e ∷ [])

get_block-page :
    (l : TransactionLedger) (p : ℕ) (b : Block) → l.pages p ≡ some b → get_block l p ≡ ok b
unfolding get_block
get_block-page l p b e = ground (arith, e)

-- `get` answers with the bytes of each record.
pub get-Sound :
    (C : Codec) (l : TransactionLedger) (own : ℕ → Bool) (g : ℕ → List (List ℕ)) (pos : LedgerPos)
    (e : List ℕ)
    → Sound l own g
    → own pos.block ≡ true
    → get_elem? (g pos.block) pos.index ≡ some e
    → get C l pos ≡ ok e
unfolding get
get-Sound C l own g pos e sound known found =
    let (b, page, holds) = sound.page pos.block known in
    rw (get_block-page l pos.block b page)
      (rw (get-Holds b (g pos.block) pos.index e holds found) refl)

-- What an insertion leaves.
pub record Inserts (l : TransactionLedger) (own : ℕ → Bool) (g : ℕ → List (List ℕ)) (e : List ℕ)
    (r : Result (TransactionLedger × LedgerPos)) : Type 0 where
  pub after : TransactionLedger
  pub own_after : ℕ → Bool
  pub ghost : ℕ → List (List ℕ)
  pub done : r ≡ ok (after, record { block = l.pending_block; index = length (g l.pending_block) })
  pub sound : Sound after own_after ghost
  pub grows : (p : ℕ) → own p ≡ true → own_after p ≡ true
  pub keeps : (p : ℕ) → own p ≡ true → ghost p ≡ added g l.pending_block e p

-- The pending page with one record more.
with_block :
    (l : TransactionLedger) (own : ℕ → Bool) (g : ℕ → List (List ℕ)) (b : Block) (e : List ℕ)
    (p : ℕ)
    → Sound l own g
    → Holds b (g l.pending_block ++ e ∷ [])
    → own p ≡ true
    → (c : Block) × (update l.pages l.pending_block (some b) p ≡ some c)
      × Holds c (added g l.pending_block e p)
with_block l own g b e p sound holds known = elim (Bool-cases (p == l.pending_block)) [
  | inl here ↦ rw (here) (b, refl, holds)
  | inr away ↦ rw (away) (sound.page p known)
]

finish_small :
    (l : TransactionLedger) (own : ℕ → Bool) (g : ℕ → List (List ℕ)) (b : Block) (e : List ℕ)
    → Sound l own g
    → b.is_sealed ≡ false
    → Holds b (g l.pending_block ++ e ∷ [])
    → ltb (end_pos b) min_block_size ≡ true
    → Inserts l own g e (finish_insert l b (length (g l.pending_block)))
unfolding finish_insert
finish_small l own g b e sound unsealed holds small = record {
  after = record l {
    pages = update l.pages l.pending_block (some b);
    num_pending_events = length (g l.pending_block);
  };
  own_after = own;
  ghost = added g l.pending_block e;
  done = rw (small) refl;
  sound = record {
    page = λ p k. with_block l own g b e p sound holds k;
    below = sound.below;
    pending = sound.pending;
    open_block = λ c at.
        let self : (l.pending_block == l.pending_block) ≡ true = ==_of_eq _ _ refl in
        let same : b ≡ c = ground (arith, self, at) in
        rw (← same) (unsealed, ground (arith, small));
  };
  grows = λ p k. k;
  keeps = λ p k. refl;
}

-- `organize_ledger` on a pending block that has grown.
organize_large :
    (l : TransactionLedger) (b : Block)
    → l.pages l.pending_block ≡ some b
    → b.is_sealed ≡ false
    → ltb (end_pos b) min_block_size ≡ false
    → organize_ledger l
      ≡ ok (
          generate_block (record l {
            pages = update l.pages l.pending_block (some (record b { is_sealed = true }));
          }))
unfolding organize_ledger seal
organize_large l b at unsealed large =
    rw (get_block-page l l.pending_block b at) (rw (large) (rw (unsealed, seal) refl))

-- The pages with a sealed block, and a new one behind them.
sealed_page :
    (l : TransactionLedger) (own : ℕ → Bool) (g : ℕ → List (List ℕ)) (b : Block) (e : List ℕ)
    (p : ℕ)
    → Sound l own g
    → Holds b (g l.pending_block ++ e ∷ [])
    → update own l.next_page true p ≡ true
    → (c : Block) × (update
          (update
            (update l.pages l.pending_block (some b))
            l.pending_block
            (some (record b { is_sealed = true })))
          l.next_page
          (some new_block)
          p
        ≡ some c)
      × Holds c (update (added g l.pending_block e) l.next_page [] p)
sealed_page l own g b e p sound holds known = elim (Bool-cases (p == l.next_page)) [
  | inl last ↦ rw (last) (new_block, refl, new_block-Holds)
  | inr before ↦ rw (before) (elim (Bool-cases (p == l.pending_block)) [
    | inl here ↦
        rw (here)
          (record b { is_sealed = true }, refl, sealed-Holds b (g l.pending_block ++ e ∷ []) holds)
    | inr away ↦ rw (away) (sound.page p (ground (arith, before, known)))
  ])
]

finish_large :
    (l : TransactionLedger) (own : ℕ → Bool) (g : ℕ → List (List ℕ)) (b : Block) (e : List ℕ)
    → Sound l own g
    → l.next_page < 2 ^ 32 - 1
    → b.is_sealed ≡ false
    → Holds b (g l.pending_block ++ e ∷ [])
    → ltb (end_pos b) min_block_size ≡ false
    → Inserts l own g e (finish_insert l b (length (g l.pending_block)))
unfolding finish_insert generate_block
finish_large l own g b e sound room unsealed holds large = record {
  after = generate_block (record l {
    pages =
        update (update l.pages l.pending_block (some b)) l.pending_block
          (some (record b { is_sealed = true }));
    num_pending_events = length (g l.pending_block);
  });
  own_after = update own l.next_page true;
  ghost = update (added g l.pending_block e) l.next_page [];
  done =
      let self : (l.pending_block == l.pending_block) ≡ true = ==_of_eq _ _ refl in
      rw (large) (
        rw
          (organize_large
            (record l {
              pages = update l.pages l.pending_block (some b);
              num_pending_events = length (g l.pending_block);
            })
            b (rw (self) refl) unsealed large)
          refl);
  sound = record {
    page = λ p k. sealed_page l own g b e p sound holds k;
    below = λ p k. elim (Bool-cases (p == l.next_page)) [
      | inl last ↦ (let e' : p ≡ l.next_page = ground arith in omega (arith, e', room))
      | inr before ↦
          (let old = sound.below p (ground (arith, before, k)) in omega (arith, old, room))
    ];
    pending =
        (let self : (l.next_page == l.next_page) ≡ true = ==_of_eq _ _ refl in rw (self) refl);
    open_block = λ c at.
        let self : (l.next_page == l.next_page) ≡ true = ==_of_eq _ _ refl in
        let same : new_block ≡ c = ground (arith, self, at) in
        rw (← same) (new_block_lem.0, omega (arith, new_block_lem.1));
  };
  grows = λ p k. elim (Bool-cases (p == l.next_page)) [
    | inl last ↦ rw (last) refl
    | inr before ↦ rw (before) k
  ];
  keeps = λ p k.
      (let low = sound.below p k in
        let before : (p == l.next_page) ≡ false = ground (arith, low) in rw (before) refl);
}

finish_insert_lem :
    (l : TransactionLedger) (own : ℕ → Bool) (g : ℕ → List (List ℕ)) (b : Block) (e : List ℕ)
    → Sound l own g
    → l.next_page < 2 ^ 32 - 1
    → b.is_sealed ≡ false
    → Holds b (g l.pending_block ++ e ∷ [])
    → Inserts l own g e (finish_insert l b (length (g l.pending_block)))
finish_insert_lem l own g b e sound room unsealed holds =
    elim (Bool-cases (ltb (end_pos b) min_block_size)) [
      | inl small ↦ finish_small l own g b e sound unsealed holds small
      | inr large ↦ finish_large l own g b e sound room unsealed holds large
    ]

-- The bytes of a transaction's record.
abbrev pub bytes_of : Codec → ℕ → ℕ → OpSet → List ℕ
bytes_of C origin identifier ops =
    C.encode origin identifier (write_ops ops.reads) (write_ops ops.writes)

pending_of :
    (l : TransactionLedger) (own : ℕ → Bool) (g : ℕ → List (List ℕ))
    → Sound l own g
    → (b : Block) × (get_pending_block l ≡ ok b)
      × (b.is_sealed ≡ false)
      × (end_pos b < min_block_size)
      × Holds b (g l.pending_block)
unfolding get_pending_block
pending_of l own g sound =
    let (b, page, holds) = sound.page l.pending_block sound.pending in
    let (unsealed, small) = sound.open_block b page in
    (
      b,
      rw (get_block-page l l.pending_block b page) (ground (arith, unsealed)),
      unsealed,
      small,
      holds,
    )

pub insert_lem :
    (C : Codec) (l : TransactionLedger) (own : ℕ → Bool) (g : ℕ → List (List ℕ))
    (origin identifier : ℕ) (ops : OpSet)
    → Sound l own g
    → l.next_page < 2 ^ 32 - 1
    → length (bytes_of C origin identifier ops) < 2 ^ 31
    → Inserts l own g (bytes_of C origin identifier ops) (insert C origin identifier ops l)
unfolding insert
insert_lem C l own g origin identifier ops sound room short =
    let e = bytes_of C origin identifier ops in
    let (b, found, unsealed, small, holds) = pending_of l own g sound in
    let (b', inserted, holds') =
      insert-Holds b (g l.pending_block) e holds unsealed
        (small-HasRoom b (g l.pending_block) e holds small short) in
    rw (found) (
      rw (inserted) (
        finish_insert_lem l own g b' e sound room
          (insert_unsealed b e b' (length (g l.pending_block)) unsealed inserted) holds'))
