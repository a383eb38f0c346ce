-- ===== src/TransactionLedger.antt =====
-- src/enclave/TransactionLedger.h and src/enclave/TransactionLedger.cpp, with `local_ops` of
-- src/enclave/TransactionHandle.h: the records of the committed transactions, in blocks of which the
-- last is pending. How a record becomes a JSON document and its bytes is a parameter. The pages are
-- those of the buffer manager, whose counter of page numbers has 32 bits; other components take numbers
-- from it too, and keep their pages elsewhere.
pub mod Inserts
pub mod Records
mod Examples
use credb.Prelude.{
  ℕ, suc, ◌+◌, ◌%◌, ◌^◌, Bool, true, false, Option, none, some, List, [], ltb, ◌==◌, if◌then◌else◌,
}
use credb.Block
use credb.Block.{Block, new_block, is_pending, end_pos, seal}
use credb.ObjectEvent.{LedgerPos}
use credb.TransactionHandle.{OpSet, write_ops, read_ops}
use credb.Ledger.Write.{min_block_size}

-- A page that is not there, a wait for a pending block that never comes, an operation that the block
-- refuses, a record that is malformed.
pub data Error : Type 0 where
  no_such_page never_returns refused malformed : Error

pub data Result {ℓ} (A : Type ℓ) : Type ℓ where
  ok : A → Result A
  err : Error → Result A

infixl 5 ◌>>=◌
abbrev pub ◌>>=◌ {ℓ κ} : {A : Type ℓ} {B : Type κ} → Result A → (A → Result B) → Result B
ok a >>= f = f a
err e >>= f = err e

abbrev pub from_block : {A : Type 0} → Block.Result A → Result A
from_block (Block.ok a) = ok a
from_block (Block.err e) = err refused

-- The JSON document of a record, as bytes, and the two lists of integers of its local operations.
pub record Codec : Type 0 where
  pub encode : ℕ → ℕ → List ℕ → List ℕ → List ℕ
  pub decode : List ℕ → Option (List ℕ × List ℕ)

-- `TransactionLedger`, with the pages that hold its blocks and `m_next_page_no` of the buffer manager.
pub record TransactionLedger : Type 0 where
  pub pages : ℕ → Option Block
  pub next_page : ℕ
  pub pending_block : ℕ
  pub num_pending_events : ℕ

abbrev pub update : {A : Type 0} → (ℕ → A) → ℕ → A → ℕ → A
update f i a j = if j == i then a else f j

-- `generate_block`.
unfoldable pub generate_block : TransactionLedger → TransactionLedger
generate_block l = record l {
  pages = update l.pages l.next_page (some new_block);
  next_page = (l.next_page + 1) % 2 ^ 32;
  pending_block = l.next_page;
}

-- The constructor, over a buffer manager whose next page number is given.
unfoldable pub new_ledger : ℕ → TransactionLedger
unfolding generate_block
new_ledger first =
    generate_block (record {
      pages = λ p. none;
      next_page = first;
      pending_block = first;
      num_pending_events = 0;
    })

-- `get_block`.
unfoldable pub get_block : TransactionLedger → ℕ → Result Block
get_block l p = elim (l.pages p) [ none ↦ err no_such_page | some b ↦ ok b ]

-- `get_pending_block`: the loop ends in its first round, or never.
unfoldable pub get_pending_block : TransactionLedger → Result Block
unfolding get_block is_pending
get_pending_block l =
    get_block l l.pending_block >>= λ b. if is_pending b then ok b else err never_returns

-- `organize_ledger`.
unfoldable pub organize_ledger : TransactionLedger → Result TransactionLedger
unfolding get_block generate_block
organize_ledger l = get_block l l.pending_block >>= λ pending.
    if ltb (end_pos pending) min_block_size
    then ok l
    else (from_block (seal pending) >>= λ sealed.
        ok (generate_block (record l { pages = update l.pages l.pending_block (some sealed) })))

-- The part of `insert` after the block: the position, and the block of another size.
unfoldable pub finish_insert :
    TransactionLedger → Block → ℕ → Result (TransactionLedger × LedgerPos)
unfolding organize_ledger
finish_insert l b idx =
    let l' : TransactionLedger = record l {
      pages = update l.pages l.pending_block (some b);
      num_pending_events = idx;
    } in
    let pos : LedgerPos = record { block = l.pending_block; index = idx } in
    if ltb (end_pos b) min_block_size
    then ok (l', pos)
    else (organize_ledger l' >>= λ l''. ok (l'', pos))

module _ (C : Codec) where
  -- `insert`, of a transaction without remote operations.
  unfoldable pub insert : ℕ → ℕ → OpSet → TransactionLedger → Result (TransactionLedger × LedgerPos)
  unfolding get_pending_block finish_insert write_ops
  insert origin identifier ops l = get_pending_block l >>= λ b.
      from_block
        (Block.insert b (C.encode origin identifier (write_ops ops.reads) (write_ops ops.writes)))
      >>= λ r. finish_insert l r.0 r.1

  -- `get`.
  unfoldable pub get : TransactionLedger → LedgerPos → Result (List ℕ)
  unfolding get_block
  get l pos = get_block l pos.block >>= λ b. from_block (Block.get b pos.index)

  -- `local_ops`.
  unfoldable pub local_ops : List ℕ → Result OpSet
  unfolding read_ops
  local_ops bytes = elim (C.decode bytes) [
    | none ↦ err malformed
    | some (reads, writes) ↦ elim (read_ops reads) [
      | none ↦ err malformed
      | some rs ↦ elim (read_ops writes) [
        | none ↦ err malformed
        | some ws ↦ ok (record { reads = rs; writes = ws })
      ]
    ]
  ]
