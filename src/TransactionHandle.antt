-- ===== src/TransactionHandle.antt =====
-- src/enclave/TransactionHandle.h and .cpp: the record of a committed transaction, read back.
pub mod Covering
pub mod RoundTrip
mod Examples
use credb.Prelude.{
  ℕ, ◌+◌, ◌%◌, ◌^◌, Option, none, some, List, [], ◌∷◌, ◌++◌, if◌then◌else◌, lookup, insert,
}
use credb.EventId.{
  EventId, EventRange, OrderResult, TransactionBounds, before_range, after_range, order_bounds,
}
use credb.EventId.Sets.{set_insert, insert_all}

-- `op_set_t`: the events read and written, each a set listed in its order.
pub record OpSet : Type 0 where
  pub reads : List EventId
  pub writes : List EventId

-- The range of one event, as `parse_op` starts it.
unfoldable pub single_range : EventId → EventRange
single_range id = record {
  start_block = id.block;
  end_block = id.block;
  start_index = id.index;
  end_index = id.index;
}

-- The else branch of `parse_op`: the range `e` grows to reach the event.
unfoldable pub widen : EventId → EventRange → EventRange
widen id e =
    if before_range id e
    then record e { start_block = id.block; start_index = id.index }
    else if after_range id e
    then record e { end_block = id.block; end_index = id.index }
    else e

-- The lambda `parse_op` of `get_boundaries`.
unfoldable pub parse_op : TransactionBounds → EventId → TransactionBounds
unfolding single_range widen
parse_op result id = elim (lookup id.shard result) [
  | none ↦ insert id.shard (single_range id) result
  | some e ↦ insert id.shard (widen id e) result
]

-- A loop over the operations of one set.
unfoldable pub parse_ops : TransactionBounds → List EventId → TransactionBounds
unfolding parse_op
parse_ops result [] = result
parse_ops result (op ∷ ops) = parse_ops (parse_op result op) ops

-- `get_boundaries`, from the local operations.
unfoldable pub get_boundaries : OpSet → TransactionBounds
unfolding parse_ops
get_boundaries ops = parse_ops (parse_ops [] ops.reads) ops.writes

-- `order(TransactionHandle, TransactionHandle)`.
unfoldable pub order_handles : OpSet → OpSet → OrderResult
unfolding get_boundaries order_bounds
order_handles first second = order_bounds (get_boundaries first) (get_boundaries second)

-- The integers that `write_op_set` of src/enclave/TransactionLedger.cpp writes for one set.
unfoldable pub write_ops : List EventId → List ℕ
write_ops [] = []
write_ops (e ∷ es) = e.shard ∷ e.block ∷ e.index ∷ write_ops es

-- `shard_id_t` and `block_index_t` have 16 bits, `block_id_t` has 32.
abbrev pub cut_event : ℕ → ℕ → ℕ → EventId
cut_event shard block index = record {
  shard = shard % 2 ^ 16;
  index = index % 2 ^ 16;
  block = block % 2 ^ 32;
}

-- `read_ops`: shards and indices are cut to 16 bits, blocks to 32; a length that is no multiple of
-- three is refused.
unfoldable pub read_ops_into : List EventId → List ℕ → Option (List EventId)
unfolding set_insert
read_ops_into result [] = some result
read_ops_into result (shard ∷ []) = none
read_ops_into result (shard ∷ block ∷ []) = none
read_ops_into result (shard ∷ block ∷ index ∷ rest) =
    read_ops_into (set_insert (cut_event shard block index) result) rest

unfoldable pub read_ops : List ℕ → Option (List EventId)
unfolding read_ops_into
read_ops doc = read_ops_into [] doc
