-- ===== src/EventId.antt =====
-- include/credb/event_id.h: identifiers of events on a ledger, intervals of events, and their order.
pub mod Order
pub mod Ranges
pub mod Sets
use credb.Prelude.{
  ℕ, ◌≡◌, Bool, true, false, ◌&&◌, ◌||◌, not, Option, none, some, List, [], ◌∷◌, ltb, ◌==◌,
  if◌then◌else◌, lookup,
}

-- `event_id_t`: the shard, the index inside the block, and the block.
pub record EventId : Type 0 where
  pub shard : ℕ
  pub index : ℕ
  pub block : ℕ

-- `event_range_t`.
pub record EventRange : Type 0 where
  pub start_block : ℕ
  pub end_block : ℕ
  pub start_index : ℕ
  pub end_index : ℕ

pub data OrderResult : Type 0 where
  unknown equal older_than newer_than concurrent : OrderResult

-- `INVALID_BLOCK`, `INITIAL_BLOCK`.
abbrev pub invalid_block : ℕ
invalid_block = 0

abbrev pub initial_block : ℕ
initial_block = 1

-- `INVALID_EVENT`.
abbrev pub invalid_event : EventId
invalid_event = record { shard = 0; index = 0; block = 0 }

-- `is_valid`, also the conversion to `bool`.
unfoldable pub is_valid : EventId → Bool
is_valid e = not (e.block == invalid_block)

-- `operator==`, a comparison of the packed bytes.
unfoldable pub event_eq : EventId → EventId → Bool
event_eq lhs rhs = lhs.shard == rhs.shard && lhs.index == rhs.index && lhs.block == rhs.block

-- `order(event_id_t, event_id_t)`.
unfoldable pub order : EventId → EventId → OrderResult
unfolding event_eq
order first second =
    if first.shard == second.shard
    then (if ltb first.block second.block
        then older_than
        else if first.block == second.block && ltb first.index second.index
        then older_than
        else if event_eq first second
        then equal
        else newer_than)
    else unknown

abbrev pub is_older_than : OrderResult → Bool
is_older_than older_than = true
is_older_than _ = false

-- `operator<(event_id_t, event_id_t)`, by which `std::set<event_id_t>` is sorted.
unfoldable pub lt : EventId → EventId → Bool
unfolding order
lt first second = is_older_than (order first second)

-- `operator<(event_id_t, event_range_t)`: strictly before the range.
unfoldable pub before_range : EventId → EventRange → Bool
before_range e range =
    if ltb e.block range.start_block
    then true
    else if e.block == range.start_block
    then ltb e.index range.start_index
    else false

-- `operator>(event_id_t, event_range_t)`: strictly after the range.
unfoldable pub after_range : EventId → EventRange → Bool
after_range e range =
    if ltb range.end_block e.block
    then true
    else if e.block == range.end_block
    then ltb range.end_index e.index
    else false

-- `order(event_range_t, event_range_t)`.
unfoldable pub order_ranges : EventRange → EventRange → OrderResult
order_ranges first second =
    if ltb first.end_block second.start_block
      || (first.end_block == second.start_block && ltb first.end_index second.start_index)
    then older_than
    else if ltb second.end_block first.start_block
        || (first.end_block == second.start_block && ltb second.end_index first.start_index)
    then newer_than
    else concurrent

-- `transaction_bounds_t`, a `std::map` from shards to ranges.
abbrev pub TransactionBounds : Type 0
TransactionBounds = List (ℕ × EventRange)

-- `order(transaction_bounds_t, transaction_bounds_t)`: the loop over the entries of `first`.
unfoldable pub order_bounds : TransactionBounds → TransactionBounds → OrderResult
unfolding order_ranges
order_bounds [] second = unknown
order_bounds ((shard, range1) ∷ first) second =
    let rest = order_bounds first second in
    elim (lookup shard second) [ none ↦ rest | some range2 ↦ order_ranges range1 range2 ]
