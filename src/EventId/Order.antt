-- ===== src/EventId/Order.antt =====
-- The order of single events: `order` and `operator<` of include/credb/event_id.h.
use credb.Prelude.{◌≡◌, ◌≢◌, ◌↔◌, ◌⊎◌, ◌<◌, true, false, arith}
use credb.EventId.{EventId, OrderResult, unknown, equal, older_than, newer_than, order, lt}

-- The place on one shard: blocks first, then the index inside the block.
abbrev pub IsBefore : EventId → EventId → Type 0
IsBefore a b = (a.block < b.block) ⊎ ((a.block ≡ b.block) × (a.index < b.index))

abbrev pub flip : OrderResult → OrderResult
flip older_than = newer_than
flip newer_than = older_than
flip r = r

-- The answer of `order` to each pair of events: which of the four it is, by shard, block and index.
order_characterization :
    (a b : EventId)
    → ((order a b ≡ older_than) ↔ ((a.shard ≡ b.shard) × IsBefore a b))
      × ((order a b ≡ newer_than) ↔ ((a.shard ≡ b.shard) × IsBefore b a))
      × ((order a b ≡ equal) ↔ (a ≡ b))
      × ((order a b ≡ unknown) ↔ (a.shard ≢ b.shard))
unfolding order
order_characterization a b = (
  (ground arith, ground arith),
  (ground arith, ground arith),
  (ground arith, ground arith),
  (ground arith, ground arith),
)

-- Asking in the other direction flips the answer.
pub order-flip : (a b : EventId) → order b a ≡ flip (order a b)
unfolding order
order-flip a b = ground arith

-- `operator<` is transitive and asymmetric.
pub lt_trans :
    (a b c : EventId)
    → lt a b ≡ true
    → lt b c ≡ true
    → (lt a c ≡ true) × (lt c a ≡ false) × (lt b a ≡ false)
unfolding lt
lt_trans a b c h k = (ground arith, ground arith, ground arith)

-- Take two events of which one is older by `operator<`, and an event of another shard: neither of
-- the two is ordered against that one, either way, so `operator<` is no strict weak order.
pub lt_not_weak :
    (a b c : EventId)
    → lt a b ≡ true
    → c.shard ≢ a.shard
    → (lt a c ≡ false) × (lt c a ≡ false) × (lt c b ≡ false) × (lt b c ≡ false)
unfolding lt
lt_not_weak a b c h n = (ground arith, ground arith, ground arith, ground arith)
