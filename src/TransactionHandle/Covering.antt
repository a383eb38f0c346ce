-- ===== src/TransactionHandle/Covering.antt =====
-- `get_boundaries` of src/enclave/TransactionHandle.cpp covers what the transaction did, and no more.
use credb.Prelude.{
  ℕ, ◌≡◌, inl, inr, ◌==◌, if◌then◌else◌, none, some, List, [], ◌∷◌, arith, lookup, lookup-insert,
  Option-cases, All, All-mono, Bool-cases, ap,
}
use credb.EventId.{EventId, EventRange, TransactionBounds, before_range, after_range}
use credb.EventId.Ranges.{IsRange, Covers}
use credb.TransactionHandle.{OpSet, single_range, widen, parse_op, parse_ops, get_boundaries}

-- The bounds hold a range of the event's shard that covers it.
abbrev pub IsCovered : TransactionBounds → EventId → Type 0
IsCovered bounds id = (r : EventRange) × (lookup id.shard bounds ≡ some r) × Covers r id

-- Every range starts no later than it ends.
abbrev pub AreRanges : TransactionBounds → Type 0
AreRanges bounds = (s : ℕ) (r : EventRange) → lookup s bounds ≡ some r → IsRange r

widen_lem :
    (id : EventId) (e : EventRange) → IsRange e → IsRange (widen id e) × Covers (widen id e) id
unfolding widen before_range after_range
widen_lem id e v = (ground arith, (ground arith, ground arith))

widen-Covers : (id x : EventId) (e : EventRange) → IsRange e → Covers e x → Covers (widen id e) x
unfolding widen before_range after_range
widen-Covers id x e v c = ground arith

single_range_lem : (id : EventId) → IsRange (single_range id) × Covers (single_range id) id
unfolding single_range before_range after_range
single_range_lem id = (ground arith, (ground arith, ground arith))

-- The entry that `parse_op` writes.
new_range : TransactionBounds → EventId → EventRange
new_range b id = elim (lookup id.shard b) [ none ↦ single_range id | some e ↦ widen id e ]

lookup-parse_op :
    (b : TransactionBounds) (id : EventId) (s : ℕ)
    → lookup s (parse_op b id) ≡ (if id.shard == s then some (new_range b id) else lookup s b)
unfolding parse_op new_range
lookup-parse_op b id s = elim (Option-cases (lookup id.shard b)) [
  | inl e ↦ rw (e, parse_op, new_range) (lookup-insert id.shard s (single_range id) b)
  | inr (r, e) ↦ rw (e, parse_op, new_range) (lookup-insert id.shard s (widen id r) b)
]

new_range_lem :
    (b : TransactionBounds) (id : EventId)
    → AreRanges b
    → IsRange (new_range b id) × Covers (new_range b id) id
unfolding new_range
new_range_lem b id v = elim (Option-cases (lookup id.shard b)) [
  | inl e ↦ rw (e, new_range) (single_range_lem id)
  | inr (r, e) ↦ rw (e, new_range) (widen_lem id r (v id.shard r e))
]

parse_op-AreRanges :
    (b : TransactionBounds) (id : EventId) → AreRanges b → AreRanges (parse_op b id)
parse_op-AreRanges b id v s r h =
    ground (arith, lookup-parse_op b id s, new_range_lem b id v, v s r)

parse_op-IsCovered_self :
    (b : TransactionBounds) (id : EventId) → AreRanges b → IsCovered (parse_op b id) id
parse_op-IsCovered_self b id v =
    (new_range b id, ground (arith, lookup-parse_op b id id.shard), (new_range_lem b id v).1)

parse_op-IsCovered :
    (b : TransactionBounds) (id x : EventId)
    → AreRanges b
    → IsCovered b x
    → IsCovered (parse_op b id) x
unfolding new_range
parse_op-IsCovered b id x v (r, h, c) = elim (Bool-cases (id.shard == x.shard)) [
  | inl e ↦ (
    widen id r,
    rw (lookup-parse_op b id x.shard, e) (ap some (new_range_hit (ground arith))),
    widen-Covers id x r (v x.shard r h) c,
  )
  | inr n ↦ (r, rw (lookup-parse_op b id x.shard, n) h, c)
]
  where
    new_range_hit : lookup id.shard b ≡ some r → new_range b id ≡ widen id r
    new_range_hit e = rw (e, new_range)

parse_ops-IsCovered :
    (b : TransactionBounds) (ops : List EventId) (x : EventId)
    → AreRanges b
    → IsCovered b x
    → IsCovered (parse_ops b ops) x
unfolding parse_ops
parse_ops-IsCovered b [] x v c = c
parse_ops-IsCovered b (op ∷ ops) x v c =
    parse_ops-IsCovered (parse_op b op) ops x (parse_op-AreRanges b op v)
      (parse_op-IsCovered b op x v c)

-- What holds after a loop, of the operations before it and of its own.
parse_ops_lem :
    (b : TransactionBounds) (ops : List EventId)
    → AreRanges b
    → AreRanges (parse_ops b ops) × All (IsCovered (parse_ops b ops)) ops
unfolding parse_ops
parse_ops_lem b [] v = (v, tt)
parse_ops_lem b (op ∷ ops) v =
    let w = parse_op-AreRanges b op v in
    let (u, c) = parse_ops_lem (parse_op b op) ops w in
    (u, (parse_ops-IsCovered (parse_op b op) ops op w (parse_op-IsCovered_self b op v), c))

-- Every event that the transaction read or wrote is covered by the range of its shard, and no range
-- starts after its end.
pub get_boundaries-IsCovered :
    (ops : OpSet)
    → All (IsCovered (get_boundaries ops)) ops.reads
      × All (IsCovered (get_boundaries ops)) ops.writes
      × AreRanges (get_boundaries ops)
unfolding get_boundaries
get_boundaries-IsCovered ops =
    let (v, c) = parse_ops_lem [] ops.reads (λ s r h. cc) in
    let (w, d) = parse_ops_lem (parse_ops [] ops.reads) ops.writes v in
    (All-mono ops.reads (λ x. parse_ops-IsCovered (parse_ops [] ops.reads) ops.writes x v) c, d, w)
