-- ===== src/EventId/Ranges.antt =====
-- Intervals of events: the comparisons with an `event_range_t` of include/credb/event_id.h.
use credb.Prelude.{ℕ, ◌≡◌, ◌≢◌, ◌↔◌, ◌⊎◌, ◌<◌, ◌≤◌, true, false, arith}
use credb.EventId.{
  EventId, EventRange, older_than, newer_than, concurrent, before_range, after_range, order_ranges,
}

-- Lexicographic order of places, a block and an index.
abbrev pub PlaceLt : ℕ → ℕ → ℕ → ℕ → Type 0
PlaceLt b i c j = (b < c) ⊎ ((b ≡ c) × (i < j))

-- A range whose start is not after its end.
abbrev pub IsRange : EventRange → Type 0
IsRange r =
    (r.start_block < r.end_block) ⊎ ((r.start_block ≡ r.end_block) × (r.start_index ≤ r.end_index))

-- The event lies inside the range.
abbrev pub Covers : EventRange → EventId → Type 0
Covers r e = (before_range e r ≡ false) × (after_range e r ≡ false)

-- An event covered by the first of two ranges that `order` calls older lies before the second.
pub older_range_separates :
    (r s : EventRange) (e : EventId)
    → order_ranges r s ≡ older_than
    → Covers r e
    → before_range e s ≡ true
unfolding order_ranges before_range after_range
older_range_separates r s e h c = ground arith

-- `order` answers `OlderThan` exactly when the first range ends before the second starts.
pub order_ranges-older_iff :
    (r s : EventRange)
    → (order_ranges r s ≡ older_than) ↔ PlaceLt r.end_block r.end_index s.start_block s.start_index
unfolding order_ranges
order_ranges-older_iff r s = (ground arith, ground arith)

-- Take two ranges of which the first starts after the second ends, in the block where that one
-- ends, but does not itself end in the block where that one starts. `order` calls them concurrent;
-- asked the other way round, it says `OlderThan`.
pub order_ranges-misses_newer :
    (r s : EventRange)
    → IsRange r
    → IsRange s
    → r.start_block ≡ s.end_block
    → s.end_index < r.start_index
    → r.end_block ≢ s.start_block
    → (order_ranges r s ≡ concurrent) × (order_ranges s r ≡ older_than)
unfolding order_ranges
order_ranges-misses_newer r s v w e h n = (ground arith, ground arith)

-- A range that starts in an earlier block than the other, and ends in the block where that one
-- starts, overlapping it there, is called newer if its start index exceeds the other's end index.
pub order_ranges-false_newer :
    (r s : EventRange)
    → r.start_block < r.end_block
    → r.end_block ≡ s.start_block
    → s.start_index ≤ r.end_index
    → s.end_index < r.start_index
    → order_ranges r s ≡ newer_than
unfolding order_ranges
order_ranges-false_newer r s h e o x = ground arith
