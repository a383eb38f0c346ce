-- ===== src/Ledger/Layout.antt =====
-- Which events the blocks of a ledger hold, and what history of an object they stand for: the invariant
-- of src/enclave/Ledger.cpp and src/enclave/Shard.cpp.
use credb.Prelude.{
  ℕ, suc, ◌^◌, ◌≡◌, ◌<◌, ◌≤◌, not, Option, none, some, List, [], ◌∷◌, map, length, get_elem?, ◌==◌,
}
use credb.EventId.{EventId, invalid_block}
use credb.Block.{Block, end_pos}
use credb.Block.Layout.{Holds}
use credb.ObjectEvent.{Event, LedgerPos, new_version, tombstone}
use credb.Ledger.{Ledger, Collection, Calls, Name, num_shards, get_shard}
use credb.Ledger.Write.{min_block_size}

-- An event is read back from its bytes.
pub record IsCodec {Doc Index : Type 0} (C : Calls Doc Index) : Type 0 where
  pub decode-encode : (e : Event Doc) → C.decode (C.encode e) ≡ some e

-- For each page the events written to it, and the shard whose block it is.
pub record Ghost (Doc : Type 0) : Type 0 where
  pub events : ℕ → List (Event Doc)
  pub owner : ℕ → Option ℕ

-- What happened to an object: its value was set, or it was removed.
pub data Entry (Doc : Type 0) : Type 0 where
  version : List ℕ → Doc → ℕ → Entry Doc
  deleted : List ℕ → Entry Doc

-- The abstract view of a ledger: the history of each object of each collection, the newest entry
-- first.
abbrev pub History : Type 0 → Type 0
History Doc = Name → Name → List (Entry Doc)

module _ {Index : Type 0} where
  abbrev pub primary_of : Option (Collection Index) → Name → Option EventId
  primary_of none key = none
  primary_of (some col) key = col.primary_index key

  -- The last event of an object, by the primary index of its collection.
  unfoldable pub last_event : Ledger Index → Name → Name → Option EventId
  last_event l collection key = primary_of (l.collections collection) key

module _ {Doc : Type 0} where
  -- The array that is written for an entry.
  abbrev pub entry_event : Entry Doc → ℕ → ℕ → LedgerPos → Event Doc
  entry_event (version source doc number) block index ref =
      new_version source block index doc number ref
  entry_event (deleted source) block index ref = tombstone source block index ref

  -- The block and the index of the first entry, and from there on the references to predecessors.
  abbrev pub Stored : Ghost Doc → ℕ → ℕ → ℕ → List (Entry Doc) → Type 0
  Stored g shard block index [] = block ≡ invalid_block
  Stored g shard block index (entry ∷ entries) =
      (g.owner block ≡ some shard)
      × (index < 2 ^ 16)
      × ((b : ℕ) × (i : ℕ) × (ref : LedgerPos) × (get_elem? (g.events block) index
            ≡ some (entry_event entry b i ref))
          × (b < 2 ^ 32)
          × (i < 2 ^ 16)
          × Stored g shard b i entries)

  abbrev pub Chained : Ghost Doc → ℕ → Option EventId → List (Entry Doc) → Type 0
  Chained g shard none entries = entries ≡ []
  Chained g shard (some id) entries =
      (id.shard ≡ shard) × (0 < length entries) × Stored g shard id.block id.index entries

  -- Versions are numbered from 1 on, the oldest first; only the newest entry may be a removal.
  abbrev pub AreVersions : List (Entry Doc) → Type 0
  AreVersions [] = Unit
  AreVersions (version source doc number ∷ entries) =
      (number ≡ suc (length entries)) × AreVersions entries
  AreVersions (deleted source ∷ entries) = ⊥

  abbrev pub IsHistory : List (Entry Doc) → Type 0
  IsHistory (deleted source ∷ entries) = (0 < length entries) × AreVersions entries
  IsHistory entries = AreVersions entries

module _ {Doc Index : Type 0} (C : Calls Doc Index) where
  -- Every block of a shard holds its events, is sealed unless it is the pending one, and has no greater
  -- number than that.
  pub record Sound (l : Ledger Index) (g : Ghost Doc) : Type 0 where
    pub page :
        (p s : ℕ)
        → g.owner p ≡ some s
        → (b : Block) × (l.pages p ≡ some b)
          × Holds b (map C.encode (g.events p))
          × (b.is_sealed ≡ not (p == l.pending s))
    pub positive : (p s : ℕ) → g.owner p ≡ some s → 0 < p
    pub below : (p s : ℕ) → g.owner p ≡ some s → p ≤ l.pending s
    pub fresh : (p s : ℕ) → g.owner p ≡ some s → p < l.next_page
    pub pending : (s : ℕ) → s < num_shards → g.owner (l.pending s) ≡ some s

  -- The bytes of an entry are far from filling a block.
  abbrev pub IsShort : Entry Doc → Type 0
  IsShort entry =
      (b i : ℕ) (ref : LedgerPos) → length (C.encode (entry_event entry b i ref)) < 2 ^ 31

  -- The pending blocks are below the size at which they are sealed.
  abbrev pub AreSmall : Ledger Index → Type 0
  AreSmall l =
      (s : ℕ) (b : Block)
      → s < num_shards
      → l.pages (l.pending s) ≡ some b
      → end_pos b < min_block_size

  -- The ledger stands for the history.
  pub record Represents (l : Ledger Index) (h : History Doc) : Type 0 where
    pub ghost : Ghost Doc
    pub sound : Sound l ghost
    pub chained : (c k : Name) → Chained ghost (get_shard C c k) (last_event l c k) (h c k)
    pub histories : (c k : Name) → IsHistory (h c k)
    pub lengths : (c k : Name) → length (h c k) < 2 ^ 32
    pub bounded : l.next_page < 2 ^ 32
