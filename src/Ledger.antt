-- ===== src/Ledger.antt =====
-- src/enclave/Ledger.h, src/enclave/Ledger.inl, src/enclave/Ledger.cpp and src/enclave/Shard.cpp: the
-- shards of the ledger, each a sequence of blocks of which the last is pending, and the collections,
-- whose primary index refers to the last event of each object. The JSON documents, the programs that
-- are policies and the secondary indexes are parameters.
pub mod Write
pub mod Layout
pub mod Appends
pub mod Sealing
pub mod Latest
pub mod Steps
pub mod Versions
pub mod Storing
pub mod Entries
pub mod Specification
pub mod Branches
pub mod Refinement
pub mod Policies
pub mod RoundTrip
pub mod Start
pub mod Samples
mod Examples
pub mod Iterator
pub mod Operations
pub use credb.Prelude.Names.{Name, is_empty, equal_names}
use credb.Prelude.{
  ℕ, zero, suc, ◌+◌, ◌-◌, ◌%◌, ◌^◌, Bool, true, false, ◌&&◌, ◌||◌, not, Option, none, some, List,
  [], ◌∷◌, ◌++◌, ltb, leb, ◌==◌, if◌then◌else◌,
}
use credb.EventId.{EventId, invalid_block, invalid_event}
use credb.Block
use credb.Block.{Block, is_pending}
use credb.ObjectEvent.{
  Event, get_type, previous_block, previous_index, has_predecessor, value, type_new_version,
  type_deletion,
}

pub data Error : Type 0 where
  staleness_detected no_such_page malformed_event invalid_identity no_such_collection : Error
  unknown_op_type no_fuel : Error
  in_block : Block.Error → Error

pub data Result (A : Type 0) : Type 0 where
  ok : A → Result A
  err : Error → Result A

infixl 5 ◌>>=◌
abbrev pub ◌>>=◌ : {A B : Type 0} → Result A → (A → Result B) → Result B
ok a >>= f = f a
err e >>= f = err e

abbrev pub from_block : {A : Type 0} → Block.Result A → Result A
from_block (Block.ok a) = ok a
from_block (Block.err e) = err (in_block e)

-- A field that is missing or of another type.
abbrev pub field : {A : Type 0} → Option A → Result A
field (some a) = ok a
field none = err malformed_event

abbrev pub update_name : {A : Type 0} → (Name → A) → Name → A → Name → A
update_name f n a m = if equal_names m n then a else f m

-- `NUM_SHARDS` of the ledger.
abbrev pub num_shards : ℕ
num_shards = 64

-- The operation types on which the ledger branches, and that which a policy may ask for.
pub data OperationType : Type 0 where
  get_object put_object add_to_object remove_object call_program : OperationType

-- `OpContext`: `valid`, and `to_string`.
pub record OpContext : Type 0 where
  pub is_valid : Bool
  pub name : List ℕ

-- `OpContext(INVALID_IDENTITY)`.
abbrev pub empty_context : OpContext
empty_context = record { is_valid = false; name = [] }

-- `m_primary_index`, the finite map that a `HashMap` implements, and `m_secondary_indexes`.
pub record Collection (Index : Type 0) : Type 0 where
  pub primary_index : Name → Option EventId
  pub secondary_indexes : List Index

-- The ledger, and the blocks that its buffer manager holds, in memory or on disk: `m_pending_block_id`
-- of each shard, `m_collections`, `m_object_count` and `m_version_count`.
pub record Ledger (Index : Type 0) : Type 0 where
  pub pages : ℕ → Option Block
  pub next_page : ℕ
  pub pending : ℕ → ℕ
  pub collections : Name → Option (Collection Index)
  pub object_count : ℕ
  pub version_count : ℕ

-- What the ledger calls: `hash`; the array of an event as a document's bytes and back; of a document
-- `valid`, `add`, `insert` and the view at a path; and of a secondary index `compare`, `insert` and
-- `remove`. `run_policy` is the interpreter's answer, of a program that only reads.
pub record Calls (Doc Index : Type 0) : Type 0 where
  pub hash : List ℕ → ℕ
  pub encode : Event Doc → List ℕ
  pub decode : List ℕ → Option (Event Doc)
  pub valid : Doc → Bool
  pub add : Name → Doc → Doc → Doc
  pub insert : Name → Doc → Doc → Doc
  pub view : Doc → Name → Option Doc
  pub compare : Index → Doc → Doc → Bool
  pub index_insert : Doc → Name → Index → Index
  pub index_remove : Doc → Name → Index → Index
  pub run_policy : Ledger Index → Doc → OpContext → Name → Name → Name → OperationType → Bool

abbrev pub update : {A : Type 0} → (ℕ → A) → ℕ → A → ℕ → A
update f i a j = if j == i then a else f j

-- `"/"` and `"policy"`.
abbrev pub slash : Name
slash = 47 ∷ []

abbrev pub policy_name : Name
policy_name = 112 ∷ 111 ∷ 108 ∷ 105 ∷ 99 ∷ 121 ∷ []

-- `isalnum` of the C locale.
abbrev pub is_alnum : ℕ → Bool
is_alnum c = leb 48 c && leb c 57 || (leb 65 c && leb c 90) || (leb 97 c && leb c 122)

abbrev pub are_key_characters : Name → Bool
are_key_characters [] = true
are_key_characters (c ∷ cs) =
    if not (is_alnum c) && not (c == 95) then false else are_key_characters cs

-- `is_valid_key`.
unfoldable pub is_valid_key : Name → Bool
is_valid_key [] = false
is_valid_key (c ∷ cs) = are_key_characters (c ∷ cs)

module _ {Doc Index : Type 0} (C : Calls Doc Index) where
  -- `get_shard`; `shard_id_t` has 16 bits.
  unfoldable pub get_shard : Name → Name → ℕ
  get_shard collection key = C.hash (collection ++ slash ++ key) % 2 ^ 16 % num_shards

  -- `Shard::get_block` over a buffer that is not remote; a page that is not there stops the program.
  unfoldable pub get_block : Ledger Index → ℕ → ℕ → Result Block
  unfolding is_pending
  get_block l shard page_no = elim (l.pages page_no) [
    | none ↦ err no_such_page
    | some block ↦
        if page_no == l.pending shard
        then ok block
        else if ltb page_no (l.pending shard)
        then (if is_pending block then err staleness_detected else ok block)
        else ok block
  ]

  -- `get_pending_block`: without remote storage the lock is kept, and the first round returns.
  unfoldable pub get_pending_block : Ledger Index → ℕ → Result Block
  unfolding get_block
  get_pending_block l shard = get_block l shard (l.pending shard)

  -- `get_event`: a block, and its view at an index.
  unfoldable pub get_event : Ledger Index → EventId → Result (Option (Event Doc))
  unfolding get_block Block.get
  get_event l eid = get_block l eid.shard eid.block >>= λ block.
      from_block (Block.get block eid.index) >>= λ bytes. ok (C.decode bytes)

  -- `get_latest_event`; `none` is the invalid handle.
  unfoldable pub get_latest_event :
      Ledger Index → Name → Name → Result (EventId × Option (Event Doc))
  unfolding get_event
  get_latest_event l collection key =
      if is_empty key then ok (invalid_event, none) else (elim (l.collections collection) [
        | none ↦ ok (invalid_event, none)
        | some col ↦ elim (col.primary_index key) [
          | none ↦ ok (invalid_event, none)
          | some eid ↦ get_event l eid >>= λ e. ok (eid, e)
        ]
      ])

  -- The id of the event before.
  unfoldable pub previous_id : ℕ → Event Doc → Result EventId
  previous_id shard e = field (previous_block e) >>= λ b.
      field (previous_index e) >>= λ i. ok (record { shard = shard; index = i; block = b })

  -- `get_previous_event`.
  unfoldable pub get_previous_event : Ledger Index → ℕ → Event Doc → Result (Option (Event Doc))
  unfolding get_event previous_id
  get_previous_event l shard current = field (has_predecessor current) >>= λ has.
      if has then (previous_id shard current >>= λ eid. get_event l eid) else ok none

  -- `get_previous_version`: the loop over the events that are neither versions nor deletions.
  unfoldable pub get_previous_version :
      ℕ → Ledger Index → ℕ → Option (Event Doc) → Result (Option (Event Doc))
  get_previous_version zero l shard event = err no_fuel
  get_previous_version (suc fuel) l shard none = ok none
  get_previous_version (suc fuel) l shard (some e) = field (get_type e) >>= λ type.
      if type == type_new_version
      then ok (some e)
      else if type == type_deletion
      then ok none
      else (field (has_predecessor e) >>= λ has.
          if not has
          then ok none
          else (previous_id shard e >>= λ eid.
              get_event l eid >>= λ e'. get_previous_version fuel l shard e'))

  -- The loop of `get_latest_version`.
  unfoldable pub latest_loop :
      ℕ → Ledger Index → EventId → Option (Event Doc) → Result (EventId × Option (Event Doc))
  latest_loop zero l eid event = err no_fuel
  latest_loop (suc fuel) l eid none = ok (eid, none)
  latest_loop (suc fuel) l eid (some e) = field (get_type e) >>= λ type.
      if type == type_new_version
      then ok (eid, some e)
      else if type == type_deletion
      then ok (invalid_event, none)
      else (previous_id eid.shard e >>= λ eid'.
          get_event l eid' >>= λ e'. latest_loop fuel l eid' e')

  -- `get_policy`; `none` is the empty document.
  unfoldable pub get_policy : Event Doc → Result (Option Doc)
  get_policy e = field (value e) >>= λ doc. ok (C.view doc policy_name)

  -- `check_object_policy`.
  unfoldable pub check_object_policy :
      Ledger Index → Doc → OpContext → Name → Name → Name → OperationType → Bool
  check_object_policy l policy context collection key path type =
      if context.is_valid then C.run_policy l policy context collection key path type else true

  -- A policy that is not there, or agrees.
  unfoldable pub is_permitted :
      Ledger Index → Option Doc → OpContext → Name → Name → Name → OperationType → Bool
  unfolding check_object_policy
  is_permitted l none context collection key path type = true
  is_permitted l (some policy) context collection key path type =
      check_object_policy l policy context collection key path type

  -- `get_latest_version`.
  unfoldable pub get_latest_version :
      ℕ
      → Ledger Index
      → OpContext
      → Name
      → Name
      → Name
      → OperationType
      → Result (EventId × Option (Event Doc))
  unfolding get_latest_event latest_loop get_policy is_permitted
  get_latest_version fuel l context collection key path type =
      get_latest_event l collection key >>= λ latest.
      latest_loop fuel l latest.0 latest.1 >>= λ found. elim found.1 [
        | none ↦ ok (found.0, none)
        | some e ↦ get_policy e >>= λ policy.
            if is_permitted l policy context collection key path type
            then ok (found.0, some e)
            else ok (found.0, none)
      ]

  -- `has_object`.
  unfoldable pub has_object : Ledger Index → Name → Name → Result Bool
  unfolding get_event
  has_object l collection key = elim (l.collections collection) [
    | none ↦ ok false
    | some col ↦ elim (col.primary_index key) [
      | none ↦ ok false
      | some eid ↦ get_event l eid >>= λ event. elim event [
        | none ↦ err malformed_event
        | some e ↦ field (get_type e) >>= λ type. ok (type == type_new_version)
      ]
    ]
  ]
