-- ===== src/Ledger/Write.antt =====
-- The writes of src/enclave/Ledger.cpp and src/enclave/Ledger.inl: the next version of an object, its
-- tombstone, `apply_write` with the calls that lead to it, and `organize_ledger`. Where the source
-- throws, the result is the error alone.
use credb.Prelude.{
  ℕ, zero, suc, ◌+◌, ◌-◌, ◌%◌, ◌^◌, Bool, true, false, ◌||◌, not, Option, none, some, List, [], ◌∷◌,
  map, ltb, ◌==◌, if◌then◌else◌,
}
use credb.EventId.{EventId, invalid_event}
use credb.Block
use credb.Block.{Block, new_block, end_pos, seal}
use credb.ObjectEvent.{
  Event, LedgerPos, value, version_number, new_version, tombstone, initial_version_no,
}
use credb.Ledger.{
  Error, invalid_identity, no_such_collection, unknown_op_type, Result, ok, err, ◌>>=◌, from_block,
  field, Name, is_empty, update_name, OperationType, put_object, add_to_object, remove_object,
  OpContext, Collection, Ledger, Calls, update, get_shard, get_pending_block, get_latest_event,
  get_previous_version, get_policy, is_permitted,
}

-- `MIN_BLOCK_SIZE`.
abbrev pub min_block_size : ℕ
min_block_size = 5120

abbrev pub is_remove : OperationType → Bool
is_remove remove_object = true
is_remove _ = false

module _ {Doc Index : Type 0} (C : Calls Doc Index) where
  abbrev pub new_collection : Collection Index
  new_collection = record { primary_index = λ k. none; secondary_indexes = [] }

  -- `get_collection` with `create`.
  unfoldable pub collection_of : Ledger Index → Name → Collection Index
  collection_of l name = elim (l.collections name) [ none ↦ new_collection | some col ↦ col ]

  abbrev pub set_collection : Ledger Index → Name → Collection Index → Ledger Index
  set_collection l name col = record l { collections = update_name l.collections name (some col) }

  -- `primary_index().insert` of a collection.
  unfoldable pub index_event : Name → EventId → Collection Index → Collection Index
  index_event key eid col = record col {
    primary_index = update_name col.primary_index key (some eid);
  }

  -- The end of `put_next_version` and `put_tombstone`: an event is appended to the pending block.
  unfoldable pub append_pending : Ledger Index → ℕ → Event Doc → Result (Ledger Index × EventId)
  unfolding get_pending_block Block.insert
  append_pending l shard event = get_pending_block C l shard >>= λ pending.
      from_block (Block.insert pending (C.encode event)) >>= λ r. ok (
        record l { pages = update l.pages (l.pending shard) (some r.0) },
        record { shard = shard; index = r.1; block = l.pending shard },
      )

  -- The loops over the secondary indexes: a changed value takes the place of the old one in an index
  -- that tells them apart; then every index receives the value.
  unfoldable pub replace_value : Doc → Doc → Name → Index → Index
  replace_value old doc key index =
      if C.compare index old doc
      then index
      else C.index_insert doc key (C.index_remove old key index)

  unfoldable pub index_first : Doc → Name → List Index → List Index
  index_first doc key indexes = map (C.index_insert doc key) (map (C.index_insert doc key) indexes)

  unfoldable pub index_next : Doc → Doc → Name → List Index → List Index
  unfolding replace_value
  index_next old doc key indexes =
      map (C.index_insert doc key) (map (replace_value old doc key) indexes)

  -- The branch on `version_number == INITIAL_VERSION_NO`: the secondary indexes, the references to the
  -- predecessor that are written, and by how much the number of objects grows.
  unfoldable pub link :
      Doc → Name → ℕ → EventId → Option (Event Doc) → List Index → Result (List Index × EventId × ℕ)
  unfolding index_first index_next
  link doc key number previous_id previous_version indexes =
      if number == initial_version_no
      then ok (index_first doc key indexes, invalid_event, 1)
      else (elim indexes [
        | [] ↦ ok ([], previous_id, 0)
        | index ∷ others ↦ elim previous_version [
          | none ↦ err Error.malformed_event
          | some e ↦ field (value e) >>= λ old.
              ok (index_next old doc key (index ∷ others), previous_id, 0)
        ]
      ])

  -- The version number that is written, an `uint32_t`.
  unfoldable pub next_number : Option (Event Doc) → Result ℕ
  next_number none = ok initial_version_no
  next_number (some e) = field (version_number e) >>= λ v. ok ((v + 1) % 2 ^ 32)

  -- `put_next_version`.
  unfoldable pub put_next_version :
      Ledger Index
      → OpContext
      → Name
      → Name
      → Doc
      → ℕ
      → EventId
      → Option (Event Doc)
      → LedgerPos
      → Result (Ledger Index × EventId)
  unfolding collection_of index_event append_pending link next_number
  put_next_version l context collection key doc number previous_id previous_version ref =
      if not context.is_valid
      then err invalid_identity
      else if not (C.valid doc)
      then ok (l, invalid_event)
      else (let col = collection_of l collection in
          link doc key number previous_id previous_version col.secondary_indexes >>= λ linked.
          next_number previous_version >>= λ version.
          append_pending l (get_shard C collection key)
            (new_version context.name linked.1.block linked.1.index doc version ref)
          >>= λ r. ok (
            record (set_collection r.0 collection
                (index_event key r.1 (record col { secondary_indexes = linked.0 }))) {
                  object_count = (l.object_count + linked.2) % 2 ^ 64;
                  version_count = (l.version_count + 1) % 2 ^ 64;
                },
            r.1,
          ))

  -- `put_tombstone`.
  unfoldable pub put_tombstone :
      Ledger Index → OpContext → EventId → LedgerPos → Result (Ledger Index × EventId)
  unfolding append_pending
  put_tombstone l context previous_id ref =
      if not context.is_valid
      then err invalid_identity
      else append_pending l previous_id.shard
          (tombstone context.name previous_id.block previous_id.index ref)

  -- `generate_block`: a new page, which is the pending block of the shard.
  unfoldable pub generate_block : Ledger Index → ℕ → Ledger Index
  generate_block l shard = record l {
    pages = update l.pages l.next_page (some new_block);
    next_page = (l.next_page + 1) % 2 ^ 32;
    pending = update l.pending shard l.next_page;
  }

  -- `organize_ledger`.
  unfoldable pub organize_ledger : Ledger Index → ℕ → Result (Ledger Index)
  unfolding get_pending_block generate_block
  organize_ledger l shard = get_pending_block C l shard >>= λ pending.
      if ltb (end_pos pending) min_block_size
      then ok l
      else (from_block (seal pending) >>= λ sealed. ok (
          generate_block (record l { pages = update l.pages (l.pending shard) (some sealed) })
            shard))

  -- The branch of `apply_write` that removes an object: the tombstone, and the index.
  unfoldable pub remove_version :
      Ledger Index → OpContext → Name → Name → EventId → LedgerPos → Result (Ledger Index × EventId)
  unfolding put_tombstone index_event
  remove_version l context collection key previous_id ref =
      put_tombstone l context previous_id ref >>= λ r. elim (r.0.collections collection) [
        | none ↦ err no_such_collection
        | some col ↦ ok (
          record (set_collection r.0 collection (index_event key r.1 col)) {
            object_count = (r.0.object_count + 2 ^ 64 - 1) % 2 ^ 64;
          },
          r.1,
        )
      ]

  -- The branches of `apply_write` on an object that exists and may be written.
  unfoldable pub write_version :
      Ledger Index
      → OpContext
      → Name
      → Name
      → Doc
      → Name
      → OperationType
      → LedgerPos
      → Doc
      → ℕ
      → EventId
      → Event Doc
      → Result (Ledger Index × EventId)
  unfolding put_next_version remove_version
  write_version l context collection key doc path add_to_object ref old number id e =
      put_next_version l context collection key (C.add path doc old) number id (some e) ref
  write_version l context collection key doc path put_object ref old number id e =
      put_next_version l context collection key
        (if is_empty path then doc else C.insert path doc old) number id (some e) ref
  write_version l context collection key doc path remove_object ref old number id e =
      remove_version l context collection key id ref
  write_version l context collection key doc path _ ref old number id e = err unknown_op_type

  -- `apply_write` up to `organize_ledger`, from the last event of the object on.
  unfoldable pub write_after :
      ℕ
      → Ledger Index
      → OpContext
      → Name
      → Name
      → Doc
      → Name
      → OperationType
      → LedgerPos
      → EventId × Option (Event Doc)
      → Result (Ledger Index × EventId)
  unfolding put_next_version get_previous_version next_number get_policy is_permitted write_version
  write_after fuel l context collection key doc path type ref latest =
      get_previous_version C fuel l (get_shard C collection key) latest.1 >>= λ previous.
      elim previous [
        | none ↦
            if not (is_empty path) || is_remove type
            then ok (l, invalid_event)
            else put_next_version l context collection key doc initial_version_no latest.0 none ref
        | some e ↦ next_number (some e) >>= λ number. field (value e) >>= λ old.
            get_policy C e >>= λ policy.
            if is_permitted C l policy context collection key path type
            then write_version l context collection key doc path type ref old number latest.0 e
            else ok (l, invalid_event)
      ]

  -- `apply_write`; `standalone` tells that there is no handle of a transaction.
  unfoldable pub apply_write :
      ℕ
      → Ledger Index
      → OpContext
      → Name
      → Name
      → Doc
      → Name
      → Bool
      → OperationType
      → LedgerPos
      → Result (Ledger Index × EventId)
  unfolding get_latest_event write_after organize_ledger
  apply_write fuel l context collection key doc path standalone type ref =
      get_latest_event C l collection key >>= λ latest.
      write_after fuel l context collection key doc path type ref latest >>= λ r.
      if standalone
      then (organize_ledger r.0 (get_shard C collection key) >>= λ l'. ok (l', r.1))
      else ok r

  -- The constructor: a first block for every shard.
  unfoldable pub generate_blocks : ℕ → Ledger Index → Ledger Index
  unfolding generate_block
  generate_blocks zero l = l
  generate_blocks (suc n) l = generate_block (generate_blocks n l) n

  unfoldable pub new_ledger : Ledger Index
  unfolding generate_blocks
  new_ledger = generate_blocks 64 (record {
    pages = λ p. none;
    next_page = 1;
    pending = λ s. 0;
    collections = λ c. none;
    object_count = 0;
    version_count = 0;
  })
