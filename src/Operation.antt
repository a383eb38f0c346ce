-- ===== src/Operation.antt =====
-- src/enclave/op_info.h and src/enclave/op_info.cpp: the operations of a transaction, without those that
-- find objects and without their witnesses; with parse_path of src/common/util/keys.h and
-- check_repeatable_read of src/enclave/Transaction.cpp. Whether a document matches predicates is a
-- parameter.
pub mod Laws
mod Examples
use credb.Prelude.{
  ℕ, zero, suc, ◌+◌, ◌%◌, ◌^◌, ◌≡◌, Bool, true, false, ◌&&◌, not, Option, none, some, List, [], ◌∷◌,
  ◌==◌, if◌then◌else◌,
}
use credb.EventId.{EventId, is_valid, event_eq}
use credb.ObjectEvent.{Event, LedgerPos}
use credb.RwLockable.{LockType, read, write}
use credb.Ledger.{
  Ledger, Calls, Result, ok, err, ◌>>=◌, field, Name, OpContext, OperationType, get_object,
  put_object, add_to_object, remove_object, get_shard, has_object, get_latest_version,
}
use credb.Ledger.Write.{apply_write}
use credb.Ledger.Iterator.{iterate, next}
use credb.Ledger.Operations.{prepare_write}

-- `parse_path`: a key, and what stands behind the first dot.
unfoldable pub parse_path : Name → Name × Name
parse_path [] = ([], [])
parse_path (c ∷ cs) = let rest = parse_path cs in if c == 46 then ([], cs) else (c ∷ rest.0, rest.1)

pub data IsolationLevel : Type 0 where
  read_committed repeatable_read serializable : IsolationLevel

-- The structures derived from `operation_info_t`, with `m_collection` and `m_key`.
pub data OpInfo (Doc : Type 0) : Type 0 where
  check_obj_info : Name → Name → Doc → Bool → OpInfo Doc
  has_obj_info : Name → Name → Bool → OpInfo Doc
  get_info : Name → Name → EventId → OpInfo Doc
  put_info add_info : Name → Name → Doc → OpInfo Doc
  remove_info : Name → Name → OpInfo Doc

module _ {Doc Index : Type 0} (C : Calls Doc Index) (matches : Doc → Doc → Bool) where
  -- `operation_info_t::get_shard`.
  unfoldable pub path_shard : Name → Name → ℕ
  unfolding parse_path get_shard
  path_shard collection full_path = get_shard C collection (parse_path full_path).0

  -- `m_sid`.
  unfoldable pub shard_of : OpInfo Doc → ℕ
  unfolding path_shard get_shard
  shard_of (check_obj_info collection key predicates result) = path_shard collection key
  shard_of (has_obj_info collection key result) = path_shard collection key
  shard_of (get_info collection key eid) = path_shard collection key
  shard_of (put_info collection key doc) = path_shard collection key
  shard_of (add_info collection key doc) = path_shard collection key
  shard_of (remove_info collection key) = get_shard C collection key

  abbrev pub writes : OpInfo Doc → Bool
  writes (put_info collection key doc) = true
  writes (add_info collection key doc) = true
  writes (remove_info collection key) = true
  writes _ = false

  -- `collect_shard_lock_type`: the lock that it asks the transaction for.
  unfoldable pub collect_shard_lock_type : OpInfo Doc → List (ℕ × LockType)
  unfolding shard_of
  collect_shard_lock_type op = (shard_of op, if writes op then write else read) ∷ []

  -- `extract_reads`, what is added to the set, and `extract_writes`, the counters of the shards.
  unfoldable pub extract_reads : OpInfo Doc → List EventId
  extract_reads (get_info collection key eid) = eid ∷ []
  extract_reads _ = []

  unfoldable pub extract_writes : OpInfo Doc → (ℕ → ℕ) → ℕ → ℕ
  unfolding shard_of
  extract_writes op counts s =
      if writes op && s == shard_of op then (counts s + 1) % 2 ^ 16 else counts s

  -- `Ledger::check`.
  unfoldable pub check : ℕ → Ledger Index → OpContext → Name → Name → Name → Doc → Result Bool
  unfolding iterate next is_valid
  check fuel l context collection key path predicate =
      iterate C fuel l context collection key path >>= λ it. next C fuel l it >>= λ r.
      if is_valid r.1 then (field r.2 >>= λ value. ok (matches value predicate)) else ok false

  -- `check_repeatable_read`.
  unfoldable pub check_repeatable_read :
      ℕ → Ledger Index → OpContext → Name → Name → EventId → Result Bool
  unfolding parse_path get_latest_version event_eq
  check_repeatable_read fuel l context collection full_path expected =
      get_latest_version C fuel l context collection (parse_path full_path).0 [] get_object >>= λ r.
      elim r.1 [ none ↦ ok false | some e ↦ ok (event_eq r.0 expected) ]

  abbrev pub same : Bool → Bool → Bool
  same true b = b
  same false b = not b

  -- The branch of `get_info_t::validate` under `ReadCommitted`.
  unfoldable pub check_committed_read : ℕ → Ledger Index → OpContext → Name → Name → Result Bool
  unfolding get_latest_version
  check_committed_read fuel l context collection key =
      get_latest_version C fuel l context collection key [] get_object >>= λ r. elim r.1 [
        | none ↦ ok false
        | some e ↦ ok true
      ]

  -- `validate`.
  unfoldable pub validate : ℕ → IsolationLevel → Ledger Index → OpContext → OpInfo Doc → Result Bool
  unfolding check has_object check_repeatable_read check_committed_read prepare_write parse_path
  validate fuel level l context (check_obj_info collection key predicates result) =
      check fuel l context collection key [] predicates >>= λ res. ok (same res result)
  validate fuel level l context (has_obj_info collection key result) =
      has_object C l collection key >>= λ res. ok (same res result)
  validate fuel read_committed l context (get_info collection key eid) =
      check_committed_read fuel l context collection key
  validate fuel repeatable_read l context (get_info collection key eid) =
      check_repeatable_read fuel l context collection key eid
  validate fuel serializable l context (get_info collection key eid) =
      check_repeatable_read fuel l context collection key eid
  validate fuel level l context (put_info collection key doc) =
      prepare_write C fuel l context collection (parse_path key).0 (parse_path key).1 put_object
  validate fuel level l context (add_info collection key doc) =
      prepare_write C fuel l context collection (parse_path key).0 (parse_path key).1 add_to_object
  validate fuel level l context (remove_info collection key) =
      prepare_write C fuel l context collection key [] remove_object

  -- `do_write`; `no_document` is the default document of a removal.
  unfoldable pub do_write :
      ℕ → Ledger Index → OpContext → Doc → LedgerPos → OpInfo Doc → Result (Ledger Index)
  unfolding apply_write parse_path
  do_write fuel l context no_document ref (put_info collection key doc) =
      apply_write C fuel l context collection (parse_path key).0 doc (parse_path key).1 false
        put_object ref
      >>= λ r. ok r.0
  do_write fuel l context no_document ref (add_info collection key doc) =
      apply_write C fuel l context collection (parse_path key).0 doc (parse_path key).1 false
        add_to_object ref
      >>= λ r. ok r.0
  do_write fuel l context no_document ref (remove_info collection key) =
      apply_write C fuel l context collection key no_document [] false remove_object ref >>= λ r.
      ok r.0
  do_write fuel l context no_document ref _ = ok l

  -- The loop of `Transaction::commit` over the operations and their contexts, oldest first.
  unfoldable pub do_writes :
      ℕ → Ledger Index → Doc → LedgerPos → List (OpContext × OpInfo Doc) → Result (Ledger Index)
  unfolding do_write
  do_writes fuel l no_document ref [] = ok l
  do_writes fuel l no_document ref ((context, op) ∷ ops) =
      do_write fuel l context no_document ref op >>= λ l'. do_writes fuel l' no_document ref ops
