-- ===== src/Operation/Laws.antt =====
-- What the operations of src/enclave/op_info.cpp do to a ledger that stands for a history, and what they
-- find of it.
use credb.Prelude.{
  ℕ, suc, ◌+◌, ◌^◌, ◌≡◌, ◌<◌, refl, ap, sym, subst, ◌∙◌, Bool, true, false, Option, none, some,
  List, [], ◌∷◌, ◌==◌, length,
}
use credb.EventId.{EventId}
use credb.ObjectEvent.{LedgerPos}
use credb.RwLockable.{write}
use credb.Ledger.{
  Ledger, Calls, Result, ok, ◌>>=◌, Name, is_empty, OpContext, OperationType, put_object,
  add_to_object, remove_object, get_object, get_shard, get_latest_event, get_latest_version,
  latest_loop,
}
use credb.Ledger.Write.{apply_write, write_after}
use credb.Ledger.Layout.{IsCodec, Entry, History, Represents, AreSmall}
use credb.Ledger.Latest.{get_latest_event-FindsLast, FindsLast}
use credb.Ledger.Storing.{with_entries}
use credb.Ledger.Specification.{written, is_write, Fits, Writes, Ends}
use credb.Ledger.Refinement.{write_after-Ends, bind_assoc}
use credb.Operation.{
  OpInfo, check_obj_info, has_obj_info, get_info, put_info, add_info, remove_info, IsolationLevel,
  parse_path, shard_of, writes, collect_shard_lock_type, validate, do_write, path_shard,
  check_committed_read,
}

module _ {Doc Index : Type 0} (C : Calls Doc Index) (matches : Doc → Doc → Bool) where
  -- Under which key, document, path and type an operation writes.
  pub record Target : Type 0 where
    pub collection : Name
    pub key : Name
    pub doc : Doc
    pub path : Name
    pub type : OperationType

  abbrev pub target : Doc → OpInfo Doc → Target
  target no_document (put_info collection key doc) = record {
    collection = collection;
    key = (parse_path key).0;
    doc = doc;
    path = (parse_path key).1;
    type = put_object;
  }
  target no_document (add_info collection key doc) = record {
    collection = collection;
    key = (parse_path key).0;
    doc = doc;
    path = (parse_path key).1;
    type = add_to_object;
  }
  target no_document (remove_info collection key) = record {
    collection = collection;
    key = key;
    doc = no_document;
    path = [];
    type = remove_object;
  }
  target no_document _ = record {
    collection = [];
    key = [];
    doc = no_document;
    path = [];
    type = get_object;
  }

  -- The history after a write, if it is not refused.
  abbrev pub history_after : History Doc → Name → Name → Option (List (Entry Doc)) → History Doc
  history_after h c k none = h
  history_after h c k (some entries) = with_entries h c k entries

  -- `apply_write` with the handle of a transaction.
  apply_write_in_transaction :
      (fuel : ℕ) (l : Ledger Index) (h : History Doc) (context : OpContext) (c k : Name) (doc : Doc)
      (path : Name) (type : OperationType) (ref : LedgerPos)
      → IsCodec C
      → (r : Represents C l h) → AreSmall C l
      → context.is_valid ≡ true
      → is_empty k ≡ false
      → is_write type ≡ true
      → length (h c k) + 1 < 2 ^ 32
      → Fits C (written C l context c k doc path type (h c k))
      → Ends C l h c k
          (apply_write C (suc fuel) l context c k doc path false type ref)
          (written C l context c k doc path type (h c k))
  unfolding apply_write
  apply_write_in_transaction fuel l h context c k doc path type ref codec r small valid named kind
        long fits =
      let (l', id, e, writes) =
        write_after-Ends C fuel l h context c k doc path type ref (h c k) r small valid kind
          (get_latest_event-FindsLast C l h c k codec r named) (r.histories c k) long fits in
      (
        l',
        id,
        bind_assoc C (get_latest_event C l c k)
              (λ latest. write_after C (suc fuel) l context c k doc path type ref latest)
              (λ x. ok x)
            ∙ ap (λ x. x >>= λ y. ok y) e,
        writes,
      )

  -- What a write leaves: the new history, and every page but the pending block of its shard.
  pub record WritesTo (l l' : Ledger Index) (h : History Doc) (s : ℕ) : Type 0 where
    pub represents : Represents C l' h
    pub elsewhere : (p : ℕ) → (p == l.pending s) ≡ false → l'.pages p ≡ l.pages p

  by_outcome :
      (l l' : Ledger Index) (h : History Doc) (c k : Name) (id : EventId)
      (entries : Option (List (Entry Doc)))
      → Represents C l h
      → Writes C l l' h c k id entries
      → WritesTo l l' (history_after h c k entries) (get_shard C c k)
  by_outcome l l' h c k id none r (invalid, kept) =
      subst (λ x. WritesTo l x h (get_shard C c k)) (sym kept)
        (record { represents = r; elsewhere = λ p n. refl })
  by_outcome l l' h c k id (some entries) r stores = record {
    represents = stores.represents;
    elsewhere = stores.elsewhere;
  }

  finishes :
      (l : Ledger Index) (h : History Doc) (c k : Name) (r : Result (Ledger Index × EventId))
      (entries : Option (List (Entry Doc)))
      → Represents C l h
      → Ends C l h c k r entries
      → (l' : Ledger Index) × ((r >>= λ x. ok x.0) ≡ ok l')
        × WritesTo l l' (history_after h c k entries) (get_shard C c k)
  finishes l h c k r entries rep (l', id, e, left) =
      (l', ap (λ x. x >>= λ y. ok y.0) e, by_outcome l l' h c k id entries rep left)

  -- For an operation that writes, on a ledger that stands for a history and whose pending blocks are
  -- small, `do_write` ends, the new history of its target is what
  -- a write of its kind makes of the old one, and no page is changed but the pending block of the one
  -- shard for which the operation asks a write lock. The identity is valid, the key is not empty, the
  -- history has fewer than 2 ^ 32 - 1 entries, and a new entry takes less than 2 ^ 31 bytes.
  pub do_write-WritesTo :
      (fuel : ℕ) (l : Ledger Index) (h : History Doc) (context : OpContext) (no_document : Doc)
      (ref : LedgerPos) (op : OpInfo Doc)
      → IsCodec C
      → Represents C l h
      → AreSmall C l
      → context.is_valid ≡ true
      → writes C matches op ≡ true
      → is_empty (target no_document op).key ≡ false
      → length (h (target no_document op).collection (target no_document op).key) + 1 < 2 ^ 32
      → Fits C (
          written C l context
            (target no_document op).collection
            (target no_document op).key
            (target no_document op).doc
            (target no_document op).path
            (target no_document op).type
            (h (target no_document op).collection (target no_document op).key))
      → (l' : Ledger Index) × (do_write C matches (suc fuel) l context no_document ref op ≡ ok l')
        × WritesTo l l'
            (history_after h (target no_document op).collection (target no_document op).key (
              written C l context
                (target no_document op).collection
                (target no_document op).key
                (target no_document op).doc
                (target no_document op).path
                (target no_document op).type
                (h (target no_document op).collection (target no_document op).key)))
            (shard_of C matches op)
        × (collect_shard_lock_type C matches op ≡ (shard_of C matches op, write) ∷ [])
  unfolding do_write shard_of path_shard collect_shard_lock_type
  do_write-WritesTo fuel l h context no_document ref (put_info c k doc) codec r small valid writing
        named long fits =
      let (l', e, left) = finishes l h c (parse_path k).0 _ _ r (
        apply_write_in_transaction fuel l h context c (parse_path k).0 doc (parse_path k).1
          put_object ref codec r small valid named refl long fits) in
      (l', e, left, refl)
  do_write-WritesTo fuel l h context no_document ref (add_info c k doc) codec r small valid writing
        named long fits =
      let (l', e, left) = finishes l h c (parse_path k).0 _ _ r (
        apply_write_in_transaction fuel l h context c (parse_path k).0 doc (parse_path k).1
          add_to_object ref codec r small valid named refl long fits) in
      (l', e, left, refl)
  do_write-WritesTo fuel l h context no_document ref (remove_info c k) codec r small valid writing
        named long fits =
      let (l', e, left) = finishes l h c k _ _ r (
        apply_write_in_transaction fuel l h context c k no_document [] remove_object ref codec r
          small valid named refl long fits) in
      (l', e, left, refl)
  do_write-WritesTo fuel l h context no_document ref (check_obj_info c k predicates result) codec r
        small valid writing named long fits =
      cc
  do_write-WritesTo fuel l h context no_document ref (has_obj_info c k result) codec r small valid
        writing named long fits =
      cc
  do_write-WritesTo fuel l h context no_document ref (get_info c k eid) codec r small valid writing
        named long fits =
      cc

  -- Under `ReadCommitted` a read is validated with its whole path as the key: if nothing was ever written
  -- under that key, as is the case for a path with a dot, the read fails, whatever the object that it
  -- read holds.
  validate_committed_path :
      (fuel : ℕ) (l : Ledger Index) (h : History Doc) (context : OpContext) (c full_path : Name)
      (eid : EventId)
      → IsCodec C
      → Represents C l h
      → is_empty full_path ≡ false
      → h c full_path ≡ []
      → validate C matches
          (suc fuel)
          IsolationLevel.read_committed
          l
          context
          (get_info c full_path eid)
        ≡ ok false
  unfolding validate check_committed_read get_latest_version latest_loop
  validate_committed_path fuel l h context c full_path eid codec r named nothing =
      let finds : FindsLast C l r.ghost c full_path [] =
        rw (nothing) at (get_latest_event-FindsLast C l h c full_path codec r named) in
      rw (finds.0) refl
