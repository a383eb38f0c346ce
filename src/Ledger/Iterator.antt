-- ===== src/Ledger/Iterator.antt =====
-- src/enclave/ObjectIterator.cpp: the iterator over the versions of an object, the newest first.
use credb.Prelude.{
  ℕ, zero, suc, Bool, false, not, Option, none, some, List, [], ◌∷◌, ◌==◌, if◌then◌else◌,
}
use credb.EventId.{EventId, invalid_event}
use credb.ObjectEvent.{Event, get_type, has_predecessor, value, type_new_version, type_deletion}
use credb.Ledger.{
  no_fuel, malformed_event, Result, ok, err, ◌>>=◌, field, Name, is_empty, get_object, OpContext,
  Ledger, Calls, get_shard, get_event, get_policy, is_permitted, previous_id, get_latest_version,
}

-- The fields, without the ledger and the lock handle; `none` is the invalid handle.
pub record ObjectIterator (Doc : Type 0) : Type 0 where
  pub context : OpContext
  pub collection : Name
  pub key : Name
  pub path : Name
  pub start : Option (Event Doc)
  pub current_event : Option (Event Doc)
  pub current_eid : EventId

-- What `next_handle` leaves: the iterator, the id that it returns, and what it writes to `ret`.
pub record Next (Doc : Type 0) : Type 0 where
  pub iterator : ObjectIterator Doc
  pub eid : EventId
  pub handle : Option (Event Doc)

-- The id that follows: a predecessor in the block of the current event leaves it as it is.
unfoldable pub advance_eid : EventId → EventId → EventId
advance_eid current previous = if previous.block == current.block then current else previous

module _ {Doc : Type 0} where
  abbrev pub ends : ObjectIterator Doc → Next Doc
  ends it = record {
    iterator = record it { current_eid = invalid_event };
    eid = invalid_event;
    handle = none;
  }

module _ {Doc Index : Type 0} (C : Calls Doc Index) where
  -- The constructor, by `Ledger::iterate`.
  unfoldable pub iterate :
      ℕ → Ledger Index → OpContext → Name → Name → Name → Result (ObjectIterator Doc)
  unfolding get_latest_version
  iterate fuel l context collection key path =
      get_latest_version C fuel l context collection key path get_object >>= λ r. ok (record {
        context = context;
        collection = collection;
        key = key;
        path = path;
        start = r.1;
        current_event = none;
        current_eid = r.0;
      })

  -- `check_event`.
  unfoldable pub check_event : Ledger Index → ObjectIterator Doc → Option (Event Doc) → Result Bool
  unfolding get_policy is_permitted
  check_event l it none = ok false
  check_event l it (some e) = field (get_type e) >>= λ type.
      if type == type_deletion
      then ok false
      else (get_policy C e >>= λ policy.
          ok (is_permitted C l policy it.context it.collection it.key it.path get_object))

  -- The loop of `next_handle`, at a valid event that is not what the caller looks for.
  unfoldable pub next_loop : ℕ → Ledger Index → ObjectIterator Doc → Event Doc → Result (Next Doc)
  unfolding get_event previous_id check_event advance_eid
  next_loop zero l it e = err no_fuel
  next_loop (suc fuel) l it e = field (has_predecessor e) >>= λ has.
      if not has
      then ok (record {
        iterator = record it { current_event = none };
        eid = it.current_eid;
        handle = none;
      })
      else (previous_id C (get_shard C it.collection it.key) e >>= λ previous.
          get_event C l previous >>= λ event.
          let it' = record it { current_eid = advance_eid it.current_eid previous } in
          check_event l it' event >>= λ accepted.
          if not accepted then ok (ends it') else (elim event [
            | none ↦ err malformed_event
            | some e' ↦ field (get_type e') >>= λ type.
                if type == type_new_version
                then ok (record {
                  iterator = record it' { current_event = some e' };
                  eid = it'.current_eid;
                  handle = some e';
                })
                else next_loop fuel l it' e'
          ]))

  -- `next_handle`.
  unfoldable pub next_handle : ℕ → Ledger Index → ObjectIterator Doc → Result (Next Doc)
  unfolding check_event next_loop
  next_handle fuel l it = elim it.current_event [
    | none ↦
        let it' = record it { current_event = it.start } in
        check_event l it' it.start >>= λ accepted.
        if accepted
        then ok (record { iterator = it'; eid = it.current_eid; handle = it.start })
        else ok (ends it')
    | some e ↦ field (has_predecessor e) >>= λ has.
        if not has
        then ok (record { iterator = it; eid = invalid_event; handle = none })
        else next_loop fuel l it e
  ]

  -- `next`: the id and the value at the path; `none` is the invalid document.
  unfoldable pub next :
      ℕ → Ledger Index → ObjectIterator Doc → Result (ObjectIterator Doc × EventId × Option Doc)
  unfolding next_handle
  next fuel l it = next_handle fuel l it >>= λ r. elim r.handle [
    | none ↦ ok (r.iterator, r.eid, none)
    | some e ↦ field (value e) >>= λ doc.
        if is_empty it.path then ok (r.iterator, r.eid, some doc) else (elim (C.view doc it.path) [
          | some val ↦ ok (r.iterator, r.eid, some val)
          | none ↦ ok (r.iterator, invalid_event, none)
        ])
  ]

  -- The caller's loop over `next_handle`, until the handle is invalid: the events that it sees.
  unfoldable pub collect : ℕ → ℕ → Ledger Index → ObjectIterator Doc → Result (List (Event Doc))
  unfolding next_handle
  collect zero fuel l it = err no_fuel
  collect (suc rounds) fuel l it = next_handle fuel l it >>= λ r. elim r.handle [
    | none ↦ ok []
    | some e ↦ collect rounds fuel l r.iterator >>= λ es. ok (e ∷ es)
  ]
