-- ===== src/Ledger/Operations.antt =====
-- The calls of src/enclave/Ledger.inl and src/enclave/Ledger.cpp by which objects are written and read:
-- `prepare_write` with the collection's policy, `put`, `add`, `remove`, `put_without_key`, and the
-- loops over the history of an object.
use credb.Prelude.{
  ℕ, zero, suc, ◌+◌, ◌%◌, ◌^◌, Bool, true, false, not, none, some, List, [], ◌∷◌, if◌then◌else◌,
}
use credb.EventId.{EventId, invalid_event, event_eq, is_valid}
use credb.ObjectEvent.{invalid_ledger_pos, initial_version_no, source}
use credb.Ledger.{
  no_fuel, Result, ok, err, ◌>>=◌, field, Name, OperationType, put_object, add_to_object,
  remove_object, OpContext, empty_context, Ledger, Calls, is_valid_key, policy_name, equal_names,
  get_latest_event, get_shard,
}
use credb.Ledger.Write.{apply_write, put_next_version, organize_ledger}
use credb.Ledger.Iterator.{ObjectIterator, iterate, next, next_handle}

module _ {Doc Index : Type 0} (C : Calls Doc Index) where
  -- `check_collection_policy`.
  unfoldable pub check_collection_policy :
      ℕ → Ledger Index → OpContext → Name → Name → Name → OperationType → Result Bool
  unfolding iterate next is_valid
  check_collection_policy fuel l context collection key path type =
      if not context.is_valid
      then ok true
      else (iterate C fuel l empty_context collection policy_name [] >>= λ it.
          next C fuel l it >>= λ r.
          if is_valid r.1
          then (field r.2 >>= λ policy. ok (C.run_policy l policy context collection key path type))
          else ok true)

  -- `prepare_write`.
  unfoldable pub prepare_write :
      ℕ → Ledger Index → OpContext → Name → Name → Name → OperationType → Result Bool
  unfolding is_valid_key check_collection_policy
  prepare_write fuel l context collection key path type =
      if is_valid_key key
      then check_collection_policy fuel l context collection key path type
      else ok false

  -- `prepare_write`, and a write that it lets through.
  unfoldable pub write_if_prepared :
      ℕ
      → Ledger Index
      → OpContext
      → Name
      → Name
      → Doc
      → Name
      → Bool
      → OperationType
      → OperationType
      → Result (Ledger Index × EventId)
  unfolding prepare_write apply_write
  write_if_prepared fuel l context collection key doc path standalone checked type =
      prepare_write fuel l context collection key path checked >>= λ permitted.
      if permitted
      then apply_write C fuel l context collection key doc path standalone type invalid_ledger_pos
      else ok (l, invalid_event)

  -- `put`.
  unfoldable pub put :
      ℕ
      → Ledger Index
      → OpContext
      → Name
      → Name
      → Doc
      → Name
      → Bool
      → Result (Ledger Index × EventId)
  unfolding write_if_prepared
  put fuel l context collection key doc path standalone =
      write_if_prepared fuel l context collection key doc path standalone put_object put_object

  -- `add`.
  unfoldable pub add :
      ℕ
      → Ledger Index
      → OpContext
      → Name
      → Name
      → Doc
      → Name
      → Bool
      → Result (Ledger Index × EventId)
  unfolding write_if_prepared
  add fuel l context collection key doc path standalone =
      write_if_prepared fuel l context collection key doc path standalone add_to_object
        add_to_object

  -- `remove`, with the default document; it asks the policy for `AddToObject`.
  unfoldable pub remove :
      ℕ → Ledger Index → OpContext → Name → Name → Doc → Bool → Result (Ledger Index × EventId)
  unfolding write_if_prepared
  remove fuel l context collection key no_document standalone =
      write_if_prepared fuel l context collection key no_document [] standalone add_to_object
        remove_object

  -- `put_without_key`: the keys are those that `random_object_key` draws, one in each round.
  unfoldable pub put_at_fresh :
      Ledger Index → OpContext → Name → List Name → Doc → Result (Ledger Index × EventId × Name)
  unfolding get_latest_event put_next_version event_eq
  put_at_fresh l context collection [] doc = err no_fuel
  put_at_fresh l context collection (key ∷ keys) doc =
      get_latest_event C l collection key >>= λ prev. elim prev.1 [
        | some e ↦ put_at_fresh l context collection keys doc
        | none ↦
            put_next_version C l context collection key doc initial_version_no prev.0 none
              invalid_ledger_pos
            >>= λ r.
                if event_eq r.1 invalid_event
                then put_at_fresh r.0 context collection keys doc
                else ok (r.0, r.1, key)
      ]

  unfoldable pub put_without_key :
      Ledger Index
      → OpContext
      → Name
      → List Name
      → Doc
      → Bool
      → Result (Ledger Index × EventId × Name)
  unfolding put_at_fresh organize_ledger
  put_without_key l context collection keys doc standalone =
      put_at_fresh l context collection keys doc >>= λ r.
      if standalone
      then (organize_ledger C r.0 (get_shard C collection r.2) >>= λ l'. ok (l', r.1, r.2))
      else ok r

  -- The loop of `count_writes`.
  unfoldable pub count_loop : ℕ → ℕ → Ledger Index → ObjectIterator Doc → Name → ℕ → Result ℕ
  unfolding next_handle is_valid
  count_loop zero fuel l it principal res = err no_fuel
  count_loop (suc rounds) fuel l it principal res = next_handle C fuel l it >>= λ r.
      if is_valid r.eid
      then (field r.handle >>= λ hdl. field (source hdl) >>= λ src.
          count_loop rounds fuel l r.iterator principal
            (if equal_names src principal then (res + 1) % 2 ^ 32 else res))
      else ok res

  -- `count_writes`.
  unfoldable pub count_writes : ℕ → ℕ → Ledger Index → OpContext → Name → Name → Name → Result ℕ
  unfolding iterate count_loop
  count_writes rounds fuel l context principal collection key =
      iterate C fuel l context collection key [] >>= λ it. count_loop rounds fuel l it principal 0
