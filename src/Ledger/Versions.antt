-- ===== src/Ledger/Versions.antt =====
-- The iterator of src/enclave/ObjectIterator.cpp on a ledger that stands for a history: it sees the
-- versions of an object, the newest first, down to its creation.
use credb.Prelude.{
  ℕ, zero, suc, ◌+◌, ◌^◌, ◌≡◌, ◌<◌, refl, ap, ◌∙◌, inl, inr, true, false, Option, none, some, List,
  [], ◌∷◌, ◌==◌, arith, Bool-cases, length,
}
use credb.EventId.{EventId, invalid_event}
use credb.ObjectEvent.{Event, LedgerPos, get_type, has_predecessor, value, new_version, tombstone}
use credb.Ledger.{
  Ledger, Calls, ok, ◌>>=◌, Name, is_empty, get_event, get_latest_version, latest_loop, get_shard,
  OpContext, get_object, is_permitted, policy_name, get_policy, previous_id,
}
use credb.Ledger.Iterator.{
  ObjectIterator, iterate, check_event, ends, next_handle, collect, advance_eid,
}
use credb.Ledger.Layout.{
  IsCodec, Ghost, Entry, version, deleted, Sound, History, Represents, IsHistory,
}
use credb.Ledger.Latest.{FindsLast, get_latest_event-FindsLast, shown-new_version}
use credb.Ledger.Steps.{
  shown_all, visible, at, moved, outcome, shown_all-cons, collect-suc, collect-ends, collect-Stored,
  next_at_version,
}

module _ {Doc Index : Type 0} (C : Calls Doc Index) where
  -- The iterator that `iterate` returns.
  abbrev started :
      OpContext → Name → Name → Name → EventId × Option (Event Doc) → ObjectIterator Doc
  started context c k path latest = record {
    context = context;
    collection = c;
    key = k;
    path = path;
    start = latest.1;
    current_event = none;
    current_eid = latest.0;
  }

  next_handle-nothing :
      (fuel : ℕ) (l : Ledger Index) (context : OpContext) (c k path : Name) (id : EventId)
      → next_handle C fuel l (started context c k path (id, none))
        ≡ ok (ends (started context c k path (id, none)))
  unfolding next_handle check_event
  next_handle-nothing fuel l context c k path id = refl

  next_handle-starts :
      (fuel : ℕ) (l : Ledger Index) (context : OpContext) (c k path : Name) (id : EventId)
      (src : List ℕ) (b i : ℕ) (doc : Doc) (n : ℕ) (ref : LedgerPos)
      → is_permitted C l (C.view doc policy_name) context c k path get_object ≡ true
      → next_handle C fuel l (started context c k path (id, some (new_version src b i doc n ref)))
        ≡ ok (record {
          iterator =
              at C
                (started context c k path (id, some (new_version src b i doc n ref)))
                (new_version src b i doc n ref);
          eid = id;
          handle = some (new_version src b i doc n ref);
        })
  unfolding next_handle check_event new_version get_type get_policy value
  next_handle-starts fuel l context c k path id src b i doc n ref t = rw (t) refl

  versions_by_history :
      (rounds fuel : ℕ) (l : Ledger Index) (g : Ghost Doc) (context : OpContext) (c k path : Name)
      (entries : List (Entry Doc))
      → IsCodec C
      → Sound C l g
      → FindsLast C l g c k entries
      → IsHistory entries
      → length entries < 2 ^ 32
      → length entries < rounds
      → (iterate C (suc fuel) l context c k path >>= λ it.
          collect C (suc rounds) (suc fuel) l it >>= λ es. shown_all C es)
        ≡ ok (visible C l context c k path entries)
  unfolding iterate get_latest_version latest_loop get_policy new_version tombstone get_type value
  versions_by_history rounds fuel l g context c k path [] codec sound (e, none_found) history small
        enough =
      rw (e) (
        collect-ends C rounds (suc fuel) l _ _ _
          (next_handle-nothing (suc fuel) l context c k path invalid_event))
  versions_by_history rounds fuel l g context c k path (deleted src ∷ entries) codec sound
        (b, i, ref, id, e, _, _, _, _, _, _, _, _) history small enough =
      rw (e) (
        collect-ends C rounds (suc fuel) l _ _ _
          (next_handle-nothing (suc fuel) l context c k path invalid_event))
  versions_by_history rounds fuel l g context c k path (version src doc n ∷ entries) codec sound
        (b, i, ref, id, e, _, _, _, _, _, hb, hi, rest) history small enough =
      elim (Bool-cases (is_permitted C l (C.view doc policy_name) context c k path get_object)) [
        | inl t ↦
            let it = started context c k path (id, some (new_version src b i doc n ref)) in
            rw (e) (
              rw (t) (
                ap (λ X. X >>= shown_all C)
                  (collect-suc C rounds (suc fuel) l it _ id (new_version src b i doc n ref)
                    (next_handle-starts (suc fuel) l context c k path id src b i doc n ref t))
                ∙ shown_all-cons C _ (new_version src b i doc n ref) (src, doc, n) _
                    (shown-new_version C src b i doc n ref (omega (arith, history)))
                    (collect-Stored C rounds fuel l g it src b i doc n ref entries codec sound hb hi
                      rest history.1 (omega arith) (omega arith))))
        | inr f ↦ rw (e) (
            rw (f) (
              collect-ends C rounds (suc fuel) l _ _ _
                (next_handle-nothing (suc fuel) l context c k path id)))
      ]

  -- The history of an object that `iterate` and `next_handle` show, on a ledger that stands for a
  -- history: the versions, the newest first, down to the creation or to the first whose policy refuses,
  -- and nothing of an object that was removed. As many rounds as there are entries, and two more, are
  -- enough, each with one round of the inner loops.
  pub iterate-Represents :
      (rounds fuel : ℕ) (l : Ledger Index) (h : History Doc) (context : OpContext) (c k path : Name)
      → IsCodec C
      → Represents C l h
      → is_empty k ≡ false
      → length (h c k) + 1 < rounds
      → (iterate C (suc fuel) l context c k path >>= λ it.
          collect C rounds (suc fuel) l it >>= λ es. shown_all C es)
        ≡ ok (visible C l context c k path (h c k))
  iterate-Represents zero fuel l h context c k path codec r named enough = absurd (omega arith)
  iterate-Represents (suc rounds) fuel l h context c k path codec r named enough =
      versions_by_history rounds fuel l r.ghost context c k path (h c k) codec r.sound
        (get_latest_event-FindsLast C l h c k codec r named) (r.histories c k) (r.lengths c k)
        (omega arith)

  -- At an event whose predecessor is a permitted version in the block of the current id, `next_handle`
  -- moves to that version, but the id that it returns is the current one again.
  next_handle-same_block :
      (fuel : ℕ) (l : Ledger Index) (it : ObjectIterator Doc) (e : Event Doc) (previous : EventId)
      (src : List ℕ) (b i : ℕ) (doc : Doc) (n : ℕ) (ref : LedgerPos)
      → has_predecessor e ≡ some true
      → previous_id C (get_shard C it.collection it.key) e ≡ ok previous
      → get_event C l previous ≡ ok (some (new_version src b i doc n ref))
      → is_permitted C l (C.view doc policy_name) it.context it.collection it.key it.path get_object
        ≡ true
      → previous.block ≡ it.current_eid.block
      → (it' : ObjectIterator Doc) × (next_handle C
            (suc fuel)
            l
            (record it { current_event = some e })
          ≡ ok (record {
            iterator = it';
            eid = it.current_eid;
            handle = some (new_version src b i doc n ref);
          }))
  unfolding advance_eid
  next_handle-same_block fuel l it e previous src b i doc n ref has prev found permitted same =
      let stays : (previous.block == it.current_eid.block) ≡ true = ground arith in
      let there : advance_eid it.current_eid previous ≡ it.current_eid = rw (stays) refl in
      (
        _,
        next_at_version C fuel l it e previous src b i doc n ref has prev found
            ∙ ap (λ p. ok (outcome C it e previous (new_version src b i doc n ref) p)) permitted
            ∙ ap
                (λ x. ok (record {
                  iterator = at C (moved C it previous) (new_version src b i doc n ref);
                  eid = x;
                  handle = some (new_version src b i doc n ref);
                }))
                there,
      )
