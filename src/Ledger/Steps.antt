-- ===== src/Ledger/Steps.antt =====
-- The steps of the iterator of src/enclave/ObjectIterator.cpp from one event to its predecessor.
use credb.Prelude.{
  ℕ, zero, suc, ◌%◌, ◌^◌, ◌≡◌, ◌<◌, refl, ap, ◌∙◌, inl, inr, Bool, true, false, not, none, some,
  List, [], ◌∷◌, ◌==◌, arith, Bool-cases, if◌then◌else◌, length,
}
use credb.EventId.{EventId, invalid_event}
use credb.ObjectEvent.{
  Event, LedgerPos, get_type, previous_block, previous_index, has_predecessor, value, new_version,
}
use credb.Ledger.{
  Ledger, Calls, Result, ok, err, ◌>>=◌, Name, get_event, get_shard, OpContext, get_object,
  is_permitted, policy_name, get_policy, previous_id,
}
use credb.Ledger.Iterator.{
  ObjectIterator, Next, check_event, ends, next_loop, next_handle, collect, advance_eid,
}
use credb.Ledger.Layout.{IsCodec, Ghost, Entry, version, deleted, Sound, Stored, AreVersions}
use credb.Ledger.Appends.{get_event-Sound}
use credb.Ledger.Latest.{shown, shown-new_version}

module _ {Doc Index : Type 0} (C : Calls Doc Index) where
  -- What the caller reads from the handles that it sees.
  pub shown_all : List (Event Doc) → Result (List (List ℕ × Doc × ℕ))
  shown_all [] = ok []
  shown_all (e ∷ es) = shown C (some e) >>= λ seen. elim seen [
    | none ↦ ok []
    | some v ↦ shown_all es >>= λ vs. ok (v ∷ vs)
  ]

  -- The versions of a history up to the first whose policy refuses.
  abbrev pub visible :
      Ledger Index → OpContext → Name → Name → Name → List (Entry Doc) → List (List ℕ × Doc × ℕ)
  visible l context c k path [] = []
  visible l context c k path (deleted src ∷ entries) = []
  visible l context c k path (version src doc number ∷ entries) =
      let rest = visible l context c k path entries in
      if is_permitted C l (C.view doc policy_name) context c k path get_object
      then (src, doc, number) ∷ rest
      else []

  -- An iterator at an event.
  abbrev pub at : ObjectIterator Doc → Event Doc → ObjectIterator Doc
  at it e = record it { current_event = some e }

  links :
      (s : ℕ) (src : List ℕ) (b i : ℕ) (doc : Doc) (n : ℕ) (ref : LedgerPos)
      → b < 2 ^ 32
      → i < 2 ^ 16
      → (has_predecessor (new_version src b i doc n ref) ≡ some (not (b == 0)))
        × (previous_id C s (new_version src b i doc n ref)
            ≡ ok (record { shard = s; index = i; block = b }))
  unfolding has_predecessor previous_id previous_block previous_index new_version
  links s src b i doc n ref hb hi =
      let e1 : b % 2 ^ 32 ≡ b = omega arith in
      let e2 : i % 2 ^ 16 ≡ i = omega arith in (rw (e1) refl, rw (e1, e2) refl)

  next_at_first :
      (fuel : ℕ) (l : Ledger Index) (it : ObjectIterator Doc) (e : Event Doc)
      → has_predecessor e ≡ some false
      → next_handle C fuel l (at it e)
        ≡ ok (record { iterator = at it e; eid = invalid_event; handle = none })
  unfolding next_handle
  next_at_first fuel l it e h = rw (h) refl

  abbrev pub moved : ObjectIterator Doc → EventId → ObjectIterator Doc
  moved it previous = record it { current_eid = advance_eid it.current_eid previous }

  check_version :
      (l : Ledger Index) (it : ObjectIterator Doc) (src : List ℕ) (b i : ℕ) (doc : Doc) (n : ℕ)
      (ref : LedgerPos)
      → check_event C l it (some (new_version src b i doc n ref))
        ≡ ok (
            is_permitted C l
              (C.view doc policy_name)
              it.context
              it.collection
              it.key
              it.path
              get_object)
  unfolding check_event new_version get_type get_policy value
  check_version l it src b i doc n ref = refl

  -- What `next_handle` leaves at an event, whose predecessor is a version: permitted, or not.
  abbrev pub outcome : ObjectIterator Doc → Event Doc → EventId → Event Doc → Bool → Next Doc
  outcome it e previous e' true = record {
    iterator = at (moved it previous) e';
    eid = advance_eid it.current_eid previous;
    handle = some e';
  }
  outcome it e previous e' false = ends (moved (at it e) previous)

  pub next_at_version :
      (fuel : ℕ) (l : Ledger Index) (it : ObjectIterator Doc) (e : Event Doc) (previous : EventId)
      (src : List ℕ) (b i : ℕ) (doc : Doc) (n : ℕ) (ref : LedgerPos)
      → has_predecessor e ≡ some true
      → previous_id C (get_shard C it.collection it.key) e ≡ ok previous
      → get_event C l previous ≡ ok (some (new_version src b i doc n ref))
      → next_handle C (suc fuel) l (at it e)
        ≡ ok (
            outcome it e previous (new_version src b i doc n ref) (
              is_permitted C l
                (C.view doc policy_name)
                it.context
                it.collection
                it.key
                it.path
                get_object))
  unfolding next_handle next_loop new_version get_type
  next_at_version fuel l it e previous src b i doc n ref has prev found =
      elim (Bool-cases (
        is_permitted C l (C.view doc policy_name) it.context it.collection it.key it.path
          get_object)) [
            | inl t ↦ rw (has) (
                rw (prev) (
                  rw (found)
                    (rw (check_version l (moved (at it e) previous) src b i doc n ref, t) refl)))
            | inr f ↦ rw (has) (
                rw (prev) (
                  rw (found)
                    (rw (check_version l (moved (at it e) previous) src b i doc n ref, f) refl)))
          ]

  pub shown_all-cons :
      (X : Result (List (Event Doc))) (e : Event Doc) (v : List ℕ × Doc × ℕ)
      (vs : List (List ℕ × Doc × ℕ))
      → shown C (some e) ≡ ok (some v)
      → (X >>= shown_all) ≡ ok vs
      → ((X >>= λ es. ok (e ∷ es)) >>= shown_all) ≡ ok (v ∷ vs)
  unfolding shown_all
  shown_all-cons (ok es) e v vs one all = rw (one, shown_all) (rw (all) refl)
  shown_all-cons (err x) e v vs one all = cc

  pub collect-suc :
      (rounds fuel : ℕ) (l : Ledger Index) (it it' : ObjectIterator Doc) (eid : EventId)
      (e : Event Doc)
      → next_handle C fuel l it ≡ ok (record { iterator = it'; eid = eid; handle = some e })
      → collect C (suc rounds) fuel l it ≡ (collect C rounds fuel l it' >>= λ es. ok (e ∷ es))
  unfolding collect
  collect-suc rounds fuel l it it' eid e h = rw (h) refl

  pub collect-ends :
      (rounds fuel : ℕ) (l : Ledger Index) (it it' : ObjectIterator Doc) (eid : EventId)
      → next_handle C fuel l it ≡ ok (record { iterator = it'; eid = eid; handle = none })
      → (collect C (suc rounds) fuel l it >>= shown_all) ≡ ok []
  unfolding collect shown_all
  collect-ends rounds fuel l it it' eid h = rw (h) refl

  -- From an event on, the iterator sees the versions behind it.
  pub collect-Stored :
      (rounds fuel : ℕ) (l : Ledger Index) (g : Ghost Doc) (it : ObjectIterator Doc) (src : List ℕ)
      (b i : ℕ) (doc : Doc) (n : ℕ) (ref : LedgerPos) (entries : List (Entry Doc))
      → IsCodec C
      → Sound C l g
      → b < 2 ^ 32
      → i < 2 ^ 16
      → Stored g (get_shard C it.collection it.key) b i entries
      → AreVersions entries
      → length entries < 2 ^ 32
      → length entries < rounds
      → (collect C rounds (suc fuel) l (at it (new_version src b i doc n ref)) >>= shown_all)
        ≡ ok (visible l it.context it.collection it.key it.path entries)
  collect-Stored zero fuel l g it src b i doc n ref entries codec sound hb hi stored versions small
        enough =
      absurd (omega arith)
  collect-Stored (suc rounds) fuel l g it src b i doc n ref [] codec sound hb hi stored versions
        small enough =
      let first : (not (b == 0)) ≡ false = ground (arith, stored) in
      collect-ends rounds (suc fuel) l _ _ _ (
        next_at_first (suc fuel) l it (new_version src b i doc n ref)
          ((links 0 src b i doc n ref hb hi).0 ∙ ap some first))
  collect-Stored (suc rounds) fuel l g it src b i doc n ref (deleted s ∷ entries) codec sound hb hi
        stored versions small enough =
      absurd versions
  collect-Stored (suc rounds) fuel l g it src b i doc n ref (version s' doc' n' ∷ entries) codec
        sound hb hi (owner, hi2, (b', i', ref', found, hb', hi', rest)) versions small enough =
      elim (Bool-cases (
        is_permitted C l (C.view doc' policy_name) it.context it.collection it.key it.path
          get_object)) [
            | inl t ↦
                ap (λ X. X >>= shown_all)
                  (collect-suc rounds (suc fuel) l _ (at (moved it previous) e') _ e' (
                    step
                    ∙ ap (λ p. ok (outcome it (new_version src b i doc n ref) previous e' p)) t))
                ∙ shown_all-cons _ e' (s', doc', n') _
                    (shown-new_version C s' b' i' doc' n' ref' (omega (arith, versions)))
                    (collect-Stored rounds fuel l g (moved it previous) s' b' i' doc' n' ref'
                      entries codec sound hb' hi' rest versions.1 (omega arith) (omega arith))
                ∙ rw (t) refl
            | inr f ↦
                collect-ends rounds (suc fuel) l _ _ _
                  (step ∙ ap (λ p. ok (outcome it (new_version src b i doc n ref) previous e' p)) f)
                ∙ rw (f) refl
          ]
    where
      shard : ℕ
      shard = get_shard C it.collection it.key

      previous : EventId
      previous = record { shard = shard; index = i; block = b }

      e' : Event Doc
      e' = new_version s' b' i' doc' n' ref'

      not_first : not (b == 0) ≡ true
      not_first = ground (arith, sound.positive b shard owner)

      step :
          next_handle C (suc fuel) l (at it (new_version src b i doc n ref))
          ≡ ok (
              outcome it (new_version src b i doc n ref) previous e' (
                is_permitted C l
                  (C.view doc' policy_name)
                  it.context
                  it.collection
                  it.key
                  it.path
                  get_object))
      step =
          next_at_version fuel l it (new_version src b i doc n ref) previous s' b' i' doc' n' ref'
            ((links shard src b i doc n ref hb hi).0 ∙ ap some not_first)
            (links shard src b i doc n ref hb hi).1
            (get_event-Sound C l g shard b i e' codec sound owner found)
