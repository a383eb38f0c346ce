-- ===== src/Ledger/Latest.antt =====
-- What src/enclave/Ledger.cpp finds of an object on a ledger that stands for a history: the last event,
-- and the last version.
use credb.Prelude.{
  ℕ, suc, ◌%◌, ◌^◌, ◌≡◌, ◌<◌, refl, ap, sym, ◌∙◌, inl, inr, false, Option, none, some, List, [],
  ◌∷◌, arith, Bool-cases, if◌then◌else◌, length,
}
use credb.EventId.{EventId, invalid_event}
use credb.ObjectEvent.{
  Event, LedgerPos, get_type, source, value, version_number, new_version, tombstone,
}
use credb.Ledger.{
  Ledger, Collection, Calls, Result, ok, ◌>>=◌, field, num_shards, Name, is_empty, get_event,
  get_latest_event, get_latest_version, latest_loop, get_shard, OpContext, OperationType,
  is_permitted, policy_name, get_policy,
}
use credb.Ledger.Layout.{
  IsCodec, Ghost, Entry, version, deleted, Stored, Chained, entry_event, History, Represents,
  last_event, primary_of, IsHistory,
}
use credb.Ledger.Appends.{get_event-Sound}

pub get_shard-below :
    {Doc Index : Type 0} (C : Calls Doc Index) (c k : Name) → get_shard C c k < num_shards
unfolding get_shard
get_shard-below C c k = omega arith

module _ {Doc Index : Type 0} (C : Calls Doc Index) where
  -- `get_latest_event` from what the primary index answers.
  from_index : Ledger Index → Option EventId → Result (EventId × Option (Event Doc))
  from_index l none = ok (invalid_event, none)
  from_index l (some eid) = get_event C l eid >>= λ e. ok (eid, e)

  get_latest_event-last_event :
      (l : Ledger Index) (c k : Name)
      → is_empty k ≡ false
      → get_latest_event C l c k ≡ from_index l (last_event l c k)
  unfolding get_latest_event last_event from_index
  get_latest_event-last_event l c k named = rw (named) (by_collection (l.collections c))
    where
      by_key :
          (o : Option EventId)
          → (elim o [
            | none ↦ ok (invalid_event, none)
            | some eid ↦ get_event C l eid >>= λ e. ok (eid, e)
          ])
            ≡ from_index l o
      by_key none = refl
      by_key (some eid) = refl

      by_collection :
          (o : Option (Collection Index))
          → (elim o [
            | none ↦ ok (invalid_event, none)
            | some col ↦ elim (col.primary_index k) [
              | none ↦ ok (invalid_event, none)
              | some eid ↦ get_event C l eid >>= λ e. ok (eid, e)
            ]
          ])
            ≡ from_index l (primary_of o k)
      by_collection none = refl
      by_collection (some col) = by_key (col.primary_index k)

  -- What the calls find of an object whose history is known.
  abbrev pub FindsLast : Ledger Index → Ghost Doc → Name → Name → List (Entry Doc) → Type 0
  FindsLast l g c k [] =
      (get_latest_event C l c k ≡ ok (invalid_event, none)) × (last_event l c k ≡ none)
  FindsLast l g c k (entry ∷ entries) =
      (b : ℕ) × (i : ℕ) × (ref : LedgerPos) × (id : EventId) × (get_latest_event C l c k
        ≡ ok (id, some (entry_event entry b i ref)))
      × (last_event l c k ≡ some id)
      × (id.shard ≡ get_shard C c k)
      × (id.block < 2 ^ 32)
      × (id.index < 2 ^ 16)
      × Stored g (get_shard C c k) id.block id.index (entry ∷ entries)
      × (b < 2 ^ 32)
      × (i < 2 ^ 16)
      × Stored g (get_shard C c k) b i entries

  finds_by_index :
      (l : Ledger Index) (h : History Doc) (c k : Name) (id : Option EventId)
      (entries : List (Entry Doc))
      → IsCodec C
      → (r : Represents C l h) → is_empty k ≡ false
      → last_event l c k ≡ id
      → Chained r.ghost (get_shard C c k) id entries
      → FindsLast l r.ghost c k entries
  unfolding from_index
  finds_by_index l h c k none [] codec r named e chained =
      (get_latest_event-last_event l c k named ∙ ap (from_index l) e, e)
  finds_by_index l h c k none (x ∷ xs) codec r named e chained = cc
  finds_by_index l h c k (some id) [] codec r named e chained = absurd (omega (arith, chained))
  finds_by_index l h c k (some id) (entry ∷ entries) codec r named e
        (shard, some_entry, (owner, small, (b, i, ref, found, hb, hi, rest))) =
      (
        b,
        i,
        ref,
        id,
        get_latest_event-last_event l c k named
            ∙ ap (from_index l) e
            ∙ ap (λ x. x >>= λ found. ok (id, found))
                (get_event-Sound C l r.ghost id.shard id.block id.index (entry_event entry b i ref)
                  codec r.sound (owner ∙ ap some (sym shard)) found),
        e,
        shard,
        omega (arith, r.sound.fresh id.block (get_shard C c k) owner, r.bounded),
        small,
        (owner, small, (b, i, ref, found, hb, hi, rest)),
        hb,
        hi,
        rest,
      )

  pub get_latest_event-FindsLast :
      (l : Ledger Index) (h : History Doc) (c k : Name)
      → IsCodec C
      → (r : Represents C l h) → is_empty k ≡ false
      → FindsLast l r.ghost c k (h c k)
  get_latest_event-FindsLast l h c k codec r named =
      finds_by_index l h c k (last_event l c k) (h c k) codec r named refl (r.chained c k)

  -- What a handle shows of a version: its source, value and number.
  unfoldable pub shown : Option (Event Doc) → Result (Option (List ℕ × Doc × ℕ))
  shown none = ok none
  shown (some e) = field (source e) >>= λ src.
      field (value e) >>= λ doc. field (version_number e) >>= λ number. ok (some (src, doc, number))

  -- The last version of a history, unless the object was removed or its policy refuses.
  abbrev pub last_version :
      Ledger Index
      → OpContext
      → Name
      → Name
      → Name
      → OperationType
      → List (Entry Doc)
      → Option (List ℕ × Doc × ℕ)
  last_version l context c k path type [] = none
  last_version l context c k path type (deleted src ∷ entries) = none
  last_version l context c k path type (version src doc number ∷ entries) =
      if is_permitted C l (C.view doc policy_name) context c k path type
      then some (src, doc, number)
      else none

  pub shown-new_version :
      (src : List ℕ) (b i : ℕ) (doc : Doc) (n : ℕ) (ref : LedgerPos)
      → n < 2 ^ 32
      → shown (some (new_version src b i doc n ref)) ≡ ok (some (src, doc, n))
  unfolding shown new_version source value version_number
  shown-new_version src b i doc n ref small = let e : n % 2 ^ 32 ≡ n = omega arith in rw (e) refl

  latest_by_history :
      (fuel : ℕ) (l : Ledger Index) (g : Ghost Doc) (context : OpContext) (c k path : Name)
      (type : OperationType) (entries : List (Entry Doc))
      → FindsLast l g c k entries
      → IsHistory entries
      → length entries < 2 ^ 32
      → (get_latest_version C (suc fuel) l context c k path type >>= λ r. shown r.1)
        ≡ ok (last_version l context c k path type entries)
  unfolding get_latest_version latest_loop get_policy new_version tombstone get_type value shown
  latest_by_history fuel l g context c k path type [] (e, none_found) history small = rw (e) refl
  latest_by_history fuel l g context c k path type (deleted src ∷ entries)
        (b, i, ref, id, e, _, _, _, _, _, _, _, _) history small =
      rw (e) refl
  latest_by_history fuel l g context c k path type (version src doc n ∷ entries)
        (b, i, ref, id, e, _, _, _, _, _, _, _, _) history small =
      elim (Bool-cases (is_permitted C l (C.view doc policy_name) context c k path type)) [
        | inl t ↦ rw (e) (rw (t) (shown-new_version src b i doc n ref (omega (arith, history))))
        | inr f ↦ rw (e) (rw (f) refl)
      ]

  -- On a ledger that stands for a history, `get_latest_version` answers for each key that is not empty
  -- with the source, the value and the number of the last version, and with an invalid handle if there
  -- is none, the object was removed, or its policy refuses; one round of its loop is enough.
  pub get_latest_version-Represents :
      (fuel : ℕ) (l : Ledger Index) (h : History Doc) (context : OpContext) (c k path : Name)
      (type : OperationType)
      → IsCodec C
      → Represents C l h
      → is_empty k ≡ false
      → (get_latest_version C (suc fuel) l context c k path type >>= λ r. shown r.1)
        ≡ ok (last_version l context c k path type (h c k))
  get_latest_version-Represents fuel l h context c k path type codec r named =
      latest_by_history fuel l r.ghost context c k path type (h c k)
        (get_latest_event-FindsLast l h c k codec r named) (r.histories c k) (r.lengths c k)
