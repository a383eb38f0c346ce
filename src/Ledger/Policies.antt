-- ===== src/Ledger/Policies.antt =====
-- `prepare_write`, with the policy of a collection, and `has_object` of src/enclave/Ledger.cpp and
-- src/enclave/Ledger.inl on a ledger that stands for a history.
use credb.Prelude.{
  ℕ, suc, ◌≡◌, refl, ap, sym, ◌∙◌, inl, inr, Bool, true, false, ◌&&◌, not, Option, none, some, List,
  [], ◌∷◌, ◌==◌, arith, Bool-cases,
}
use credb.EventId.{EventId, is_valid}
use credb.ObjectEvent.{type_new_version, get_type, value, new_version, tombstone}
use credb.Ledger.{
  Ledger, Collection, Calls, Error, Result, ok, err, ◌>>=◌, field, Name, get_event, get_shard,
  OpContext, empty_context, OperationType, get_object, is_permitted, check_object_policy,
  policy_name, get_policy, get_latest_version, latest_loop, has_object, is_valid_key,
}
use credb.Ledger.Iterator.{iterate, next, next_handle, check_event}
use credb.Ledger.Operations.{check_collection_policy, prepare_write}
use credb.Ledger.Layout.{
  IsCodec, Ghost, Entry, version, deleted, Sound, Chained, History, Represents, last_event,
  primary_of,
}
use credb.Ledger.Appends.{get_event-Sound}
use credb.Ledger.Latest.{FindsLast, get_latest_event-FindsLast}

module _ {Doc Index : Type 0} (C : Calls Doc Index) where
  -- What the policy of a collection says: it is the last version of the object `policy`.
  abbrev pub collection_permits :
      Ledger Index → OpContext → Name → Name → Name → OperationType → List (Entry Doc) → Bool
  collection_permits l context c k path type (version src doc n ∷ entries) =
      C.run_policy l doc context c k path type
  collection_permits l context c k path type _ = true

  -- A context without an identity is never asked for a policy.
  is_permitted_empty :
      (l : Ledger Index) (policy : Option Doc) (c k path : Name) (type : OperationType)
      → is_permitted C l policy empty_context c k path type ≡ true
  unfolding is_permitted check_object_policy
  is_permitted_empty l none c k path type = refl
  is_permitted_empty l (some policy) c k path type = refl

  policy_by_history :
      (fuel : ℕ) (l : Ledger Index) (g : Ghost Doc) (context : OpContext) (c k path : Name)
      (type : OperationType) (entries : List (Entry Doc))
      → context.is_valid ≡ true
      → Sound C l g
      → FindsLast C l g c policy_name entries
      → check_collection_policy C (suc fuel) l context c k path type
        ≡ ok (collection_permits l context c k path type entries)
  unfolding check_collection_policy iterate next next_handle check_event get_latest_version
      latest_loop get_policy is_permitted check_object_policy is_valid new_version tombstone
      get_type value
  policy_by_history fuel l g context c k path type [] valid sound (e, last) =
      rw (valid) (rw (e) refl)
  policy_by_history fuel l g context c k path type (deleted src ∷ entries) valid sound
        (b, i, ref, id, e, _, _, _, _, _, _, _, _) =
      rw (valid) (rw (e) refl)
  policy_by_history fuel l g context c k path type (version src doc n ∷ entries) valid sound
        (b, i, ref, id, e, _, _, _, _, (owner, _, _), _, _, _) =
      let stands : not (id.block == 0) ≡ true =
        ground (arith, sound.positive id.block (get_shard C c policy_name) owner) in
      let permitted = is_permitted_empty l (C.view doc policy_name) c policy_name [] get_object in
      rw (valid) (rw (e) (rw (permitted) (rw (permitted) (rw (stands) refl))))

  -- `prepare_write` of a valid identity on a ledger that stands for a history: it refuses a key that is
  -- empty or has a character that is not alphanumeric or an underscore, and otherwise answers as the
  -- last version of the object `policy` of the collection, or with true if there is none.
  pub prepare_write-Represents :
      (fuel : ℕ) (l : Ledger Index) (h : History Doc) (context : OpContext) (c k path : Name)
      (type : OperationType)
      → IsCodec C
      → Represents C l h
      → context.is_valid ≡ true
      → prepare_write C (suc fuel) l context c k path type
        ≡ ok (is_valid_key k && collection_permits l context c k path type (h c policy_name))
  unfolding prepare_write
  prepare_write-Represents fuel l h context c k path type codec r valid =
      elim (Bool-cases (is_valid_key k)) [
        | inl t ↦ rw (t) (
            policy_by_history fuel l r.ghost context c k path type (h c policy_name) valid r.sound
              (get_latest_event-FindsLast C l h c policy_name codec r refl))
        | inr f ↦ rw (f) refl
      ]

  -- Whether a history ends with a version.
  abbrev pub exists : List (Entry Doc) → Bool
  exists (version src doc n ∷ entries) = true
  exists _ = false

  -- `has_object` from what the primary index answers.
  from_last : Ledger Index → Option EventId → Result Bool
  from_last l none = ok false
  from_last l (some eid) = get_event C l eid >>= λ event. elim event [
    | none ↦ err Error.malformed_event
    | some e ↦ field (get_type e) >>= λ type. ok (type == type_new_version)
  ]

  has_object-last_event :
      (l : Ledger Index) (c k : Name) → has_object C l c k ≡ from_last l (last_event l c k)
  unfolding has_object last_event from_last
  has_object-last_event l c k = by_collection (l.collections c)
    where
      by_key :
          (o : Option EventId)
          → (elim o [
            | none ↦ ok false
            | some eid ↦ get_event C l eid >>= λ event. elim event [
              | none ↦ err Error.malformed_event
              | some e ↦ field (get_type e) >>= λ type. ok (type == type_new_version)
            ]
          ])
            ≡ from_last l o
      by_key none = refl
      by_key (some eid) = refl

      by_collection :
          (o : Option (Collection Index))
          → (elim o [
            | none ↦ ok false
            | some col ↦ elim (col.primary_index k) [
              | none ↦ ok false
              | some eid ↦ get_event C l eid >>= λ event. elim event [
                | none ↦ err Error.malformed_event
                | some e ↦ field (get_type e) >>= λ type. ok (type == type_new_version)
              ]
            ]
          ])
            ≡ from_last l (primary_of o k)
      by_collection none = refl
      by_collection (some col) = by_key (col.primary_index k)

  has_by_index :
      (l : Ledger Index) (g : Ghost Doc) (s : ℕ) (id : Option EventId) (entries : List (Entry Doc))
      → IsCodec C
      → Sound C l g
      → Chained g s id entries
      → from_last l id ≡ ok (exists entries)
  unfolding from_last new_version tombstone get_type
  has_by_index l g s none entries codec sound e = rw (e) refl
  has_by_index l g s (some id) [] codec sound (shard, some_entry, stored) = absurd (omega arith)
  has_by_index l g s (some id) (version src doc n ∷ entries) codec sound
        (shard, some_entry, (owner, small, (b, i, ref, found, hb, hi, rest))) =
      rw
        (get_event-Sound C l g id.shard id.block id.index (new_version src b i doc n ref) codec
          sound (owner ∙ ap some (sym shard)) found)
        refl
  has_by_index l g s (some id) (deleted src ∷ entries) codec sound
        (shard, some_entry, (owner, small, (b, i, ref, found, hb, hi, rest))) =
      rw
        (get_event-Sound C l g id.shard id.block id.index (tombstone src b i ref) codec sound
          (owner ∙ ap some (sym shard)) found)
        refl

  -- `has_object` on a ledger that stands for a history answers true exactly for the objects whose last
  -- entry is a version.
  pub has_object-Represents :
      (l : Ledger Index) (h : History Doc) (c k : Name)
      → IsCodec C
      → Represents C l h
      → has_object C l c k ≡ ok (exists (h c k))
  has_object-Represents l h c k codec r =
      has_object-last_event l c k
      ∙ has_by_index l r.ghost (get_shard C c k) (last_event l c k) (h c k) codec r.sound
          (r.chained c k)
