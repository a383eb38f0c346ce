-- ===== src/Ledger/Branches.antt =====
-- The branches of `apply_write` of src/enclave/Ledger.cpp, by the history that each leaves.
use credb.Prelude.{
  ℕ, ◌+◌, ◌^◌, ◌≡◌, ◌<◌, refl, ap, inl, inr, true, false, ◌||◌, not, Option, none, some, List, [],
  ◌∷◌, ◌==◌, arith, Bool-cases, if◌then◌else◌, length,
}
use credb.EventId.{EventId, invalid_event}
use credb.ObjectEvent.{Event, LedgerPos, value, version_number, new_version, initial_version_no}
use credb.Ledger.{
  Ledger, Calls, ok, Name, is_empty, get_shard, OpContext, OperationType, get_object, put_object,
  add_to_object, remove_object, call_program,
}
use credb.Ledger.Write.{
  collection_of, link, next_number, put_next_version, write_version, is_remove, index_next,
  index_first,
}
use credb.Ledger.Layout.{
  Entry, version, Stored, History, Represents, last_event, AreVersions, AreSmall,
}
use credb.Ledger.Entries.{put_next_version-Stores, remove_version-Stores}
use credb.Ledger.Specification.{is_write, set_to, changed, created, Fits, Ends}

module _ {Doc Index : Type 0} (C : Calls Doc Index) where
  put_invalid :
      (l : Ledger Index) (context : OpContext) (c k : Name) (doc : Doc) (number : ℕ) (id : EventId)
      (e : Option (Event Doc)) (ref : LedgerPos)
      → context.is_valid ≡ true
      → C.valid doc ≡ false
      → put_next_version C l context c k doc number id e ref ≡ ok (l, invalid_event)
  unfolding put_next_version
  put_invalid l context c k doc number id e ref t f = rw (t) (rw (f) refl)

  put_first-Ends :
      (l : Ledger Index) (h : History Doc) (context : OpContext) (c k : Name) (doc : Doc)
      (id : EventId) (ref : LedgerPos)
      → (r : Represents C l h) → AreSmall C l
      → context.is_valid ≡ true
      → Fits C (set_to C context doc 1 [])
      → Ends C l h c k
          (put_next_version C l context c k doc initial_version_no id none ref)
          (set_to C context doc 1 [])
  unfolding link next_number
  put_first-Ends l h context c k doc id ref r small valid fits = elim (Bool-cases (C.valid doc)) [
    | inl t ↦ rw (t) (
        put_next_version-Stores C l h context c k doc initial_version_no id none ref
          (index_first C doc k (collection_of C l c).secondary_indexes) invalid_event 1 1 [] r small
          (rw (t) at fits) valid t refl refl refl (omega arith) (omega arith) (refl, tt)
          (omega arith))
    | inr f ↦
        rw (f) (l, invalid_event, put_invalid l context c k doc _ id none ref valid f, (refl, refl))
  ]

  link_next :
      (doc : Doc) (k : Name) (number : ℕ) (id : EventId) (src : List ℕ) (b i : ℕ) (old : Doc)
      (n : ℕ) (ref : LedgerPos) (indexes : List Index)
      → (number == 1) ≡ false
      → (indexes' : List Index) × (link C doc k number id
            (some (new_version src b i old n ref))
            indexes
          ≡ ok (indexes', id, 0))
  unfolding link new_version value
  link_next doc k number id src b i old n ref [] f = ([], rw (f) refl)
  link_next doc k number id src b i old n ref (x ∷ indexes) f =
      (index_next C old doc k (x ∷ indexes), rw (f) refl)

  next_number-new_version :
      (src : List ℕ) (b i : ℕ) (old : Doc) (n : ℕ) (ref : LedgerPos)
      → n + 1 < 2 ^ 32
      → next_number C (some (new_version src b i old n ref)) ≡ ok (n + 1)
  unfolding next_number new_version version_number
  next_number-new_version src b i old n ref small = ap ok (omega arith)

  put_next-Ends :
      (l : Ledger Index) (h : History Doc) (context : OpContext) (c k : Name) (doc : Doc)
      (id : EventId) (src : List ℕ) (b i : ℕ) (old : Doc) (n : ℕ) (e_ref ref : LedgerPos)
      (entries : List (Entry Doc))
      → (r : Represents C l h) → AreSmall C l
      → context.is_valid ≡ true
      → Stored r.ghost (get_shard C c k) id.block id.index (version src old n ∷ entries)
      → id.block < 2 ^ 32
      → id.index < 2 ^ 16
      → AreVersions (version src old n ∷ entries)
      → length entries + 2 < 2 ^ 32
      → Fits C (set_to C context doc (n + 1) (version src old n ∷ entries))
      → Ends C l h c k
          (put_next_version C l context c k doc
            (n + 1)
            id
            (some (new_version src b i old n e_ref))
            ref)
          (set_to C context doc (n + 1) (version src old n ∷ entries))
  put_next-Ends l h context c k doc id src b i old n e_ref ref entries r small valid stored hb hi
        versions long fits =
      elim (Bool-cases (C.valid doc)) [
        | inl t ↦
            let (indexes, linked) =
              link_next doc k (n + 1) id src b i old n e_ref (collection_of C l c).secondary_indexes
                (ground (arith, versions)) in
            rw (t) (
              put_next_version-Stores C l h context c k doc (n + 1) id
                (some (new_version src b i old n e_ref)) ref indexes id 0 (n + 1)
                (version src old n ∷ entries) r small (rw (t) at fits) valid t linked
                (next_number-new_version src b i old n e_ref (omega (arith, versions))) stored hb hi
                (omega (arith, versions), versions) (omega arith))
        | inr f ↦
            rw (f)
              (l, invalid_event, put_invalid l context c k doc _ id _ ref valid f, (refl, refl))
      ]

  -- The branches of `apply_write` on an object that exists.
  pub write_version-Ends :
      (type : OperationType) (l : Ledger Index) (h : History Doc) (context : OpContext) (c k : Name)
      (doc : Doc) (path : Name) (id : EventId) (src : List ℕ) (b i : ℕ) (old : Doc) (n : ℕ)
      (e_ref ref : LedgerPos) (entries : List (Entry Doc))
      → (r : Represents C l h) → AreSmall C l
      → context.is_valid ≡ true
      → is_write type ≡ true
      → id.shard ≡ get_shard C c k
      → last_event l c k ≡ some id
      → Stored r.ghost (get_shard C c k) id.block id.index (version src old n ∷ entries)
      → id.block < 2 ^ 32
      → id.index < 2 ^ 16
      → AreVersions (version src old n ∷ entries)
      → length entries + 2 < 2 ^ 32
      → Fits C (changed C context doc path old n (version src old n ∷ entries) type)
      → Ends C l h c k
          (write_version C l context c k doc path type ref old
            (n + 1)
            id
            (new_version src b i old n e_ref))
          (changed C context doc path old n (version src old n ∷ entries) type)
  unfolding write_version
  write_version-Ends add_to_object l h context c k doc path id src b i old n e_ref ref entries r
        small valid write shard last stored hb hi versions long fits =
      put_next-Ends l h context c k (C.add path doc old) id src b i old n e_ref ref entries r small
        valid stored hb hi versions long fits
  write_version-Ends put_object l h context c k doc path id src b i old n e_ref ref entries r small
        valid write shard last stored hb hi versions long fits =
      put_next-Ends l h context c k (if is_empty path then doc else C.insert path doc old) id src b
        i old n e_ref ref entries r small valid stored hb hi versions long fits
  write_version-Ends remove_object l h context c k doc path id src b i old n e_ref ref entries r
        small valid write shard last stored hb hi versions long fits =
      remove_version-Stores C l h context c k id ref (version src old n ∷ entries) r small fits
        valid shard last stored hb hi (omega arith, versions) (omega arith)
  write_version-Ends get_object l h context c k doc path id src b i old n e_ref ref entries r small
        valid write shard last stored hb hi versions long fits =
      cc
  write_version-Ends call_program l h context c k doc path id src b i old n e_ref ref entries r
        small valid write shard last stored hb hi versions long fits =
      cc

  pub created-Ends :
      (l : Ledger Index) (h : History Doc) (context : OpContext) (c k : Name) (doc : Doc)
      (path : Name) (type : OperationType) (id : EventId) (ref : LedgerPos)
      → (r : Represents C l h) → AreSmall C l
      → context.is_valid ≡ true
      → Fits C (created C context doc path type)
      → Ends C l h c k
          (if not (is_empty path) || is_remove type
            then ok (l, invalid_event)
            else put_next_version C l context c k doc initial_version_no id none ref)
          (created C context doc path type)
  created-Ends l h context c k doc path type id ref r small valid fits =
      elim (Bool-cases (not (is_empty path) || is_remove type)) [
        | inl t ↦ rw (t) (l, invalid_event, refl, (refl, refl))
        | inr f ↦ rw (f) (put_first-Ends l h context c k doc id ref r small valid (rw (f) at fits))
      ]
