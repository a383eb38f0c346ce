-- ===== src/Ledger/Refinement.antt =====
-- `apply_write` of src/enclave/Ledger.cpp does to the history of an object what it promises.
use credb.Prelude.{
  ℕ, suc, ◌+◌, ◌%◌, ◌^◌, ◌≡◌, ◌<◌, ◌≤◌, refl, ap, sym, ◌∙◌, inl, inr, true, false, Option, none,
  some, List, [], ◌∷◌, arith, Bool-cases, if◌then◌else◌, length,
}
use credb.EventId.{EventId, invalid_event}
use credb.ObjectEvent.{LedgerPos, get_type, value, version_number, new_version, tombstone}
use credb.Ledger.{
  Ledger, Calls, Result, ok, err, ◌>>=◌, Name, is_empty, get_shard, OpContext, OperationType,
  is_permitted, policy_name, get_policy, get_previous_version, get_latest_event,
}
use credb.Ledger.Write.{next_number, write_version, write_after, apply_write, organize_ledger}
use credb.Ledger.Layout.{
  IsCodec, Entry, version, deleted, History, Represents, last_event, primary_of, IsHistory,
  AreSmall,
}
use credb.Ledger.Latest.{FindsLast, get_latest_event-FindsLast, get_shard-below}
use credb.Ledger.Sealing.{organize_ledger-AreSmall}
use credb.Ledger.Storing.{with_entries, organize-Represents}
use credb.Ledger.Specification.{is_write, written, Fits, Ends}
use credb.Ledger.Branches.{write_version-Ends, created-Ends}

module _ {Doc Index : Type 0} (C : Calls Doc Index) where
  write_after-version :
      (fuel : ℕ) (l : Ledger Index) (context : OpContext) (c k : Name) (doc : Doc) (path : Name)
      (type : OperationType) (ref : LedgerPos) (id : EventId) (src : List ℕ) (b i : ℕ) (old : Doc)
      (n : ℕ) (e_ref : LedgerPos)
      → n + 1 < 2 ^ 32
      → write_after C
          (suc fuel)
          l
          context
          c
          k
          doc
          path
          type
          ref
          (id, some (new_version src b i old n e_ref))
        ≡ (if is_permitted C l (C.view old policy_name) context c k path type
            then write_version C l context c k doc path type ref old
                (n + 1)
                id
                (new_version src b i old n e_ref)
            else ok (l, invalid_event))
  unfolding write_after get_previous_version new_version get_type value get_policy next_number
      version_number
  write_after-version fuel l context c k doc path type ref id src b i old n e_ref small =
      let number : (n % 2 ^ 32 + 1) % 2 ^ 32 ≡ n + 1 = omega arith in rw (number) refl

  -- From the last event on, by the history of the object.
  pub write_after-Ends :
      (fuel : ℕ) (l : Ledger Index) (h : History Doc) (context : OpContext) (c k : Name) (doc : Doc)
      (path : Name) (type : OperationType) (ref : LedgerPos) (entries : List (Entry Doc))
      → (r : Represents C l h) → AreSmall C l
      → context.is_valid ≡ true
      → is_write type ≡ true
      → FindsLast C l r.ghost c k entries
      → IsHistory entries
      → length entries + 1 < 2 ^ 32
      → Fits C (written C l context c k doc path type entries)
      → Ends C l h c k
          (get_latest_event C l c k >>= λ latest.
            write_after C (suc fuel) l context c k doc path type ref latest)
          (written C l context c k doc path type entries)
  unfolding write_after get_previous_version new_version tombstone get_type
  write_after-Ends fuel l h context c k doc path type ref [] r small valid write (e, last) history
        long fits =
      rw (e) (created-Ends C l h context c k doc path type invalid_event ref r small valid fits)
  write_after-Ends fuel l h context c k doc path type ref (deleted src ∷ entries) r small valid
        write (b, i, e_ref, id, e, _, _, _, _, _, _, _, _) history long fits =
      rw (e) (created-Ends C l h context c k doc path type id ref r small valid fits)
  write_after-Ends fuel l h context c k doc path type ref (version src old n ∷ entries) r small
        valid write (b, i, e_ref, id, e, last, shard, hb, hi, stored, _, _, _) history long fits =
      rw (e) (
        rw
          (write_after-version fuel l context c k doc path type ref id src b i old n e_ref
            (omega (arith, history)))
          (elim (Bool-cases (is_permitted C l (C.view old policy_name) context c k path type)) [
            | inl t ↦ rw (t) (
                write_version-Ends C type l h context c k doc path id src b i old n e_ref ref
                  entries r small valid write shard last stored hb hi history (omega arith)
                  (rw (t) at fits))
            | inr f ↦ rw (f) (l, invalid_event, refl, (refl, refl))
          ]))

  -- What `apply_write` leaves: a write that is refused changes nothing and returns the invalid event;
  -- any other leaves a ledger that stands for the history with the new entries of the object, whose
  -- primary index refers to the event that is returned.
  abbrev pub Leaves :
      Ledger Index
      → Ledger Index
      → History Doc
      → Name
      → Name
      → EventId
      → Option (List (Entry Doc))
      → Type 0
  Leaves l l' h c k id none = (id ≡ invalid_event) × (l' ≡ l)
  Leaves l l' h c k id (some entries) =
      (last_event l' c k ≡ some id)
      × Represents C l' (with_entries h c k entries)
      × AreSmall C l'
      × (l'.next_page ≤ l.next_page + 1)

  pub bind_assoc :
      {A B D : Type 0} (X : Result A) (f : A → Result B) (g : B → Result D)
      → (X >>= λ a. f a >>= g) ≡ ((X >>= f) >>= g)
  bind_assoc (ok a) f g = refl
  bind_assoc (err e) f g = refl

  apply_write_runs :
      (fuel : ℕ) (l l1 l' : Ledger Index) (context : OpContext) (c k : Name) (doc : Doc)
      (path : Name) (type : OperationType) (ref : LedgerPos) (id : EventId)
      → (get_latest_event C l c k >>= λ latest.
          write_after C fuel l context c k doc path type ref latest)
        ≡ ok (l1, id)
      → organize_ledger C l1 (get_shard C c k) ≡ ok l'
      → apply_write C fuel l context c k doc path true type ref ≡ ok (l', id)
  unfolding apply_write
  apply_write_runs fuel l l1 l' context c k doc path type ref id e o =
      bind_assoc (get_latest_event C l c k)
        (λ latest. write_after C fuel l context c k doc path type ref latest)
        (λ r. organize_ledger C r.0 (get_shard C c k) >>= λ l2. ok (l2, r.1))
      ∙ rw (e) (rw (o) refl)

  apply_write-Leaves :
      (fuel : ℕ) (l : Ledger Index) (h : History Doc) (context : OpContext) (c k : Name) (doc : Doc)
      (path : Name) (type : OperationType) (ref : LedgerPos) (entries : Option (List (Entry Doc)))
      → (r : Represents C l h) → AreSmall C l
      → l.next_page + 1 < 2 ^ 32
      → Ends C l h c k
          (get_latest_event C l c k >>= λ latest.
            write_after C (suc fuel) l context c k doc path type ref latest)
          entries
      → (l' : Ledger Index) × (id : EventId) × (apply_write C
            (suc fuel)
            l
            context
            c
            k
            doc
            path
            true
            type
            ref
          ≡ ok (l', id))
        × Leaves l l' h c k id entries
  unfolding last_event
  apply_write-Leaves fuel l h context c k doc path type ref none r small bound
        (l1, id, e, (invalid, same)) =
      (
        l,
        id,
        apply_write_runs (suc fuel) l l1 l context c k doc path type ref id e (
            ap (λ x. organize_ledger C x (get_shard C c k)) same
            ∙ organize_ledger-AreSmall C l r.ghost (get_shard C c k) r.sound small
                (get_shard-below C c k)),
        (invalid, refl),
      )
  apply_write-Leaves fuel l h context c k doc path type ref (some entries) r small bound
        (l1, id, e, stores) =
      let (l', o, represents, small', same, next) =
        organize-Represents C l1 (with_entries h c k entries) (get_shard C c k) stores.represents
          (get_shard-below C c k) (omega (arith, stores.next_page))
          (λ t b j n page. small t b j (sym (stores.there t j n) ∙ page)) in
      (
        l',
        id,
        apply_write_runs (suc fuel) l l1 l' context c k doc path type ref id e o,
        (
          ap (λ x. primary_of (x c) k) same ∙ stores.last,
          represents,
          small',
          omega (arith, stores.next_page),
        ),
      )

  -- On a ledger that stands for a history, whose pending blocks are small and which has page numbers
  -- left, a write by a valid identity under a key that is not empty ends, with one round of fuel, as
  -- `written` says: refused, with the invalid event and the ledger as it was, or with the new history
  -- of the object, those of all others as they were, pending blocks that are small again,
  -- and at most one page more; this if
  -- the new entry takes less than 2 ^ 31 bytes and the history has fewer than 2 ^ 32 - 1 entries.
  pub apply_write-written :
      (fuel : ℕ) (l : Ledger Index) (h : History Doc) (context : OpContext) (c k : Name) (doc : Doc)
      (path : Name) (type : OperationType) (ref : LedgerPos)
      → IsCodec C
      → Represents C l h
      → AreSmall C l
      → l.next_page + 1 < 2 ^ 32
      → context.is_valid ≡ true
      → is_empty k ≡ false
      → is_write type ≡ true
      → length (h c k) + 1 < 2 ^ 32
      → Fits C (written C l context c k doc path type (h c k))
      → (l' : Ledger Index) × (id : EventId) × (apply_write C
            (suc fuel)
            l
            context
            c
            k
            doc
            path
            true
            type
            ref
          ≡ ok (l', id))
        × Leaves l l' h c k id (written C l context c k doc path type (h c k))
  apply_write-written fuel l h context c k doc path type ref codec r small bound valid named write
        long fits =
      apply_write-Leaves fuel l h context c k doc path type ref
        (written C l context c k doc path type (h c k)) r small bound
        (write_after-Ends fuel l h context c k doc path type ref (h c k) r small valid write
          (get_latest_event-FindsLast C l h c k codec r named) (r.histories c k) long fits)
