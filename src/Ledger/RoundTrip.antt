-- ===== src/Ledger/RoundTrip.antt =====
-- What is read after a write of src/enclave/Ledger.cpp.
use credb.Prelude.{ℕ, suc, ◌+◌, ◌^◌, ◌≡◌, ◌<◌, true, false, ◌&&◌, some, List, if◌then◌else◌, length}
use credb.EventId.{EventId}
use credb.ObjectEvent.{LedgerPos}
use credb.Ledger.{
  Ledger, Calls, ok, ◌>>=◌, Name, is_empty, equal_names, OpContext, OperationType,
  get_latest_version,
}
use credb.Ledger.Write.{apply_write}
use credb.Ledger.Layout.{IsCodec, Entry, History, Represents, AreSmall}
use credb.Ledger.Latest.{shown, last_version, get_latest_version-Represents}
use credb.Ledger.Storing.{with_entries}
use credb.Ledger.Specification.{written, is_write, Fits}
use credb.Ledger.Refinement.{Leaves, apply_write-written}

module _ {Doc Index : Type 0} (C : Calls Doc Index) where
  -- After a write that is not refused, `get_latest_version` answers for the object of the write from
  -- its new entries, and for every other object as the history did; under the conditions of a write,
  -- for every reader and every key that is not empty.
  pub get_latest_version-apply_write :
      (fuel : ℕ) (l : Ledger Index) (h : History Doc) (context : OpContext) (c k : Name) (doc : Doc)
      (path : Name) (type : OperationType) (ref : LedgerPos) (entries : List (Entry Doc))
      → IsCodec C
      → Represents C l h
      → AreSmall C l
      → l.next_page + 1 < 2 ^ 32
      → context.is_valid ≡ true
      → is_empty k ≡ false
      → is_write type ≡ true
      → length (h c k) + 1 < 2 ^ 32
      → Fits C (some entries)
      → written C l context c k doc path type (h c k) ≡ some entries
      → (l' : Ledger Index) × (id : EventId) × (apply_write C
            (suc fuel)
            l
            context
            c
            k
            doc
            path
            true
            type
            ref
          ≡ ok (l', id))
        × ((reader : OpContext) (c' k' path' : Name) (access : OperationType)
            → is_empty k' ≡ false
            → (get_latest_version C (suc fuel) l' reader c' k' path' access >>= λ r. shown C r.1)
              ≡ ok (
                  last_version C l' reader c' k' path' access
                    (if equal_names c' c && equal_names k' k then entries else h c' k')))
  get_latest_version-apply_write fuel l h context c k doc path type ref entries codec r small bound
        valid named write long fits accepted =
      let (l', id, e, leaves) =
        apply_write-written C fuel l h context c k doc path type ref codec r small bound valid named
          write long (rw (accepted) fits) in
      let left : Leaves C l l' h c k id (some entries) = rw (accepted) at leaves in
      (
        l',
        id,
        e,
        λ reader c' k' path' access named'.
            get_latest_version-Represents C fuel l' (with_entries h c k entries) reader c' k' path'
              access codec left.1 named',
      )
