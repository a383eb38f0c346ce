-- ===== src/ObjectEvent/Fields.antt =====
-- What a handle of src/enclave/ObjectEventHandle.cpp reads back from the arrays that
-- src/enclave/Ledger.cpp writes.
use credb.Prelude.{ℕ, ◌%◌, ◌^◌, ◌≡◌, ◌<◌, refl, none, some, List, arith, ap}
use credb.ObjectEvent.{
  Event, LedgerPos, get_type, source, previous_block, previous_index, value, version_number,
  transaction_ref, new_version, tombstone, type_new_version, type_deletion,
}

some-mod32 : (x : ℕ) → x < 2 ^ 32 → some (x % 2 ^ 32) ≡ some x
some-mod32 x h = ap some (omega arith)

some-mod16 : (x : ℕ) → x < 2 ^ 16 → some (x % 2 ^ 16) ≡ some x
some-mod16 x h = ap some (omega arith)

module _ {Doc : Type 0} where
  -- What the fields of a handle are.
  pub record Reads (e : Event Doc) (type : ℕ) (src : List ℕ) (block index : ℕ) : Type 0 where
    pub type_read : get_type e ≡ some type
    pub source_read : source e ≡ some src
    pub block_read : previous_block e ≡ some block
    pub index_read : previous_index e ≡ some index

  pub new_version-Reads :
      (src : List ℕ) (b i : ℕ) (doc : Doc) (v : ℕ) (ref : LedgerPos)
      → b < 2 ^ 32
      → i < 2 ^ 16
      → Reads (new_version src b i doc v ref) type_new_version src b i
  unfolding new_version get_type source previous_block previous_index
  new_version-Reads src b i doc v ref hb hi = record {
    type_read = refl;
    source_read = refl;
    block_read = some-mod32 b hb;
    index_read = some-mod16 i hi;
  }

  pub tombstone-Reads :
      (src : List ℕ) (b i : ℕ) (ref : LedgerPos)
      → b < 2 ^ 32
      → i < 2 ^ 16
      → Reads (tombstone src b i ref) type_deletion src b i
  unfolding tombstone get_type source previous_block previous_index
  tombstone-Reads src b i ref hb hi = record {
    type_read = refl;
    source_read = refl;
    block_read = some-mod32 b hb;
    index_read = some-mod16 i hi;
  }

  pub value-new_version :
      (src : List ℕ) (b i : ℕ) (doc : Doc) (v : ℕ) (ref : LedgerPos)
      → value (new_version src b i doc v ref) ≡ some doc
  unfolding new_version value
  value-new_version src b i doc v ref = refl

  pub version_number-new_version :
      (src : List ℕ) (b i : ℕ) (doc : Doc) (v : ℕ) (ref : LedgerPos)
      → v < 2 ^ 32
      → version_number (new_version src b i doc v ref) ≡ some v
  unfolding new_version version_number
  version_number-new_version src b i doc v ref h = some-mod32 v h

  -- The reference to the transaction is read back from a version, and never from a tombstone: the
  -- array of a deletion has no value and no version number, so that its reference is not where the
  -- handle looks for it.
  transaction_ref-read :
      (src : List ℕ) (b i : ℕ) (doc : Doc) (v : ℕ) (ref : LedgerPos)
      → ref.block < 2 ^ 32
      → ref.index < 2 ^ 16
      → (transaction_ref (new_version src b i doc v ref) ≡ some ref)
        × (transaction_ref (tombstone {Doc = Doc} src b i ref) ≡ none)
  unfolding new_version tombstone transaction_ref
  transaction_ref-read src b i doc v ref hb hi = (ground (arith, some-mod32 ref.block hb), refl)
