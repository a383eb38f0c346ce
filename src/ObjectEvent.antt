-- ===== src/ObjectEvent.antt =====
-- src/enclave/ObjectEventHandle.h and src/enclave/ObjectEventHandle.cpp: an event of an object, a JSON
-- array that a block stores, and the fields that a handle reads from it.
pub mod Fields
use credb.Prelude.{
  ℕ, zero, suc, ◌%◌, ◌^◌, Bool, not, Option, none, some, List, [], ◌∷◌, ◌==◌, get_elem?,
}
use credb.EventId.{invalid_block}

-- A value in the array.
pub data Field (Doc : Type 0) : Type 0 where
  integer : ℕ → Field Doc
  text : List ℕ → Field Doc
  document : Doc → Field Doc

-- `m_content` of a valid handle.
abbrev pub Event : Type 0 → Type 0
Event Doc = List (Field Doc)

-- `ledger_pos_t`, and `INVALID_LEDGER_POS`.
pub record LedgerPos : Type 0 where
  pub block : ℕ
  pub index : ℕ

abbrev pub invalid_ledger_pos : LedgerPos
invalid_ledger_pos = record { block = 0; index = 0 }

-- `ObjectEventType`, by its numbers.
abbrev pub type_new_version : ℕ
type_new_version = 0

abbrev pub type_deletion : ℕ
type_deletion = 2

-- `INITIAL_VERSION_NO`.
abbrev pub initial_version_no : ℕ
initial_version_no = 1

-- A cast to an unsigned type of `w` bits.
abbrev pub cast : ℕ → Option ℕ → Option ℕ
cast w (some i) = some (i % 2 ^ w)
cast w none = none

module _ {Doc : Type 0} where
  -- `as_integer`, `as_string` and a view of a document; `none` is the exception.
  abbrev pub as_integer : Option (Field Doc) → Option ℕ
  as_integer (some (integer i)) = some i
  as_integer _ = none

  abbrev pub as_string : Option (Field Doc) → Option (List ℕ)
  as_string (some (text s)) = some s
  as_string _ = none

  abbrev pub as_document : Option (Field Doc) → Option Doc
  as_document (some (document d)) = some d
  as_document _ = none

  -- The fields `FIELD_TYPE` to `FIELD_TRANSACTION_INDEX`.
  unfoldable pub get_type : Event Doc → Option ℕ
  get_type e = as_integer (get_elem? e 0)

  unfoldable pub source : Event Doc → Option (List ℕ)
  source e = as_string (get_elem? e 1)

  unfoldable pub previous_block : Event Doc → Option ℕ
  previous_block e = cast 32 (as_integer (get_elem? e 2))

  unfoldable pub previous_index : Event Doc → Option ℕ
  previous_index e = cast 16 (as_integer (get_elem? e 3))

  unfoldable pub value : Event Doc → Option Doc
  value e = as_document (get_elem? e 4)

  unfoldable pub version_number : Event Doc → Option ℕ
  version_number e = cast 32 (as_integer (get_elem? e 5))

  unfoldable pub transaction_ref : Event Doc → Option LedgerPos
  transaction_ref e = elim (cast 32 (as_integer (get_elem? e 6))) [
    | none ↦ none
    | some b ↦ elim (cast 16 (as_integer (get_elem? e 7))) [
      | none ↦ none
      | some i ↦ some (record { block = b; index = i })
    ]
  ]

  unfoldable pub has_predecessor : Event Doc → Option Bool
  unfolding previous_block
  has_predecessor e = elim (previous_block e) [
    | none ↦ none
    | some b ↦ some (not (b == invalid_block))
  ]

  unfoldable pub is_initial_version : Event Doc → Option Bool
  unfolding version_number
  is_initial_version e = elim (version_number e) [
    | none ↦ none
    | some v ↦ some (v == initial_version_no)
  ]

  -- The arrays that `put_next_version` and `put_tombstone` of src/enclave/Ledger.cpp write.
  unfoldable pub new_version : List ℕ → ℕ → ℕ → Doc → ℕ → LedgerPos → Event Doc
  new_version source block index doc version ref =
      integer type_new_version
      ∷ text source
      ∷ integer block
      ∷ integer index
      ∷ document doc
      ∷ integer version
      ∷ integer ref.block
      ∷ integer ref.index
      ∷ []

  unfoldable pub tombstone : List ℕ → ℕ → ℕ → LedgerPos → Event Doc
  tombstone source block index ref =
      integer type_deletion
      ∷ text source
      ∷ integer block
      ∷ integer index
      ∷ integer ref.block
      ∷ integer ref.index
      ∷ []
