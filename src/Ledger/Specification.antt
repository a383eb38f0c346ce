-- ===== src/Ledger/Specification.antt =====
-- What a write through `apply_write` of src/enclave/Ledger.cpp promises: the history it makes of its
-- object.
use credb.Prelude.{
  ℕ, ◌+◌, ◌≡◌, Bool, true, false, ◌||◌, not, Option, none, some, List, [], ◌∷◌, if◌then◌else◌,
}
use credb.EventId.{EventId, invalid_event}
use credb.Ledger.{
  Ledger, Calls, Result, ok, Name, is_empty, OpContext, OperationType, get_object, put_object,
  add_to_object, remove_object, call_program, is_permitted, policy_name,
}
use credb.Ledger.Write.{is_remove}
use credb.Ledger.Layout.{Entry, version, deleted, History, IsShort}
use credb.Ledger.Entries.{Stores}

abbrev pub is_write : OperationType → Bool
is_write get_object = false
is_write call_program = false
is_write _ = true

module _ {Doc Index : Type 0} (C : Calls Doc Index) where
  -- The entries after a document is set; none if it is not valid.
  abbrev pub set_to : OpContext → Doc → ℕ → List (Entry Doc) → Option (List (Entry Doc))
  set_to context doc number entries =
      if C.valid doc then some (version context.name doc number ∷ entries) else none

  abbrev pub changed :
      OpContext
      → Doc
      → Name
      → Doc
      → ℕ
      → List (Entry Doc)
      → OperationType
      → Option (List (Entry Doc))
  changed context doc path old number entries add_to_object =
      set_to context (C.add path doc old) (number + 1) entries
  changed context doc path old number entries put_object =
      set_to context (if is_empty path then doc else C.insert path doc old) (number + 1) entries
  changed context doc path old number entries remove_object = some (deleted context.name ∷ entries)
  changed context doc path old number entries _ = none

  abbrev pub created : OpContext → Doc → Name → OperationType → Option (List (Entry Doc))
  created context doc path type =
      if not (is_empty path) || is_remove type then none else set_to context doc 1 []

  -- What a write makes of the history of its object; none where it is refused. An object that was
  -- removed starts a new history.
  abbrev pub written :
      Ledger Index
      → OpContext
      → Name
      → Name
      → Doc
      → Name
      → OperationType
      → List (Entry Doc)
      → Option (List (Entry Doc))
  written l context c k doc path type [] = created context doc path type
  written l context c k doc path type (deleted src ∷ entries) = created context doc path type
  written l context c k doc path type (version src old number ∷ entries) =
      if is_permitted C l (C.view old policy_name) context c k path type
      then changed context doc path old number (version src old number ∷ entries) type
      else none

  -- The new entry, if there is one, is far from filling a block.
  abbrev pub Fits : Option (List (Entry Doc)) → Type 0
  Fits none = Unit
  Fits (some []) = Unit
  Fits (some (entry ∷ entries)) = IsShort C entry

  abbrev pub Writes :
      Ledger Index
      → Ledger Index
      → History Doc
      → Name
      → Name
      → EventId
      → Option (List (Entry Doc))
      → Type 0
  Writes l l' h c k id none = (id ≡ invalid_event) × (l' ≡ l)
  Writes l l' h c k id (some entries) = Stores C l l' h c k entries id

  -- How a call ends, by what it makes of the history.
  abbrev pub Ends :
      Ledger Index
      → History Doc
      → Name
      → Name
      → Result (Ledger Index × EventId)
      → Option (List (Entry Doc))
      → Type 0
  Ends l h c k r entries =
      (l' : Ledger Index) × (id : EventId) × (r ≡ ok (l', id)) × Writes l l' h c k id entries
