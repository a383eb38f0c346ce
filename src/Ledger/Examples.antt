-- ===== src/Ledger/Examples.antt =====
-- Tests of src/enclave/Ledger.cpp, and the theorems about it on a ledger of two versions.
use credb.Prelude.{ℕ, ◌≡◌, refl, some, List, [], ◌∷◌, arith, true, false, ◌&&◌, if◌then◌else◌}
use credb.EventId.{EventId}
use credb.Block.{new_block, end_pos}
use credb.Block.Layout.{new_block-Holds}
use credb.Block.Insert.{HasRoom}
use credb.Ledger.Appends.{small-HasRoom}
use credb.Ledger.RoundTrip.{get_latest_version-apply_write}
use credb.ObjectEvent.{invalid_ledger_pos, new_version, tombstone}
use credb.Ledger.{
  Ledger, Name, OpContext, ok, ◌>>=◌, put_object, remove_object, get_object, get_latest_version,
  is_permitted, is_empty, equal_names, OperationType,
}
use credb.Ledger.Write.{new_ledger, generate_blocks, generate_block, apply_write}
use credb.Ledger.Iterator.{iterate, collect}
use credb.Ledger.Layout.{Entry, version, deleted, Represents, AreSmall}
use credb.Ledger.Latest.{get_latest_version-Represents, shown, last_version}
use credb.Ledger.Steps.{shown_all}
use credb.Ledger.Versions.{iterate-Represents}
use credb.Ledger.Storing.{with_entries}
use credb.Ledger.Refinement.{apply_write-written, Leaves}
use credb.Ledger.Start.{new_ledger-Represents}
use credb.Ledger.Samples.{numbers, numbers-IsCodec, Entries}

abbrev client : OpContext
client = record { is_valid = true; name = 99 ∷ [] }

abbrev fruit : Name
fruit = 102 ∷ []

abbrev apple : Name
apple = 97 ∷ []

abbrev no_history : Name → Name → List (Entry ℕ)
no_history c k = []

next_page_first : (new_ledger numbers).next_page ≡ 65
unfolding new_ledger generate_blocks generate_block
next_page_first = refl

new_ledger-Represents_example :
    Represents numbers (new_ledger numbers) no_history × AreSmall numbers (new_ledger numbers)
new_ledger-Represents_example = new_ledger-Represents numbers

-- The first write creates the object.
abbrev FirstWrite : Type 0
FirstWrite =
    (l : Ledger Entries) × (id : EventId) × (apply_write numbers 1 (new_ledger numbers) client fruit
        apple 7 [] true put_object invalid_ledger_pos
      ≡ ok (l, id))
    × Leaves numbers (new_ledger numbers) l no_history fruit apple id
        (some (version client.name 7 1 ∷ []))

first_write : FirstWrite
unfolding new_version
first_write =
    apply_write-written numbers 0 (new_ledger numbers) no_history client fruit apple 7 [] put_object
      invalid_ledger_pos numbers-IsCodec (new_ledger-Represents numbers).0
      (new_ledger-Represents numbers).1 (omega (arith, next_page_first)) refl refl refl
      (omega arith) (λ b i ref. omega arith)

-- The history after it.
abbrev one_version : Name → Name → List (Entry ℕ)
one_version = with_entries no_history fruit apple (version client.name 7 1 ∷ [])

first_Represents : Represents numbers first_write.0 one_version
first_Represents = first_write.3.1

-- A second write under the same key has the version before it.
apply_write-written_example :
    (l : Ledger Entries) × (id : EventId) × (apply_write numbers 1 first_write.0 client fruit apple
        8 [] true put_object invalid_ledger_pos
      ≡ ok (l, id))
    × Leaves numbers first_write.0 l one_version fruit apple id
        (some (version client.name 8 2 ∷ version client.name 7 1 ∷ []))
unfolding new_version is_permitted
apply_write-written_example =
    apply_write-written numbers 0 first_write.0 one_version client fruit apple 8 [] put_object
      invalid_ledger_pos numbers-IsCodec first_Represents first_write.3.2
      (omega (arith, first_write.3.3, next_page_first)) refl refl refl (omega arith)
      (λ b i ref. omega arith)

get_latest_version-Represents_example :
    (get_latest_version numbers 1 first_write.0 client fruit apple [] get_object >>= λ r.
    shown numbers r.1)
    ≡ ok (some (client.name, 7, 1))
unfolding is_permitted
get_latest_version-Represents_example =
    get_latest_version-Represents numbers 0 first_write.0 one_version client fruit apple []
      get_object numbers-IsCodec first_Represents refl

iterate-Represents_example :
    (iterate numbers 1 first_write.0 client fruit apple [] >>= λ it.
    collect numbers 3 1 first_write.0 it >>= λ es. shown_all numbers es)
    ≡ ok ((client.name, 7, 1) ∷ [])
unfolding is_permitted
iterate-Represents_example =
    iterate-Represents numbers 3 0 first_write.0 one_version client fruit apple [] numbers-IsCodec
      first_Represents refl (omega arith)

get_latest_version-apply_write_example :
    (l' : Ledger Entries) × (id : EventId) × (apply_write numbers 1 first_write.0 client fruit apple
        0 [] true remove_object invalid_ledger_pos
      ≡ ok (l', id))
    × ((reader : OpContext) (c' k' path' : Name) (access : OperationType)
        → is_empty k' ≡ false
        → (get_latest_version numbers 1 l' reader c' k' path' access >>= λ r. shown numbers r.1)
          ≡ ok (
              last_version numbers l' reader c' k' path' access (
                if equal_names c' fruit && equal_names k' apple
                then deleted client.name ∷ version client.name 7 1 ∷ []
                else one_version c' k')))
unfolding tombstone is_permitted
get_latest_version-apply_write_example =
    get_latest_version-apply_write numbers 0 first_write.0 one_version client fruit apple 0 []
      remove_object invalid_ledger_pos (deleted client.name ∷ version client.name 7 1 ∷ [])
      numbers-IsCodec first_Represents first_write.3.2
      (omega (arith, first_write.3.3, next_page_first)) refl refl refl (omega arith)
      (λ b i ref. omega arith) refl

small-HasRoom_example : HasRoom [] new_block-Holds.spare (1 ∷ [])
unfolding new_block end_pos
small-HasRoom_example =
    small-HasRoom new_block [] (1 ∷ []) new_block-Holds (omega arith) (omega arith)
