-- ===== src/Operation/Examples.antt =====
-- Tests of src/enclave/op_info.cpp, and the theorems about it on the ledgers of Ledger/Examples.
use credb.Prelude.{ℕ, ◌≡◌, refl, Bool, true, List, [], ◌∷◌, arith}
use credb.ObjectEvent.{invalid_ledger_pos, new_version}
use credb.RwLockable.{write}
use credb.Ledger.{Ledger, Name, OpContext, ok, put_object, is_valid_key}
use credb.Ledger.Write.{new_ledger}
use credb.Ledger.Operations.{prepare_write}
use credb.Ledger.Layout.{Entry, version}
use credb.Ledger.Start.{new_ledger-Represents}
use credb.Ledger.Storing.{with_entries}
use credb.Ledger.Policies.{prepare_write-Represents}
use credb.Ledger.Samples.{numbers, numbers-IsCodec, Entries}
use credb.Operation.{parse_path, put_info, do_write, shard_of, collect_shard_lock_type}
use credb.Operation.Laws.{WritesTo, do_write-WritesTo}

abbrev client : OpContext
client = record { is_valid = true; name = 99 ∷ [] }

abbrev fruit : Name
fruit = 102 ∷ []

-- `a.b`
abbrev field_path : Name
field_path = 97 ∷ 46 ∷ 98 ∷ []

abbrev equal : ℕ → ℕ → Bool
equal x y = true

abbrev no_history : Name → Name → List (Entry ℕ)
no_history c k = []

parse_field_path : parse_path field_path ≡ (97 ∷ [], 98 ∷ [])
unfolding parse_path
parse_field_path = refl

do_write-WritesTo_example :
    (l' : Ledger Entries) × (do_write numbers equal 1
        (new_ledger numbers)
        client
        0
        invalid_ledger_pos
        (put_info fruit (97 ∷ []) 7)
      ≡ ok l')
    × WritesTo numbers equal
        (new_ledger numbers)
        l'
        (with_entries no_history fruit (97 ∷ []) (version client.name 7 1 ∷ []))
        (shard_of numbers equal (put_info fruit (97 ∷ []) 7))
    × (collect_shard_lock_type numbers equal (put_info fruit (97 ∷ []) 7)
        ≡ (shard_of numbers equal (put_info fruit (97 ∷ []) 7), write) ∷ [])
unfolding parse_path new_version
do_write-WritesTo_example =
    do_write-WritesTo numbers equal 0 (new_ledger numbers) no_history client 0 invalid_ledger_pos
      (put_info fruit (97 ∷ []) 7) numbers-IsCodec (new_ledger-Represents numbers).0
      (new_ledger-Represents numbers).1 refl refl refl (omega arith) (λ b i ref. omega arith)

prepare_write-Represents_example :
    prepare_write numbers 1 (new_ledger numbers) client fruit (97 ∷ []) [] put_object ≡ ok true
unfolding is_valid_key
prepare_write-Represents_example =
    prepare_write-Represents numbers 0 (new_ledger numbers) no_history client fruit (97 ∷ []) []
      put_object numbers-IsCodec (new_ledger-Represents numbers).0 refl
