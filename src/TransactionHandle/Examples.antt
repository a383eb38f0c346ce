-- ===== src/TransactionHandle/Examples.antt =====
-- Tests of src/enclave/TransactionHandle.cpp, and the theorems about it at concrete sets.
use credb.Prelude.{ℕ, ◌≡◌, refl, some, List, [], ◌∷◌, arith, All}
use credb.EventId.{EventId, lt, order, event_eq}
use credb.TransactionHandle.{OpSet, write_ops, read_ops, get_boundaries}
use credb.TransactionHandle.Covering.{IsCovered, AreRanges, get_boundaries-IsCovered}
use credb.TransactionHandle.RoundTrip.{read_ops-write_ops}

abbrev event : ℕ → ℕ → ℕ → EventId
event s b i = record { shard = s; index = i; block = b }

abbrev done : OpSet
done = record { reads = event 1 2 3 ∷ event 1 2 9 ∷ []; writes = event 1 1 7 ∷ event 4 0 0 ∷ [] }

get_boundaries-IsCovered_example :
    All (IsCovered (get_boundaries done)) done.reads
    × All (IsCovered (get_boundaries done)) done.writes
    × AreRanges (get_boundaries done)
get_boundaries-IsCovered_example = get_boundaries-IsCovered done

read_ops-write_ops_example : read_ops (write_ops done.reads) ≡ some done.reads
unfolding lt order event_eq
read_ops-write_ops_example =
    read_ops-write_ops done.reads
      ((omega arith, omega arith, omega arith), ((omega arith, omega arith, omega arith), tt))
      ((refl, tt), (tt, tt))

-- One integer too many.
abbrev torn : List ℕ
torn = 1 ∷ 2 ∷ 3 ∷ 4 ∷ []
