-- ===== src/RwLockable/Examples.antt =====
-- The theorem about src/common/util/RWLockable.inl after concrete steps.
use credb.Prelude.{refl, arith, pos}
use credb.RwLockable.{read_lock, increment}
use credb.RwLockable.Threads.{reads, State, load, exchange, initial, Reach, here, next}
use credb.RwLockable.Exclusion.{readers, writers, Counts, mutual_exclusion}

-- Two threads, of which the first has taken the lock for reading.
abbrev one_reader : (s : State) × Reach (initial 2) s
unfolding initial read_lock increment
one_reader = (
  _,
  next (next here (load 0 reads (pos 1) refl refl)) (exchange 0 reads (pos 0) (pos 1) refl refl),
)

mutual_exclusion_example :
    Counts one_reader.0.count (readers one_reader.0.threads) (writers one_reader.0.threads)
mutual_exclusion_example = mutual_exclusion 2 one_reader.0 (omega arith) one_reader.1
