-- ===== src/RwLockable/Threads.antt =====
-- Threads that share one lock of src/common/util/RWLockable.inl: each load, each compare-and-exchange
-- and each unlock is a step, in any order. `try_read_to_write_lock` is a `read_unlock` and then a
-- `try_write_lock`, and `compare_exchange_weak` may fail without a reason.
use credb.Prelude.{ℕ, ◌≡◌, List, some, get_elem?, set, ℤ, replicate}
use credb.RwLockable.{
  Attempt, swaps, unlocked, try_read_lock, read_lock, read_to_write_lock, write_to_read_lock,
  try_write_lock, write_lock, read_unlock, write_unlock,
}

-- The calls that load and then exchange the counter.
pub data Call : Type 0 where
  reads tries_read writes tries_write upgrades downgrades : Call

-- What a thread holds.
pub data Hold : Type 0 where
  nothing shared exclusive : Hold

-- A thread rests, or has loaded a value and is about to exchange it for another.
pub data Phase : Type 0 where
  rests : Hold → Phase
  swapping : Call → ℤ → ℤ → Phase

abbrev pub attempt : Call → ℤ → Attempt
attempt reads = read_lock
attempt tries_read = try_read_lock
attempt writes = write_lock
attempt tries_write = try_write_lock
attempt upgrades = read_to_write_lock
attempt downgrades = write_to_read_lock

-- What the caller must hold, by the notes in RWLockable.h, and what the call gives it.
abbrev pub needs : Call → Hold
needs reads = nothing
needs tries_read = nothing
needs writes = nothing
needs tries_write = nothing
needs upgrades = shared
needs downgrades = exclusive

abbrev pub gains : Call → Hold
gains reads = shared
gains tries_read = shared
gains writes = exclusive
gains tries_write = exclusive
gains upgrades = exclusive
gains downgrades = shared

pub record State : Type 0 where
  pub count : ℤ
  pub threads : List Phase

pub data Step (s : State) : State → Type 0 where
  load :
      (i : ℕ) (c : Call) (new : ℤ)
      → get_elem? s.threads i ≡ some (rests (needs c))
      → attempt c s.count ≡ swaps new
      → Step s (record { count = s.count; threads = set s.threads i (swapping c s.count new) })
  exchange :
      (i : ℕ) (c : Call) (val new : ℤ)
      → get_elem? s.threads i ≡ some (swapping c val new)
      → s.count ≡ val
      → Step s (record { count = new; threads = set s.threads i (rests (gains c)) })
  exchange_fails :
      (i : ℕ) (c : Call) (val new : ℤ)
      → get_elem? s.threads i ≡ some (swapping c val new)
      → Step s (record { count = s.count; threads = set s.threads i (rests (needs c)) })
  unlock_read :
      (i : ℕ)
      → get_elem? s.threads i ≡ some (rests shared)
      → Step s (record { count = read_unlock s.count; threads = set s.threads i (rests nothing) })
  unlock_write :
      (i : ℕ)
      → get_elem? s.threads i ≡ some (rests exclusive)
      → Step s (record { count = write_unlock s.count; threads = set s.threads i (rests nothing) })

-- `n` threads and a new lock.
unfoldable pub initial : ℕ → State
initial n = record { count = unlocked; threads = replicate n (rests nothing) }

pub data Reach (s : State) : State → Type 0 where
  here : Reach s s
  next : {t u : State} → Reach s t → Step t u → Reach s u
