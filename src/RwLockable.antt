-- ===== src/RwLockable.antt =====
-- src/common/util/RWLockable.h and src/common/util/RWLockable.inl: a lock for many readers or one
-- writer, an atomic 32-bit counter. Of each loop the model has one round: what the value that was
-- loaded makes the round do.
pub mod Threads
pub mod Exclusion
mod Examples
use credb.Prelude.{
  ℕ, zero, suc, ◌+◌, ◌-◌, ◌^◌, Bool, true, false, ◌==◌, if◌then◌else◌, ℤ, pos, negsuc, ltb,
}

pub data LockType : Type 0 where
  read write : LockType

-- A round of a loop: the call returns false, throws, goes round again, or attempts to swap the value
-- that it loaded for a new one.
pub data Attempt : Type 0 where
  returns_false throws spins : Attempt
  swaps : ℤ → Attempt

-- The initial `m_read_count`.
abbrev pub unlocked : ℤ
unlocked = pos 0

-- `val + 1` and `m_read_count--` on 32 bits.
unfoldable pub increment : ℤ → ℤ
increment (pos n) = if n == 2 ^ 31 - 1 then negsuc (2 ^ 31 - 1) else pos (n + 1)
increment (negsuc zero) = pos 0
increment (negsuc (suc n)) = negsuc n

unfoldable pub decrement : ℤ → ℤ
decrement (pos zero) = negsuc 0
decrement (pos (suc n)) = pos n
decrement (negsuc n) = if n == 2 ^ 31 - 1 then pos (2 ^ 31 - 1) else negsuc (n + 1)

unfoldable pub try_read_lock : ℤ → Attempt
unfolding increment
try_read_lock (pos n) = swaps (increment (pos n))
try_read_lock (negsuc n) = returns_false

unfoldable pub read_lock : ℤ → Attempt
unfolding increment
read_lock (pos n) = swaps (increment (pos n))
read_lock (negsuc n) = spins

unfoldable pub read_to_write_lock : ℤ → Attempt
read_to_write_lock (pos n) = if ltb 1 n then spins else swaps (negsuc 0)
read_to_write_lock (negsuc n) = throws

unfoldable pub write_to_read_lock : ℤ → Attempt
write_to_read_lock (pos n) = throws
write_to_read_lock (negsuc n) = if n == 0 then swaps (pos 1) else throws

unfoldable pub try_write_lock : ℤ → Attempt
try_write_lock (pos n) = if n == 0 then swaps (negsuc 0) else returns_false
try_write_lock (negsuc n) = returns_false

unfoldable pub write_lock : ℤ → Attempt
write_lock (pos n) = if n == 0 then swaps (negsuc 0) else spins
write_lock (negsuc n) = spins

-- `read_unlock` and `write_unlock`, each one atomic write.
unfoldable pub read_unlock : ℤ → ℤ
unfolding decrement
read_unlock count = decrement count

unfoldable pub write_unlock : ℤ → ℤ
write_unlock count = pos 0

-- `lock(lock_type)` and `unlock(lock_type)`; also those of `RWHandle`.
unfoldable pub lock : LockType → ℤ → Attempt
unfolding read_lock write_lock
lock read count = read_lock count
lock write count = write_lock count

unfoldable pub unlock : LockType → ℤ → ℤ
unfolding read_unlock write_unlock
unlock read count = read_unlock count
unlock write count = write_unlock count
