-- ===== src/LockHandle.antt =====
-- src/enclave/LockHandle.h and src/enclave/LockHandle.cpp: the locks that one operation or transaction
-- holds on the shards of a ledger, for itself or through the handle of a parent. A handle is used by
-- one thread; what other threads hold stands in the counters of the locks.
pub mod Root
mod Examples
use credb.Prelude.{
  ℕ, zero, suc, ◌+◌, ◌-◌, ◌%◌, ◌^◌, Bool, true, false, ◌&&◌, ◌||◌, Option, none, some, ◌==◌, ltb,
  if◌then◌else◌, ℤ,
}
use credb.RwLockable.{
  LockType, read, write, Attempt, returns_false, throws, spins, swaps, try_read_lock, read_lock,
  try_write_lock, write_lock, read_to_write_lock, write_to_read_lock, read_unlock, write_unlock,
}

-- `LockInfo`, without the reference to the shard.
pub record LockInfo : Type 0 where
  pub read_count : ℕ
  pub write_count : ℕ

-- `m_locks` and `m_nonblocking`.
pub record Handle : Type 0 where
  pub locks : ℕ → Option LockInfo
  pub nonblocking : Bool

-- A handle and its parents: `m_parent` is null at the root.
pub data Handles : Type 0 where
  root : Handle → Handles
  child : Handle → Handles → Handles

-- The handle itself, without its parents.
abbrev pub root_of : Handles → Handle
root_of (root h) = h
root_of (child h parent) = h

-- How a call ends: it returns, throws `would_block_exception`, waits for another thread, throws
-- `runtime_error`, or stops by `log_fatal`.
pub data Outcome : Type 0 where
  returns would_block waits runtime_error fatal : Outcome

-- The counters of the locks of the shards.
abbrev pub Counters : Type 0
Counters = ℕ → ℤ

pub record After : Type 0 where
  pub outcome : Outcome
  pub handles : Handles
  pub counters : Counters

-- `NUM_SHARDS` of the ledger.
abbrev pub num_shards : ℕ
num_shards = 64

abbrev pub update : {A : Type 0} → (ℕ → A) → ℕ → A → ℕ → A
update f i a j = if j == i then a else f j

-- The constructor of `LockInfo`, and `lock_type`.
unfoldable pub new_info : LockType → LockInfo
new_info read = record { read_count = 1; write_count = 0 }
new_info write = record { read_count = 0; write_count = 1 }

unfoldable pub lock_type : LockInfo → LockType
lock_type info = if ltb 0 info.write_count then write else read

-- `read_count += 1` and `write_count += 1`, `-= 1`, on 16 bits.
unfoldable pub count_up : LockType → LockInfo → LockInfo
count_up read info = record info { read_count = (info.read_count + 1) % 2 ^ 16 }
count_up write info = record info { write_count = (info.write_count + 1) % 2 ^ 16 }

unfoldable pub count_down : LockType → LockInfo → LockInfo
count_down read info = record info { read_count = (info.read_count + 2 ^ 16 - 1) % 2 ^ 16 }
count_down write info = record info { write_count = (info.write_count + 2 ^ 16 - 1) % 2 ^ 16 }

abbrev pub is_unused : LockInfo → Bool
is_unused info = info.read_count == 0 && info.write_count == 0

-- The round of the lock's loop that the root chooses for a shard that it holds no lock on.
unfoldable pub first_round : LockType → Bool → ℤ → Attempt
unfolding try_read_lock read_lock try_write_lock write_lock
first_round read nonblocking count = if nonblocking then try_read_lock count else read_lock count
first_round write nonblocking count = if nonblocking then try_write_lock count else write_lock count

abbrev pub set_lock : Handle → ℕ → Option LockInfo → Handle
set_lock h sid info = record h { locks = update h.locks sid info }

-- `get_shard` of a root without a lock on the shard.
unfoldable pub get_new : Handle → Counters → ℕ → LockType → Bool → After
unfolding first_round new_info
get_new h counters sid type nonblocking = elim (first_round type nonblocking (counters sid)) [
  | returns_false ↦ record { outcome = would_block; handles = root h; counters = counters }
  | throws ↦ record { outcome = runtime_error; handles = root h; counters = counters }
  | spins ↦ record { outcome = waits; handles = root h; counters = counters }
  | swaps new ↦ record {
    outcome = returns;
    handles = root (set_lock h sid (some (new_info type)));
    counters = update counters sid new;
  }
]

-- The upgrade of a root's lock. `try_read_to_write_lock` unlocks first, and then tries; if it fails
-- the entry is erased.
unfoldable pub upgrade : Handle → Counters → ℕ → LockInfo → Bool → After
unfolding read_unlock try_write_lock read_to_write_lock count_up
upgrade h counters sid info true =
    let unlocked = read_unlock (counters sid) in
    elim (try_write_lock unlocked) [
      | returns_false ↦ record {
        outcome = would_block;
        handles = root (set_lock h sid none);
        counters = update counters sid unlocked;
      }
      | throws ↦ record { outcome = runtime_error; handles = root h; counters = counters }
      | spins ↦ record { outcome = waits; handles = root h; counters = counters }
      | swaps new ↦ record {
        outcome = returns;
        handles = root (set_lock h sid (some (count_up write info)));
        counters = update counters sid new;
      }
    ]
upgrade h counters sid info false = elim (read_to_write_lock (counters sid)) [
  | returns_false ↦ record { outcome = would_block; handles = root h; counters = counters }
  | throws ↦ record { outcome = runtime_error; handles = root h; counters = counters }
  | spins ↦ record { outcome = waits; handles = root h; counters = counters }
  | swaps new ↦ record {
    outcome = returns;
    handles = root (set_lock h sid (some (count_up write info)));
    counters = update counters sid new;
  }
]

-- `get_shard` of a root with a lock on the shard.
unfoldable pub get_again : Handle → Counters → ℕ → LockInfo → LockType → Bool → After
unfolding upgrade count_up
get_again h counters sid info read nonblocking = record {
  outcome = returns;
  handles = root (set_lock h sid (some (count_up read info)));
  counters = counters;
}
get_again h counters sid info write nonblocking =
    if info.write_count == 0
    then (if info.read_count == 0
        then record { outcome = fatal; handles = root h; counters = counters }
        else upgrade h counters sid info nonblocking)
    else record {
      outcome = returns;
      handles = root (set_lock h sid (some (count_up write info)));
      counters = counters;
    }

-- `get_shard` of a child, once its parent's call has ended. The exception of a parent passes
-- through, and takes an entry of the child with it.
unfoldable pub get_through : Handle → ℕ → LockType → After → After
unfolding new_info count_up
get_through h sid type r = elim r.outcome [
  | returns ↦ record r {
    handles =
        child
          (set_lock h sid
            (some (elim (h.locks sid) [ none ↦ new_info type | some info ↦ count_up type info ])))
          r.handles;
  }
  | would_block ↦ record r {
    handles = child (elim (h.locks sid) [ none ↦ h | some info ↦ set_lock h sid none ]) r.handles;
  }
  | waits ↦ record r { handles = child h r.handles }
  | runtime_error ↦ record r { handles = child h r.handles }
  | fatal ↦ record r { handles = child h r.handles }
]

-- `get_shard`; also what `get_block` and `get_pending_block` do to the locks.
unfoldable pub get_shard : Handles → Counters → ℕ → LockType → Bool → After
unfolding get_new get_again get_through
get_shard (root h) counters sid type nonblocking = elim (h.locks sid) [
  | none ↦ get_new h counters sid type (nonblocking || h.nonblocking)
  | some info ↦ get_again h counters sid info type (nonblocking || h.nonblocking)
]
get_shard (child h parent) counters sid type nonblocking =
    get_through h sid type (get_shard parent counters sid type (nonblocking || h.nonblocking))

-- `release_shard` of a root with a lock on the shard.
unfoldable pub release_root : Handle → Counters → ℕ → LockType → LockInfo → After
unfolding count_down read_unlock write_unlock write_to_read_lock
release_root h counters sid read info =
    let info' = count_down read info in
    if is_unused info'
    then record {
      outcome = returns;
      handles = root (set_lock h sid none);
      counters = update counters sid (read_unlock (counters sid));
    }
    else record {
      outcome = returns;
      handles = root (set_lock h sid (some info'));
      counters = counters;
    }
release_root h counters sid write info =
    let info' = count_down write info in
    if is_unused info'
    then record {
      outcome = returns;
      handles = root (set_lock h sid none);
      counters = update counters sid (write_unlock (counters sid));
    }
    else if info'.write_count == 0
    then (elim (write_to_read_lock (counters sid)) [
      | swaps new ↦ record {
        outcome = returns;
        handles = root (set_lock h sid (some info'));
        counters = update counters sid new;
      }
      | _ ↦ record {
        outcome = runtime_error;
        handles = root (set_lock h sid (some info'));
        counters = counters;
      }
    ])
    else record {
      outcome = returns;
      handles = root (set_lock h sid (some info'));
      counters = counters;
    }

-- `release_shard` of a child, once its parent's call has ended: an unused entry is erased, unless the
-- parent threw.
unfoldable pub release_through : Handle → ℕ → LockInfo → After → After
release_through h sid info' r = elim r.outcome [
  | returns ↦ record r {
    handles = child (set_lock h sid (if is_unused info' then none else some info')) r.handles;
  }
  | _ ↦ record r { handles = child (set_lock h sid (some info')) r.handles }
]

-- `release_shard`; also `release_block`, of a block that is not the invalid one.
unfoldable pub release_shard : Handles → Counters → ℕ → LockType → After
unfolding release_root release_through count_down
release_shard (root h) counters sid type = elim (h.locks sid) [
  | none ↦ record { outcome = runtime_error; handles = root h; counters = counters }
  | some info ↦ release_root h counters sid type info
]
release_shard (child h parent) counters sid type =
    let r = release_shard parent counters sid type in
    elim (h.locks sid) [
      | none ↦ record { outcome = runtime_error; handles = child h parent; counters = counters }
      | some info ↦ release_through h sid (count_down type info) r
    ]

-- `clear` of a root, over the shards below `n`; an `unordered_map` gives its entries in some order.
unfoldable pub clear_root : ℕ → Handle → Counters → Counters
unfolding lock_type read_unlock write_unlock
clear_root zero h counters = counters
clear_root (suc n) h counters =
    let rest = clear_root n h counters in
    elim (h.locks n) [
      | none ↦ rest
      | some info ↦
          update rest n
            (elim (lock_type info) [ read ↦ read_unlock (rest n) | write ↦ write_unlock (rest n) ])
    ]

-- The loops of `clear` that give one shard back to the parent, `n` times.
unfoldable pub release_times : ℕ → After → ℕ → LockType → After
unfolding release_shard
release_times zero r sid type = r
release_times (suc n) r sid type =
    let again = release_shard r.handles r.counters sid type in
    elim r.outcome [ returns ↦ release_times n again sid type | _ ↦ r ]

-- `clear` of a child, over the shards below `n`.
unfoldable pub clear_child : ℕ → Handle → After → After
unfolding release_times
clear_child zero h r = r
clear_child (suc n) h r =
    let rest = clear_child n h r in
    elim (h.locks n) [
      | none ↦ rest
      | some info ↦
          release_times info.write_count (release_times info.read_count rest n read) n write
    ]

abbrev pub no_locks : ℕ → Option LockInfo
no_locks s = none

-- `clear`, and the destructor.
unfoldable pub clear : Handles → Counters → After
unfolding clear_root clear_child
clear (root h) counters = record {
  outcome = returns;
  handles = root (record h { locks = no_locks });
  counters = clear_root num_shards h counters;
}
clear (child h parent) counters =
    let r =
      clear_child num_shards h
        (record { outcome = returns; handles = parent; counters = counters }) in
    record r { handles = child (record h { locks = no_locks }) r.handles }

-- `num_locks`, over the shards below `n`.
unfoldable pub num_locks : ℕ → Handle → ℕ
num_locks zero h = 0
num_locks (suc n) h = elim (h.locks n) [ none ↦ num_locks n h | some info ↦ suc (num_locks n h) ]
