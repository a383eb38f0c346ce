-- ===== src/LockHandle/Root.antt =====
-- The root handle of src/enclave/LockHandle.cpp holds on each shard what its counts say, and gives
-- back exactly what it took.
use credb.Prelude.{
  ℕ, zero, suc, ◌+◌, ◌-◌, ◌^◌, ◌≡◌, ◌<◌, ◌≤◌, ◌⊎◌, inl, inr, refl, Bool, true, false, Option, none,
  some, arith, ℤ, pos, negsuc, Option-cases, subst, ◌||◌,
}
use credb.RwLockable.{
  LockType, read, write, read_unlock, write_unlock, increment, decrement, try_read_lock, read_lock,
  try_write_lock, write_lock, read_to_write_lock, write_to_read_lock,
}
use credb.LockHandle.{
  returns, root_of, LockInfo, Handle, root, Counters, After, get_new, get_again, upgrade, get_shard,
  release_root, release_shard, clear_root, clear, num_shards, first_round, new_info, count_up,
  count_down, lock_type,
}

-- The counter is that of one more reader than `free` counts.
abbrev pub OneReader : ℤ → ℤ → Type 0
OneReader (pos n) count = (count ≡ pos (n + 1)) × (n + 1 < 2 ^ 31 - 1)
OneReader (negsuc n) count = ⊥

-- A shard's counter, against the one it would have without this handle. No entry: the same. An entry
-- with a write count: nobody else holds the lock, and it is locked for writing. Otherwise: locked for
-- reading once more.
abbrev pub Consistent : Option LockInfo → ℤ → ℤ → Type 0
Consistent none free count = count ≡ free
Consistent (some info) free count =
    ((0 < info.write_count) × (free ≡ pos 0) × (count ≡ negsuc 0))
    ⊎ ((info.write_count ≡ 0) × (0 < info.read_count) × OneReader free count)

abbrev pub Inv : Counters → Handle → Counters → Type 0
Inv free h counters = (s : ℕ) → Consistent (h.locks s) (free s) (counters s)

-- The same of what a call left behind.
abbrev pub InvAfter : Counters → After → Type 0
InvAfter free r = Inv free (root_of r.handles) r.counters

-- The counts of an entry can go up, and a lock that others read has not too many readers.
abbrev pub Small : Option LockInfo → ℤ → Type 0
Small none (pos n) = n + 1 < 2 ^ 31 - 1
Small none (negsuc n) = Unit
Small (some info) free = (info.read_count < 2 ^ 16 - 1) × (info.write_count < 2 ^ 16 - 1)

-- What the handle holds of a type.
abbrev pub count_of : LockType → LockInfo → ℕ
count_of read info = info.read_count
count_of write info = info.write_count

get_new-Inv :
    (free : Counters) (h : Handle) (counters : Counters) (sid : ℕ) (type : LockType) (nb : Bool)
    → Inv free h counters
    → h.locks sid ≡ none
    → Small none (free sid)
    → InvAfter free (get_new h counters sid type nb)
unfolding get_new first_round new_info try_read_lock read_lock try_write_lock write_lock increment
get_new-Inv free h counters sid read true v e small s = ground (arith, v s, v sid)
get_new-Inv free h counters sid read false v e small s = ground (arith, v s, v sid)
get_new-Inv free h counters sid write true v e small s = ground (arith, v s, v sid)
get_new-Inv free h counters sid write false v e small s = ground (arith, v s, v sid)

get_again-Inv :
    (free : Counters) (h : Handle) (counters : Counters) (sid : ℕ) (info : LockInfo)
    (type : LockType) (nb : Bool)
    → Inv free h counters
    → h.locks sid ≡ some info
    → Small (some info) (free sid)
    → InvAfter free (get_again h counters sid info type nb)
unfolding get_again upgrade count_up try_write_lock read_to_write_lock read_unlock decrement
get_again-Inv free h counters sid info read nb v e small s = ground (arith, v s, v sid)
get_again-Inv free h counters sid info write true v e small s = ground (arith, v s, v sid)
get_again-Inv free h counters sid info write false v e small s = ground (arith, v s, v sid)

release_root-Inv :
    (free : Counters) (h : Handle) (counters : Counters) (sid : ℕ) (info : LockInfo)
    (type : LockType)
    → Inv free h counters
    → h.locks sid ≡ some info
    → Small (some info) (free sid)
    → 0 < count_of type info
    → ((release_root h counters sid type info).outcome ≡ returns)
      × InvAfter free (release_root h counters sid type info)
unfolding release_root count_down write_to_read_lock read_unlock write_unlock decrement
release_root-Inv free h counters sid info read v e small held =
    (ground (arith, v sid), λ s. ground (arith, v s, v sid))
release_root-Inv free h counters sid info write v e small held =
    (ground (arith, v sid), λ s. ground (arith, v s, v sid))

-- A root handle keeps `Inv`, the agreement of its counts with the counters of the locks, through
-- `get_shard` of any shard and type, blocking or not, however the call ends. An entry that is
-- there has counts below 65535; if there is none, the readers are too few for the counter to
-- overflow.
pub get_shard-Inv :
    (free : Counters) (h : Handle) (counters : Counters) (sid : ℕ) (type : LockType) (nb : Bool)
    → Inv free h counters
    → Small (h.locks sid) (free sid)
    → InvAfter free (get_shard (root h) counters sid type nb)
unfolding get_shard
get_shard-Inv free h counters sid type nb v small = elim (Option-cases (h.locks sid)) [
  | inl e ↦ λ s. ground (
    arith,
    get_new-Inv free h counters sid type (nb || h.nonblocking) v e
        (subst (λ o. Small o (free sid)) e small) s,
    e,
  )
  | inr (info, e) ↦ λ s. ground (
    arith,
    get_again-Inv free h counters sid info type (nb || h.nonblocking) v e
        (subst (λ o. Small o (free sid)) e small) s,
    e,
  )
]

-- `release_shard` of a lock that the root handle holds of that type returns and keeps `Inv`, if
-- the counts of the entry are below 65535.
pub release_shard-Inv :
    (free : Counters) (h : Handle) (counters : Counters) (sid : ℕ) (info : LockInfo)
    (type : LockType)
    → Inv free h counters
    → h.locks sid ≡ some info
    → Small (some info) (free sid)
    → 0 < count_of type info
    → ((release_shard (root h) counters sid type).outcome ≡ returns)
      × InvAfter free (release_shard (root h) counters sid type)
unfolding release_shard
release_shard-Inv free h counters sid info type v e small held =
    let (ends, inv) = release_root-Inv free h counters sid info type v e small held in
    (ground (arith, e, ends), λ s. ground (arith, inv s, e))

clear_root-frees :
    (free : Counters) (h : Handle) (counters : Counters) (n s : ℕ)
    → Inv free h counters
    → (s < n → clear_root n h counters s ≡ free s)
      × (n ≤ s → clear_root n h counters s ≡ counters s)
unfolding clear_root lock_type read_unlock write_unlock decrement
clear_root-frees free h counters zero s v = ground arith
clear_root-frees free h counters (suc n) s v =
    ground (arith, v s, clear_root-frees free h counters n s v)

-- `clear` of a root handle whose counts agree with the counters gives back the lock of every
-- shard: each counter is afterwards what it would be without the handle, and no entry is left.
pub clear-frees :
    (free : Counters) (h : Handle) (counters : Counters) (s : ℕ)
    → Inv free h counters
    → s < num_shards
    → ((clear (root h) counters).counters s ≡ free s)
      × ((root_of (clear (root h) counters).handles).locks s ≡ none)
unfolding clear
clear-frees free h counters s v small =
    ((clear_root-frees free h counters num_shards s v).0 small, refl)
