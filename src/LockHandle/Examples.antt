-- ===== src/LockHandle/Examples.antt =====
-- The theorems about src/enclave/LockHandle.cpp at concrete handles.
use credb.Prelude.{◌≡◌, refl, false, none, some, arith, pos}
use credb.RwLockable.{read, write}
use credb.LockHandle.{
  returns, root_of, LockInfo, Handle, root, Counters, update, no_locks, get_shard, release_shard,
  clear,
}
use credb.LockHandle.Root.{Inv, InvAfter, get_shard-Inv, release_shard-Inv, clear-frees}

-- Another thread reads shard 3; this handle reads it twice.
abbrev others : Counters
others = update (λ s. pos 0) 3 (pos 1)

abbrev twice : LockInfo
twice = record { read_count = 2; write_count = 0 }

abbrev reader : Handle
reader = record { locks = update no_locks 3 (some twice); nonblocking = false }

abbrev now : Counters
now = update others 3 (pos 2)

reader-Inv : Inv others reader now
reader-Inv s = ground arith

get_shard-Inv_example : InvAfter others (get_shard (root reader) now 3 write false)
get_shard-Inv_example =
    get_shard-Inv others reader now 3 write false reader-Inv (omega arith, omega arith)

release_shard-Inv_example :
    ((release_shard (root reader) now 3 read).outcome ≡ returns)
    × InvAfter others (release_shard (root reader) now 3 read)
release_shard-Inv_example =
    release_shard-Inv others reader now 3 twice read reader-Inv refl (omega arith, omega arith)
      (omega arith)

clear-frees_example :
    ((clear (root reader) now).counters 3 ≡ pos 1)
    × ((root_of (clear (root reader) now).handles).locks 3 ≡ none)
clear-frees_example = clear-frees others reader now 3 reader-Inv (omega arith)
