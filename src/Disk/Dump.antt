-- ===== src/Disk/Dump.antt =====
-- `dump_everything` and `load_everything` of src/server/Disk.cpp: all files in one file of the host.
-- A write by the host that fails leaves nothing of it.
use credb.Prelude.{
  ℕ, zero, suc, ◌+◌, ◌*◌, ◌/◌, ◌%◌, Bool, true, false, ◌||◌, Option, none, some, List, [], ◌∷◌,
  ◌++◌, if◌then◌else◌, length,
}
use credb.Prelude.Names.{Name, insert_name, erase_name}
use credb.Disk.{
  Disk, Shard, FileSystem, Result, ok, err, never_returns, unlocked_twice, ◌>>=◌, to_shard, lock,
  update_shard, more, num_shards,
}

-- A number in `k` bytes, the lowest first, and back.
unfoldable pub to_bytes : ℕ → ℕ → List ℕ
to_bytes zero n = []
to_bytes (suc k) n = n % 256 ∷ to_bytes k (n / 256)

unfoldable pub from_bytes : List ℕ → ℕ
from_bytes [] = 0
from_bytes (b ∷ bs) = b + 256 * from_bytes bs

-- What `dump_everything` writes for one file.
unfoldable pub dump_file : Name → List ℕ → List ℕ
unfolding to_bytes
dump_file n x = to_bytes 4 (length n) ++ (n ++ (to_bytes 8 (length x) ++ x))

unfoldable pub dump_files : List (Name × List ℕ) → List ℕ
unfolding dump_file
dump_files [] = []
dump_files ((n, x) ∷ files) = dump_file n x ++ dump_files files

unfoldable pub dump_shard : Shard → List ℕ
unfolding to_bytes dump_files
dump_shard s = to_bytes 4 (length s.files) ++ dump_files s.files

-- `fin.read` of so many bytes, with what is left.
unfoldable pub read_bytes : ℕ → List ℕ → Option (List ℕ × List ℕ)
read_bytes zero bs = some ([], bs)
read_bytes (suc k) [] = none
read_bytes (suc k) (b ∷ bs) = elim (read_bytes k bs) [
  | none ↦ none
  | some (x, rest) ↦ some (b ∷ x, rest)
]

unfoldable pub read_number : ℕ → List ℕ → Option (ℕ × List ℕ)
unfolding read_bytes from_bytes
read_number k bs = elim (read_bytes k bs) [
  | none ↦ none
  | some (x, rest) ↦ some (from_bytes x, rest)
]

module _ {F : Type 0} (S : FileSystem F) (hash : Name → ℕ) where
  -- `unlock` of the mutex of a shard.
  unfoldable pub unlock : Shard → Result Shard
  unlock s = if s.locked then ok (record s { locked = false }) else err unlocked_twice

  -- The loop of `dump_everything`, over `rounds` shards from the given one: each opens the file anew,
  -- which empties it. The shard is unlocked by the call at the end of the round, and then by the guard.
  unfoldable pub dump_shards : Name → ℕ → ℕ → Disk F → Result (Disk F × Bool)
  unfolding lock unlock dump_shard
  dump_shards filename zero i d = ok (d, true)
  dump_shards filename (suc rounds) i d = lock (d.shards i) >>= λ s.
      elim (S.write d.host filename (dump_shard s)) [
        | none ↦ unlock s >>= λ s1. ok (record d { shards = update_shard d.shards i s1 }, false)
        | some host' ↦ unlock s >>= λ s1. unlock s1 >>= λ s2.
            dump_shards filename rounds (suc i)
              (record d { host = host'; shards = update_shard d.shards i s2 })
      ]

  -- `dump_everything`.
  unfoldable pub dump_everything : Name → Disk F → Result (Disk F × Bool)
  unfolding dump_shards
  dump_everything filename d = dump_shards filename num_shards 0 d

  -- An older file of the name goes, and the number of files is counted up.
  unfoldable pub begin_file : Name → Disk F → Disk F
  unfolding to_shard
  begin_file n d =
      let s = d.shards (to_shard S hash n) in
      record d {
        num_files = more d.num_files 1;
        shards =
            update_shard d.shards (to_shard S hash n) (record s { files = erase_name n s.files });
      }

  unfoldable pub store_file : Name → List ℕ → Disk F → Disk F
  unfolding to_shard
  store_file n x d =
      let s = d.shards (to_shard S hash n) in
      record d {
        shards =
            update_shard d.shards (to_shard S hash n)
              (record s { files = insert_name n x s.files });
      }

  -- The loop of `load_everything`: the disk so far, and whether every read succeeded.
  unfoldable pub load_files : ℕ → Disk F → List ℕ → Disk F × Bool
  unfolding read_number read_bytes begin_file store_file
  load_files zero d bs = (d, true)
  load_files (suc rounds) d bs = elim (read_number 4 bs) [
    | none ↦ (d, false)
    | some (len, bs1) ↦ elim (read_bytes len bs1) [
      | none ↦ (d, false)
      | some (n, bs2) ↦ elim (read_number 8 bs2) [
        | none ↦ (begin_file n d, false)
        | some (size, bs3) ↦ elim (read_bytes size bs3) [
          | none ↦ (begin_file n d, false)
          | some (x, bs4) ↦ load_files rounds (store_file n x (begin_file n d)) bs4
        ]
      ]
    ]
  ]

  -- Whether one of the first shards is locked.
  unfoldable pub is_locked : ℕ → (ℕ → Shard) → Bool
  is_locked zero f = false
  is_locked (suc i) f = (f i).locked || is_locked i f

  abbrev pub with_locks : Bool → Disk F → Disk F
  with_locks b d = record d { shards = λ i. record (d.shards i) { locked = b } }

  -- `load_everything`: a read that fails returns with every shard locked.
  unfoldable pub load_everything : Name → Disk F → Result (Disk F × Bool)
  unfolding is_locked load_files read_number
  load_everything filename d =
      if is_locked num_shards d.shards then err never_returns else elim (S.read d.host filename) [
        | none ↦ ok (with_locks false d, false)
        | some bs ↦ elim (read_number 4 bs) [
          | none ↦ ok (with_locks true d, false)
          | some (n, rest) ↦
              let r = load_files n (with_locks true d) rest in
              elim r.1 [ true ↦ ok (with_locks false r.0, true) | false ↦ ok r ]
        ]
      ]
