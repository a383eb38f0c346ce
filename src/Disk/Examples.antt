-- ===== src/Disk/Examples.antt =====
-- The theorems about src/server/Disk.cpp at concrete disks, over a host that keeps its files in memory.
use credb.Prelude.{
  ℕ, ◌+◌, Bool-cases, inl, inr, sym, ◌==◌, ◌≡◌, ◌≢◌, ◌⊎◌, refl, true, false, Option, none, some,
  List, [], ◌∷◌, ◌++◌, arith, length, if◌then◌else◌,
}
use credb.Prelude.Names.{Name, equal_names, find_name, equal_names_eq}
use credb.Disk.{
  Disk, FileSystem, ok, err, fatal, null_file, to_shard, contains, new_disk, write, read, remove,
  has_slash, empty_shard, update_shard,
}
use credb.Disk.Contents.{IsLawful, IsSound, stored}
use credb.Disk.Writes.{write-stored}
use credb.Disk.Reads.{Reads, read_lem}
use credb.Disk.Accounts.{Accounts, total, write-Accounts}
use credb.Disk.Removal.{remove_hosted}
use credb.Disk.{Shard, empty_shard}
use credb.Disk.Dump.{dump_shard, load_everything}
use credb.Disk.Snapshots.{load_everything-dump_shard, cached}

abbrev Host : Type 0
Host = Name → Option (List ℕ)

abbrev memory : FileSystem Host
memory = record {
  read = λ f p. f p;
  write = λ f p x. some (λ q. if equal_names q p then some x else f q);
  remove = λ f p. some (λ q. if equal_names q p then none else f q);
}

abbrev hash : Name → ℕ
hash n = length n + 62

memory-IsLawful : IsLawful memory hash
memory-IsLawful = record { writes = λ f p x. (_, refl, λ q. refl) }

-- `"d/"`, `"a"` and `"b"`.
abbrev path : Name
path = 100 ∷ 47 ∷ []

abbrev a : Name
a = 97 ∷ []

abbrev b : Name
b = 98 ∷ []

abbrev bytes : List ℕ
bytes = 1 ∷ 2 ∷ 3 ∷ []

-- A file in memory that is also pending.
abbrev with_a : Disk Host
with_a = record {
  path = path;
  num_loads = 0;
  byte_size = 3;
  num_files = 1;
  shards =
      update_shard (λ s. empty_shard) 63
        (record {
          locked = false;
          flush_pending_size = 3;
          flush_pending_list = a ∷ [];
          files = (a, bytes) ∷ [];
        });
  host = λ p. none;
}

placed_a :
    (s : ℕ) (n : Name) → find_name n (with_a.shards s).files ≢ none → to_shard memory hash n ≡ s
unfolding to_shard
placed_a s n = elim (Bool-cases (s == 63)) [
  | inr away ↦ rw (away) (λ there. absurd (there refl))
  | inl here ↦
      let e : s ≡ 63 = ground arith in
      rw (here) (elim (Bool-cases (equal_names n a)) [
        | inl same ↦ λ there. rw (equal_names_eq n a same) (sym e)
        | inr other ↦ rw (other) (λ there. absurd (there refl))
      ])
]

with_a-IsSound : IsSound memory hash with_a
unfolding contains to_shard
with_a-IsSound = record {
  unlocked = λ s. ground arith;
  pending = λ s n. ground arith;
  placed = λ s n. placed_a s n;
}

empty : Disk Host
empty = new_disk path (λ p. none)

with_a-Accounts : Accounts with_a
unfolding total
with_a-Accounts = record { files = refl; bytes = refl }

write-stored_example :
    (d' : Disk Host) × (write memory hash b bytes with_a ≡ ok d')
    × IsSound memory hash d'
    × ((m : Name)
        → stored memory hash d' m
          ≡ (if equal_names m b then some bytes else stored memory hash with_a m))
unfolding has_slash
write-stored_example = write-stored memory hash b bytes with_a memory-IsLawful with_a-IsSound refl

read_lem_example :
    Reads memory hash with_a 3 (stored memory hash with_a a) (read memory hash a 3 with_a)
unfolding has_slash
read_lem_example = read_lem memory hash a 3 with_a with_a-IsSound refl

write-Accounts_example :
    (d' : Disk Host) × (write memory hash a (7 ∷ []) with_a ≡ ok d') × Accounts d'
unfolding has_slash to_shard
write-Accounts_example =
    write-Accounts memory hash a (7 ∷ []) with_a memory-IsLawful with_a-IsSound refl
      (λ y e. ground arith) with_a-Accounts

remove_hosted_example :
    (contains a (with_a.shards (to_shard memory hash a)).flush_pending_list ≡ true
      → remove memory hash a with_a ≡ err null_file)
    × (contains a (with_a.shards (to_shard memory hash a)).flush_pending_list ≡ false
        → (remove memory hash a with_a ≡ err fatal)
          ⊎ ((d' : Disk Host) × (remove memory hash a with_a ≡ ok d')
              × (memory.remove d'.host (d'.path ++ a) ≡ none)
              × (d'.byte_size ≡ with_a.byte_size)
              × (d'.num_files ≡ with_a.num_files)))
unfolding to_shard
remove_hosted_example =
    remove_hosted memory hash a bytes with_a memory-IsLawful with_a-IsSound refl refl

abbrev dumped : Shard
dumped = record empty_shard { files = (a, bytes) ∷ [] }

-- The host has a dump under the name `b`.
abbrev with_dump : Host
with_dump n = if equal_names n b then some (dump_shard dumped) else none

load_everything-dump_shard_example :
    (d : Disk Host) × (load_everything memory hash b (new_disk path with_dump) ≡ ok (d, true))
    × ((n : Name) → cached memory hash d n ≡ find_name n ((a, bytes) ∷ []))
    × ((i : ℕ) → (d.shards i).locked ≡ false)
load_everything-dump_shard_example =
    load_everything-dump_shard memory hash b path dumped with_dump refl (refl, tt)
      ((omega arith, omega arith), tt) (omega arith)
