-- ===== src/Disk.antt =====
-- src/server/Disk.h and src/server/Disk.cpp: the files of the enclave, cached in memory on 64 shards
-- and, if a path is given, flushed to the file system in batches. The file system of the host and
-- `std::hash` are parameters.
pub mod Contents
pub mod Flushes
pub mod Writes
pub mod Reads
pub mod Accounts
pub mod Removal
pub mod Dump
pub mod Snapshots
mod Examples
use credb.Prelude.{
  ℕ, zero, suc, ◌+◌, ◌-◌, ◌%◌, ◌^◌, Bool, true, false, ◌&&◌, ◌||◌, not, Option, none, some, List,
  [], ◌∷◌, ◌++◌, ltb, ◌==◌, if◌then◌else◌, length, take, drop, ℤ, pos, negsuc,
}
use credb.Prelude.Names.{Name, is_empty, equal_names, find_name, insert_name, erase_name}

-- How a call ends otherwise: LOG(FATAL), the exception on a folder, the use of a null pointer, a
-- mutex that is never given back, a mutex that is given back twice, which is undefined.
pub data Error : Type 0 where
  fatal not_allowed null_file never_returns unlocked_twice : Error

pub data Result {ℓ} (A : Type ℓ) : Type ℓ where
  ok : A → Result A
  err : Error → Result A

infixl 5 ◌>>=◌
abbrev pub ◌>>=◌ {ℓ κ} : {A : Type ℓ} {B : Type κ} → Result A → (A → Result B) → Result B
ok a >>= f = f a
err e >>= f = err e

-- The file system of the host: a write or a removal that fails gives nothing.
pub record FileSystem (F : Type 0) : Type 0 where
  pub read : F → Name → Option (List ℕ)
  pub write : F → Name → List ℕ → Option F
  pub remove : F → Name → Option F

-- `shard_t`. A file is its bytes; its pointer is never null while it is in the table.
pub record Shard : Type 0 where
  pub locked : Bool
  pub flush_pending_size : ℕ
  pub flush_pending_list : List Name
  pub files : List (Name × List ℕ)

-- `Disk`, with the host's files.
pub record Disk (F : Type 0) : Type 0 where
  pub path : Name
  pub num_loads : ℕ
  pub byte_size : ℕ
  pub num_files : ℕ
  pub shards : ℕ → Shard
  pub host : F

abbrev pub num_shards : ℕ
num_shards = 64

abbrev pub flush_batch : ℕ
flush_batch = 2 ^ 20

abbrev pub slash : ℕ
slash = 47

abbrev pub update_shard : (ℕ → Shard) → ℕ → Shard → ℕ → Shard
update_shard f i a j = if j == i then a else f j

-- `filename.find('/')`
unfoldable pub has_slash : Name → Bool
has_slash [] = false
has_slash (c ∷ cs) = c == slash || has_slash cs

abbrev pub ends_in_slash : Name → Bool
ends_in_slash [] = false
ends_in_slash (c ∷ []) = c == slash
ends_in_slash (c ∷ d ∷ cs) = ends_in_slash (d ∷ cs)

abbrev pub empty_shard : Shard
empty_shard = record { locked = false; flush_pending_size = 0; flush_pending_list = []; files = [] }

-- The constructor.
unfoldable pub new_disk : {F : Type 0} → Name → F → Disk F
new_disk disk_path host = record {
  path =
      if not (is_empty disk_path) && not (ends_in_slash disk_path)
      then disk_path ++ slash ∷ []
      else disk_path;
  num_loads = 0;
  byte_size = 0;
  num_files = 0;
  shards = λ s. empty_shard;
  host = host;
}

-- An `unordered_set` of names.
unfoldable pub contains : Name → List Name → Bool
contains n [] = false
contains n (m ∷ ms) = equal_names n m || contains n ms

unfoldable pub insert_pending : Name → List Name → List Name
unfolding contains
insert_pending n ms = if contains n ms then ms else n ∷ ms

-- `lock` of a shard's mutex, by the only thread.
unfoldable pub lock : Shard → Result Shard
lock s = if s.locked then err never_returns else ok (record s { locked = true })

-- A `size_t` after a file of the given size is taken away, or added.
abbrev pub less : ℕ → ℕ → ℕ
less a b = (a + (2 ^ 64 - b)) % 2 ^ 64

abbrev pub more : ℕ → ℕ → ℕ
more a b = (a + b) % 2 ^ 64

-- The conversion to `int32_t`.
abbrev pub to_int32 : ℕ → ℤ
to_int32 n = let m = n % 2 ^ 32 in if ltb m (2 ^ 31) then pos m else negsuc (2 ^ 32 - m - 1)

module _ {F : Type 0} (S : FileSystem F) (hash : Name → ℕ) where
  -- `to_shard`.
  unfoldable pub to_shard : Name → ℕ
  to_shard filename = hash filename % num_shards

  -- The loop of `flush` over the pending files. A name that is not in the table gets a null pointer.
  unfoldable pub flush_files : Name → List (Name × List ℕ) → List Name → F → Result F
  flush_files path files [] host = ok host
  flush_files path files (n ∷ ns) host = elim (find_name n files) [
    | none ↦ err null_file
    | some bytes ↦ elim (S.write host (path ++ n) bytes) [
      | none ↦ err fatal
      | some host' ↦ flush_files path files ns host'
    ]
  ]

  -- `shard_t::flush`.
  unfoldable pub flush : Name → Bool → Shard → F → Result (Shard × F)
  unfolding flush_files
  flush path batch s host =
      if batch && ltb s.flush_pending_size flush_batch
      then ok (s, host)
      else (if is_empty path then ok host else flush_files path s.files s.flush_pending_list host)
        >>= λ host'. ok (record s { flush_pending_size = 0; flush_pending_list = [] }, host')

  -- `shard_t::get_file`: none for a null pointer.
  unfoldable pub get_file : Name → Name → Shard → F → Result (Shard × Option (List ℕ))
  get_file path n s host = elim (find_name n s.files) [
    | some bytes ↦ ok (s, some bytes)
    | none ↦ if is_empty path then ok (s, none) else elim (S.read host (path ++ n)) [
      | none ↦ err fatal
      | some bytes ↦ ok (record s { files = insert_name n bytes s.files }, some bytes)
    ]
  ]

  -- The part of `write` on the shard: the file, which is pending from now on.
  unfoldable pub add_file : Name → List ℕ → Shard → Shard
  unfolding insert_pending
  add_file n bytes s = record s {
    files = insert_name n bytes s.files;
    flush_pending_list = insert_pending n s.flush_pending_list;
    flush_pending_size = more s.flush_pending_size (length bytes);
  }

  -- The part of `write` on the counters, by the file that was there.
  unfoldable pub count_file : Option (List ℕ) → ℕ → Disk F → Disk F
  count_file none size d = record d {
    num_files = more d.num_files 1;
    byte_size = more d.byte_size size;
  }
  count_file (some old) size d = record d { byte_size = more (less d.byte_size (length old)) size }

  -- `write`.
  unfoldable pub write : Name → List ℕ → Disk F → Result (Disk F)
  unfolding has_slash lock add_file count_file flush to_shard
  write n bytes d =
      if has_slash n
      then err not_allowed
      else (lock (d.shards (to_shard n)) >>= λ s.
          flush d.path true (add_file n bytes s) d.host >>= λ r.
          ok (record (count_file (find_name n s.files) (length bytes) d) {
            shards = update_shard d.shards (to_shard n) (record (r.0) { locked = false });
            host = r.1;
          }))

  -- A call that looks a file up: the shard is locked, and given back with what `get_file` added.
  unfoldable pub find_file : Name → Disk F → Result (Disk F × Option (List ℕ))
  unfolding lock get_file to_shard
  find_file n d = lock (d.shards (to_shard n)) >>= λ s. get_file d.path n s d.host >>= λ r. ok (
    record d { shards = update_shard d.shards (to_shard n) (record (r.0) { locked = false }) },
    r.1,
  )

  -- `get_size`.
  unfoldable pub get_size : Name → Disk F → Result (Disk F × ℤ)
  unfolding has_slash find_file
  get_size n d =
      if has_slash n
      then err fatal
      else (find_file n d >>= λ r.
          ok (r.0, elim r.1 [ none ↦ negsuc 0 | some bytes ↦ to_int32 (length bytes) ]))

  -- `read`.
  unfoldable pub read : Name → ℕ → Disk F → Result (Disk F × List ℕ)
  unfolding has_slash find_file
  read n buffer_size d =
      if has_slash n
      then err fatal
      else (find_file n d >>= λ r. elim r.1 [
        | none ↦ err fatal
        | some bytes ↦
            if length bytes == buffer_size
            then ok (record (r.0) { num_loads = more d.num_loads 1 }, bytes)
            else err fatal
      ])

  -- The part of `remove` after the file is out of the table: the program stops if the host removes
  -- the file.
  unfoldable pub remove_file : Name → Disk F → Shard → Result (Disk F)
  unfolding flush to_shard
  remove_file n d s = flush d.path false s d.host >>= λ r. elim (S.remove r.1 (d.path ++ n)) [
    | some host' ↦ err fatal
    | none ↦ ok (record d {
      shards = update_shard d.shards (to_shard n) (record (r.0) { locked = false });
      host = r.1;
    })
  ]

  -- `remove`.
  unfoldable pub remove : Name → Disk F → Result (Disk F)
  unfolding lock remove_file to_shard
  remove n d = lock (d.shards (to_shard n)) >>= λ s. elim (find_name n s.files) [
    | none ↦
        ok (record d { shards = update_shard d.shards (to_shard n) (record s { locked = false }) })
    | some bytes ↦ remove_file n d (record s { files = erase_name n s.files })
  ]

  -- `read_undecrypted_from_disk`: without a file it returns with the shard locked.
  unfoldable pub read_undecrypted : Name → Disk F → Result (Disk F × Option (List ℕ))
  unfolding lock to_shard
  read_undecrypted n d = lock (d.shards (to_shard n)) >>= λ s.
      let d' = record d {
        num_loads = more d.num_loads 1;
        shards = update_shard d.shards (to_shard n) s;
      } in
      elim (find_name n s.files) [
        | none ↦ ok (d', none)
        | some bytes ↦ ok (
          record d' { shards = update_shard d.shards (to_shard n) (record s { locked = false }) },
          some bytes,
        )
      ]

  -- The loop of `clear`, over the shards below `rounds`.
  unfoldable pub clear_shards : ℕ → Disk F → Result (Disk F)
  unfolding lock
  clear_shards zero d = ok d
  clear_shards (suc i) d = clear_shards i d >>= λ d'. lock (d'.shards i) >>= λ s. ok (record d' {
    num_files = less d'.num_files (length s.files);
    shards = update_shard d'.shards i (record s { files = []; locked = false });
  })

  -- `clear`.
  unfoldable pub clear : Disk F → Result (Disk F)
  unfolding clear_shards
  clear d = clear_shards num_shards d
