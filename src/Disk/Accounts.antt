-- ===== src/Disk/Accounts.antt =====
-- The counters of src/server/Disk.cpp: how many files there are, and of which size together.
use credb.Prelude.{
  ℕ, zero, suc, ◌+◌, ◌%◌, ◌^◌, ◌<◌, ◌≤◌, ◌≡◌, refl, inl, inr, false, Option, none, some, List, [],
  ◌∷◌, ◌==◌, length, arith, Bool-cases, Option-cases,
}
use credb.Prelude.Names.{Name, find_name, insert_name}
use credb.Disk.{
  Disk, Shard, FileSystem, ok, to_shard, has_slash, write, update_shard, num_shards, count_file,
}
use credb.Disk.Contents.{IsLawful, IsSound}
use credb.Disk.Writes.{write_runs, written}

abbrev pub size_of : List (Name × List ℕ) → ℕ
size_of [] = 0
size_of ((n, x) ∷ files) = length x + size_of files

-- The sum of a measure of the tables, over the shards below a bound.
unfoldable pub total : (List (Name × List ℕ) → ℕ) → ℕ → (ℕ → Shard) → ℕ
total w zero f = 0
total w (suc i) f = total w i f + w (f i).files

-- The counters agree with the tables, as far as 64 bits go.
pub record Accounts {F : Type 0} (d : Disk F) : Type 0 where
  pub files : d.num_files ≡ total length num_shards d.shards % 2 ^ 64
  pub bytes : d.byte_size ≡ total size_of num_shards d.shards % 2 ^ 64

total_above :
    (w : List (Name × List ℕ) → ℕ) (k j : ℕ) (f : ℕ → Shard) (s : Shard)
    → k ≤ j
    → total w k (update_shard f j s) ≡ total w k f
unfolding total
total_above w zero j f s h = refl
total_above w (suc k) j f s h =
    let e : (k == j) ≡ false = ground arith in
    rw (e) (rw (total_above w k j f s (omega arith)) refl)

-- A shard for another changes the sum by their difference.
total-update :
    (w : List (Name × List ℕ) → ℕ) (k j : ℕ) (f : ℕ → Shard) (s : Shard)
    → j < k
    → total w k (update_shard f j s) + w (f j).files ≡ total w k f + w s.files
unfolding total
total-update w zero j f s h = elim h [ ]
total-update w (suc k) j f s h = elim (Bool-cases (k == j)) [
  | inl same ↦
      let e : k ≡ j = ground arith in
      rw (same) (rw (e) (rw (total_above w j j f s (omega arith)) (omega arith)))
  | inr other ↦ let ih = total-update w k j f s (ground arith) in rw (other) (omega arith)
]

old_size : Option (List ℕ) → ℕ
old_size none = 0
old_size (some x) = length x

size_of-insert :
    (n : Name) (x : List ℕ) (files : List (Name × List ℕ))
    → size_of (insert_name n x files) + old_size (find_name n files) ≡ size_of files + length x
unfolding old_size
size_of-insert n x [] = omega arith
size_of-insert n x ((m, y) ∷ files) = ground (arith, size_of-insert n x files)

is_new : Option (List ℕ) → ℕ
is_new none = 1
is_new (some x) = 0

length-insert :
    (n : Name) (x : List ℕ) (files : List (Name × List ℕ))
    → length (insert_name n x files) ≡ length files + is_new (find_name n files)
unfolding is_new
length-insert n x [] = refl
length-insert n x ((m, y) ∷ files) = ground (arith, length-insert n x files)

module _ {F : Type 0} (S : FileSystem F) (hash : Name → ℕ) where
  written-Accounts :
      (old : Option (List ℕ)) (n : Name) (x : List ℕ) (d : Disk F) (s : Shard) (host : F)
      → Accounts d
      → find_name n (d.shards (to_shard S hash n)).files ≡ old
      → old_size old < 2 ^ 64
      → s.files ≡ insert_name n x (d.shards (to_shard S hash n)).files
      → Accounts (record (count_file S hash old (length x) d) {
        shards = update_shard d.shards (to_shard S hash n) s;
        host = host;
      })
  unfolding to_shard count_file old_size is_new
  written-Accounts old n x d s host a e small files =
      let j = to_shard S hash n in
      let below : j < num_shards = omega arith in
      let t1 = total-update length num_shards j d.shards s below in
      let t2 = total-update size_of num_shards j d.shards s below in
      let l1 : length s.files ≡ length (d.shards j).files + is_new old =
        rw (files) (rw (← e) (length-insert n x (d.shards j).files)) in
      let l2 : size_of s.files + old_size old ≡ size_of (d.shards j).files + length x =
        rw (files) (rw (← e) (size_of-insert n x (d.shards j).files)) in
      go old a small t1 t2 l1 l2
    where
      go :
          (o : Option (List ℕ))
          → Accounts d
          → old_size o < 2 ^ 64
          → total length num_shards (update_shard d.shards (to_shard S hash n) s)
              + length (d.shards (to_shard S hash n)).files
            ≡ total length num_shards d.shards + length s.files
          → total size_of num_shards (update_shard d.shards (to_shard S hash n) s)
              + size_of (d.shards (to_shard S hash n)).files
            ≡ total size_of num_shards d.shards + size_of s.files
          → length s.files ≡ length (d.shards (to_shard S hash n)).files + is_new o
          → size_of s.files + old_size o ≡ size_of (d.shards (to_shard S hash n)).files + length x
          → Accounts (record (count_file S hash o (length x) d) {
            shards = update_shard d.shards (to_shard S hash n) s;
            host = host;
          })
      go none a small t1 t2 l1 l2 = record {
        files = omega (arith, a.files);
        bytes = omega (arith, a.bytes);
      }
      go (some y) a small t1 t2 l1 l2 = record {
        files = omega (arith, a.files);
        bytes = omega (arith, a.bytes);
      }

  -- A write under a name without a slash keeps the counters in agreement with the tables, modulo
  -- 2 ^ 64. The conditions are that the disk is sound, that writes by the host succeed, and that a
  -- file under that name takes less than 2 ^ 64 bytes.
  pub write-Accounts :
      (n : Name) (x : List ℕ) (d : Disk F)
      → IsLawful S hash
      → IsSound S hash d
      → has_slash n ≡ false
      → ((y : List ℕ)
          → find_name n (d.shards (to_shard S hash n)).files ≡ some y
          → length y < 2 ^ 64)
      → Accounts d
      → (d' : Disk F) × (write S hash n x d ≡ ok d') × Accounts d'
  unfolding old_size
  write-Accounts n x d law sound plain small a =
      let (s', host', done, files, pends, frame) = write_runs S hash n x d law sound plain in
      let old = find_name n (d.shards (to_shard S hash n)).files in
      (
        written S hash n x d s' host',
        done,
        written-Accounts old n x d (record s' { locked = false }) host' a refl
            (elim (Option-cases old) [
              | inl e ↦ rw (e) (omega arith)
              | inr (y, e) ↦ rw (e) (small y e)
            ])
            files,
      )
