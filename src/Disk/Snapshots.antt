-- ===== src/Disk/Snapshots.antt =====
-- What a new disk of src/server/Disk.cpp has once it loads what was written for a shard, and how
-- `dump_everything` ends.
use credb.Prelude.{
  ◌⊎◌, Option-cases, ℕ, zero, suc, ◌^◌, ◌<◌, ◌≡◌, ◌≢◌, refl, ap, sym, ◌∙◌, inl, inr, true, false,
  Option, none, some, List, [], ◌∷◌, ◌++◌, ◌==◌, if◌then◌else◌, length, arith, Bool-cases, ==_of_eq,
  append_assoc, All, subst,
}
use credb.Prelude.Names.{
  Name, equal_names, find_name, find_name-insert, find_name-erase, equal_names_eq,
}
use credb.Disk.{
  update_shard, err, unlocked_twice, Disk, Shard, FileSystem, ok, to_shard, lock, num_shards,
  new_disk,
}
use credb.Disk.Dump.{
  unlock, to_bytes, from_bytes, dump_file, dump_files, dump_shard, read_bytes, read_number,
  dump_shards, dump_everything, begin_file, store_file, load_files, is_locked, with_locks,
  load_everything,
}
use credb.Disk.Contents.{IsSound}

read_bytes-append : (x rest : List ℕ) → read_bytes (length x) (x ++ rest) ≡ some (x, rest)
unfolding read_bytes
read_bytes-append [] rest = refl
read_bytes-append (b ∷ x) rest = rw (read_bytes-append x rest) refl

read_number-four :
    (n : ℕ) (rest : List ℕ) → n < 2 ^ 32 → read_number 4 (to_bytes 4 n ++ rest) ≡ some (n, rest)
unfolding read_number read_bytes to_bytes from_bytes
read_number-four n rest h = ap (λ v. some (v, rest)) (omega arith)

read_number-eight :
    (n : ℕ) (rest : List ℕ) → n < 2 ^ 64 → read_number 8 (to_bytes 8 n ++ rest) ≡ some (n, rest)
unfolding read_number read_bytes to_bytes from_bytes
read_number-eight n rest h = ap (λ v. some (v, rest)) (omega arith)

read_number-dump_shard :
    (s : Shard)
    → length s.files < 2 ^ 32
    → read_number 4 (dump_shard s) ≡ some (length s.files, dump_files s.files)
unfolding dump_shard
read_number-dump_shard s few = read_number-four (length s.files) (dump_files s.files) few

-- The lengths of a name and of a file fit the numbers that are written.
abbrev pub Fits : Name × List ℕ → Type 0
Fits (n, x) = (length n < 2 ^ 32) × (length x < 2 ^ 64)

module _ {F : Type 0} (S : FileSystem F) (hash : Name → ℕ) where
  -- The files put in memory one after the other.
  loaded : List (Name × List ℕ) → Disk F → Disk F
  loaded [] d = d
  loaded ((n, x) ∷ files) d = loaded files (store_file S hash n x (begin_file S hash n d))

  dump_file-append :
      (n : Name) (x rest : List ℕ)
      → dump_file n x ++ rest
        ≡ to_bytes 4 (length n) ++ (n ++ (to_bytes 8 (length x) ++ (x ++ rest)))
  unfolding dump_file
  dump_file-append n x rest = simp append_assoc

  load_files_step :
      (k : ℕ) (n : Name) (x rest : List ℕ) (d : Disk F)
      → Fits (n, x)
      → load_files S hash (suc k) d (dump_file n x ++ rest)
        ≡ load_files S hash k (store_file S hash n x (begin_file S hash n d)) rest
  unfolding load_files
  load_files_step k n x rest d (f1, f2) = rw (dump_file-append n x rest) (
      ground (
        arith,
        read_number-four (length n) (n ++ (to_bytes 8 (length x) ++ (x ++ rest))) f1,
        read_bytes-append n (to_bytes 8 (length x) ++ (x ++ rest)),
        read_number-eight (length x) (x ++ rest) f2,
        read_bytes-append x rest,
      ))

  -- What was dumped is loaded.
  load_files-dump_files :
      (files : List (Name × List ℕ)) (d : Disk F)
      → All Fits files
      → load_files S hash (length files) d (dump_files files) ≡ (loaded files d, true)
  unfolding load_files dump_files loaded
  load_files-dump_files [] d fits = refl
  load_files-dump_files ((n, x) ∷ files) d (fit, fits) =
      load_files_step (length files) n x (dump_files files) d fit
      ∙ load_files-dump_files files (store_file S hash n x (begin_file S hash n d)) fits

  -- No name is in the table twice.
  abbrev pub AreDistinct : List (Name × List ℕ) → Type 0
  AreDistinct [] = Unit
  AreDistinct ((n, x) ∷ files) = (find_name n files ≡ none) × AreDistinct files

  -- Every name of the table belongs to the shard.
  abbrev pub On : ℕ → List (Name × List ℕ) → Type 0
  On i files = (n : Name) → find_name n files ≢ none → to_shard S hash n ≡ i

  abbrev pub cached : Disk F → Name → Option (List ℕ)
  cached d n = find_name n (d.shards (to_shard S hash n)).files

  abbrev or_else : Option (List ℕ) → Option (List ℕ) → Option (List ℕ)
  or_else (some x) o = some x
  or_else none o = o

  or_else-none : (o : Option (List ℕ)) → or_else o none ≡ o
  or_else-none none = refl
  or_else-none (some x) = refl

  cached-store_file :
      (n : Name) (x : List ℕ) (d : Disk F) (m : Name)
      → cached (store_file S hash n x (begin_file S hash n d)) m
        ≡ (if equal_names m n then some x else cached d m)
  unfolding store_file begin_file
  cached-store_file n x d m = elim (Bool-cases (to_shard S hash m == to_shard S hash n)) [
    | inl here ↦
        let self : (to_shard S hash n == to_shard S hash n) ≡ true = ==_of_eq _ _ refl in
        let e : to_shard S hash m ≡ to_shard S hash n = ground arith in
        rw (here) (
          rw (self) (
            rw (e) (
              rw (find_name-insert n m x _) (
                rw (find_name-erase n m _) (elim (Bool-cases (equal_names m n)) [
                  | inl same ↦ rw (same) refl
                  | inr other ↦ rw (other) refl
                ])))))
    | inr away ↦ rw (away) (elim (Bool-cases (equal_names m n)) [
      | inr other ↦ rw (other) refl
      | inl same ↦ let e = ==_of_eq _ _ (ap (to_shard S hash) (equal_names_eq m n same)) in cc
    ])
  ]

  cached-loaded :
      (files : List (Name × List ℕ)) (d : Disk F) (m : Name)
      → AreDistinct files
      → cached (loaded files d) m ≡ or_else (find_name m files) (cached d m)
  unfolding loaded
  cached-loaded [] d m distinct = refl
  cached-loaded ((n, x) ∷ files) d m (fresh, distinct) =
      cached-loaded files (store_file S hash n x (begin_file S hash n d)) m distinct
      ∙ rw (cached-store_file n x d m) (elim (Bool-cases (equal_names m n)) [
        | inr other ↦ rw (other) refl
        | inl same ↦
            let gone =
              subst (λ (k : Name). find_name k files ≡ none) (sym (equal_names_eq m n same))
                fresh in
            rw (same) (rw (gone) refl)
      ])

  -- `dump_everything` of a disk whose shards are not locked never returns true: it returns false if
  -- the host cannot write the file, and otherwise unlocks the mutex of the first shard twice.
  dump_everything_lem :
      (filename : Name) (d : Disk F)
      → IsSound S hash d
      → (dump_everything S hash filename d ≡ err unlocked_twice)
        ⊎ ((S.write d.host filename (dump_shard (d.shards 0)) ≡ none)
            × (d' : Disk F) × (dump_everything S hash filename d ≡ ok (d', false)))
  unfolding dump_everything dump_shards unlock lock dump_shard
  dump_everything_lem filename d sound =
      let free = sound.unlocked 0 in
      elim (Option-cases (S.write d.host filename (dump_shard (d.shards 0)))) [
        | inl fails ↦ inr (
          fails,
          record d { shards = update_shard d.shards 0 (record (d.shards 0) { locked = false }) },
          rw (free, dump_shard) (rw (fails) refl),
        )
        | inr (host, written) ↦ inl (rw (free, dump_shard) (rw (written) refl))
      ]

  unlocked_new :
      (k : ℕ) (path : Name) (host : F) → is_locked S hash k (new_disk path host).shards ≡ false
  unfolding is_locked new_disk
  unlocked_new zero path host = refl
  unlocked_new (suc k) path host = unlocked_new k path host

  load_runs :
      (filename : Name) (bs : List ℕ) (d d' : Disk F) (n : ℕ) (rest : List ℕ)
      → is_locked S hash num_shards d.shards ≡ false
      → S.read d.host filename ≡ some bs
      → read_number 4 bs ≡ some (n, rest)
      → load_files S hash n (with_locks S hash true d) rest ≡ (d', true)
      → load_everything S hash filename d ≡ ok (with_locks S hash false d', true)
  unfolding load_everything
  load_runs filename bs d d' n rest free read number files = ground arith

  -- A new disk that loads a file with what `dump_everything` writes for a shard has in memory every
  -- file of that shard, with its bytes, and no other. The conditions are that the shard has no name
  -- twice and fewer than 2 ^ 32 files, and that the lengths of names and files fit.
  pub load_everything-dump_shard :
      (filename path : Name) (s : Shard) (host : F)
      → S.read host filename ≡ some (dump_shard s)
      → AreDistinct s.files
      → All Fits s.files
      → length s.files < 2 ^ 32
      → (d : Disk F) × (load_everything S hash filename (new_disk path host) ≡ ok (d, true))
        × ((n : Name) → cached d n ≡ find_name n s.files)
        × ((i : ℕ) → (d.shards i).locked ≡ false)
  unfolding new_disk
  load_everything-dump_shard filename path s host read distinct fits few =
      let start = with_locks S hash true (new_disk path host) in
      (
        with_locks S hash false (loaded s.files start),
        load_runs filename _ (new_disk path host) (loaded s.files start) (length s.files)
            (dump_files s.files) (unlocked_new 64 path host) read (read_number-dump_shard s few)
            (load_files-dump_files s.files start fits),
        λ n. cached-loaded s.files start n distinct ∙ or_else-none (find_name n s.files),
        λ i. refl,
      )
