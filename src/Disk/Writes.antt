-- ===== src/Disk/Writes.antt =====
-- `write` of src/server/Disk.cpp.
use credb.Prelude.{
  ℕ, ◌≡◌, ◌≢◌, refl, sym, inl, inr, true, false, ◌||◌, Option, none, some, List, if◌then◌else◌,
  length, arith, Bool-cases, subst,
}
use credb.Prelude.Names.{
  Name, equal_names, find_name, insert_name, find_name-insert, equal_names_eq,
}
use credb.Disk.{
  Disk, Shard, FileSystem, ok, to_shard, has_slash, contains, insert_pending, lock, flush, add_file,
  count_file, write, update_shard,
}
use credb.Disk.Contents.{IsLawful, IsSound, hosted, stored, replaced, replaced-IsSound}
use credb.Disk.Flushes.{flush_lem}

module _ {F : Type 0} (S : FileSystem F) (hash : Name → ℕ) where
  contains-insert :
      (n m : Name) (ms : List Name)
      → contains n (insert_pending m ms) ≡ (equal_names n m || contains n ms)
  unfolding insert_pending contains
  contains-insert n m ms = elim (Bool-cases (contains m ms)) [
    | inr new ↦ rw (new) refl
    | inl old ↦ rw (old) (elim (Bool-cases (equal_names n m)) [
      | inr other ↦ rw (other) refl
      | inl same ↦
          rw (same) (subst (λ (k : Name). contains k ms ≡ true) (sym (equal_names_eq n m same)) old)
    ])
  ]

  count_file-path :
      (old : Option (List ℕ)) (size : ℕ) (d : Disk F) → (count_file S hash old size d).path ≡ d.path
  unfolding count_file
  count_file-path none size d = refl
  count_file-path (some x) size d = refl

  added_pending :
      (n : Name) (x : List ℕ) (s : Shard)
      → ((m : Name) → contains m s.flush_pending_list ≡ true → find_name m s.files ≢ none)
      → (m : Name) → contains m (insert_pending n s.flush_pending_list) ≡ true
      → find_name m (insert_name n x s.files) ≢ none
  added_pending n x s old m c =
      rw (find_name-insert n m x s.files) (elim (Bool-cases (equal_names m n)) [
        | inl same ↦ rw (same) (λ e. cc)
        | inr other ↦
            rw (other) (old m (ground (arith, c, contains-insert m n s.flush_pending_list)))
      ])

  -- The disk after a write, by what the flush left.
  abbrev pub written : Name → List ℕ → Disk F → Shard → F → Disk F
  written n x d s' host' =
      let i = to_shard S hash n in
      record (count_file S hash (find_name n (d.shards i).files) (length x) d) {
        shards = update_shard d.shards i (record s' { locked = false });
        host = host';
      }

  pub write_runs :
      (n : Name) (x : List ℕ) (d : Disk F)
      → IsLawful S hash
      → IsSound S hash d
      → has_slash n ≡ false
      → (s' : Shard) × (host' : F) × (write S hash n x d ≡ ok (written n x d s' host'))
        × (s'.files ≡ insert_name n x (d.shards (to_shard S hash n)).files)
        × ((m : Name) → contains m s'.flush_pending_list ≡ true → find_name m s'.files ≢ none)
        × ((m : Name)
            → find_name m (insert_name n x (d.shards (to_shard S hash n)).files) ≡ none
            → hosted S hash d.path host' m ≡ hosted S hash d.path d.host m)
  unfolding write add_file lock added_pending
  write_runs n x d law sound plain =
      let i = to_shard S hash n in
      let s = add_file S hash n x (record (d.shards i) { locked = true }) in
      let there = added_pending n x (d.shards i) (sound.pending i) in
      let (s', host', done, files, pends, frame) =
        flush_lem S hash law d.path true s d.host there in
      (
        s',
        host',
        rw (plain, write) (rw (sound.unlocked i, lock) (rw (done, flush) refl)),
        files,
        λ m p. rw (files) (there m (pends m p)),
        frame,
      )

  -- A write under a name without a slash succeeds: the bytes are stored S hash under the name, what is
  -- stored S hash under any other name is kept, and the disk is sound again. The conditions are that the
  -- disk is sound and that writes by the host succeed.
  pub write-stored :
      (n : Name) (x : List ℕ) (d : Disk F)
      → IsLawful S hash
      → IsSound S hash d
      → has_slash n ≡ false
      → (d' : Disk F) × (write S hash n x d ≡ ok d')
        × IsSound S hash d'
        × ((m : Name)
            → stored S hash d' m ≡ (if equal_names m n then some x else stored S hash d m))
  write-stored n x d law sound plain =
      let (s', host', done, files, pends, frame) = write_runs n x d law sound plain in
      let old = find_name n (d.shards (to_shard S hash n)).files in
      (
        written n x d s' host',
        done,
        replaced-IsSound S hash n x d (record s' { locked = false })
            (count_file S hash old (length x) d) host' sound files refl pends,
        λ m.
            rw (count_file-path old (length x) d)
              (replaced S hash n x d (record s' { locked = false }) host' sound files frame m),
      )
