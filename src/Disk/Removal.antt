-- ===== src/Disk/Removal.antt =====
-- `remove` of src/server/Disk.cpp on a disk with a path.
use credb.Prelude.{
  ℕ, ◌≡◌, ◌≢◌, ◌⊎◌, refl, inl, inr, true, false, none, some, List, [], ◌∷◌, ◌++◌, arith, Bool-cases,
  Option-cases, subst, ◌∙◌,
}
use credb.Prelude.Names.{
  Name, is_empty, equal_names, equal_names_self, equal_names_eq, find_name, erase_name,
  find_name-erase,
}
use credb.Disk.{
  Disk, Shard, FileSystem, ok, err, fatal, null_file, to_shard, contains, lock, flush_files, flush,
  remove, remove_file, update_shard,
}
use credb.Disk.Contents.{IsLawful, IsSound}
use credb.Disk.Flushes.{flush_lem}

module _ {F : Type 0} (S : FileSystem F) (hash : Name → ℕ) where
  -- A pending name that is in no table stops the flush.
  flush_files_missing :
      IsLawful S hash
      → (path : Name) (files : List (Name × List ℕ)) (n : Name) (ns : List Name) (host : F)
      → contains n ns ≡ true
      → find_name n files ≡ none
      → flush_files S hash path files ns host ≡ err null_file
  unfolding flush_files contains
  flush_files_missing law path files n [] host c e = cc
  flush_files_missing law path files n (m ∷ ns) host c e = elim (Option-cases (find_name m files)) [
    | inl gone ↦ rw (gone, flush_files) refl
    | inr (x, there) ↦
        let (host', written, reads) = law.writes host (path ++ m) x in
        let other : equal_names n m ≡ false = elim (Bool-cases (equal_names n m)) [
          | inr other ↦ other
          | inl same ↦
              let gone =
                subst (λ (k : Name). find_name k files ≡ none) (equal_names_eq n m same) e in
              cc
        ] in
        rw (there, flush_files)
          (rw (written, flush_files)
            (flush_files_missing law path files n ns host' (ground arith) e))
  ]

  -- The shard of a name without its file, locked.
  abbrev without : Name → Disk F → Shard
  without n d = record (d.shards (to_shard S hash n)) {
    locked = true;
    files = erase_name n (d.shards (to_shard S hash n)).files;
  }

  remove_found :
      (n : Name) (x : List ℕ) (d : Disk F)
      → IsSound S hash d
      → find_name n (d.shards (to_shard S hash n)).files ≡ some x
      → remove S hash n d ≡ remove_file S hash n d (without n d)
  unfolding remove lock
  remove_found n x d sound there = ground (arith, sound.unlocked (to_shard S hash n))

  others :
      (n : Name) (d : Disk F)
      → IsSound S hash d
      → contains n (d.shards (to_shard S hash n)).flush_pending_list ≡ false
      → (m : Name) → contains m (without n d).flush_pending_list ≡ true
      → find_name m (without n d).files ≢ none
  others n d sound quiet m c =
      rw (find_name-erase n m (d.shards (to_shard S hash n)).files)
        (elim (Bool-cases (equal_names m n)) [
          | inr other ↦ rw (other) (sound.pending (to_shard S hash n) m c)
          | inl same ↦
              let c' =
                subst
                  (λ (k : Name).
                    contains k (d.shards (to_shard S hash n)).flush_pending_list ≡ true)
                  (equal_names_eq m n same) c in
              cc
        ])

  -- On a sound disk with a path, where writes by the host succeed, a file in memory is never removed
  -- with success: if it is pending the flush meets a null pointer, and otherwise the program stops
  -- when the host removes the file, so that `remove` returns only where the host could not.
  pub remove_hosted :
      (n : Name) (x : List ℕ) (d : Disk F)
      → IsLawful S hash
      → IsSound S hash d
      → is_empty d.path ≡ false
      → find_name n (d.shards (to_shard S hash n)).files ≡ some x
      → (contains n (d.shards (to_shard S hash n)).flush_pending_list ≡ true
          → remove S hash n d ≡ err null_file)
        × (contains n (d.shards (to_shard S hash n)).flush_pending_list ≡ false
            → (remove S hash n d ≡ err fatal)
              ⊎ ((d' : Disk F) × (remove S hash n d ≡ ok d')
                  × (S.remove d'.host (d'.path ++ n) ≡ none)
                  × (d'.byte_size ≡ d.byte_size)
                  × (d'.num_files ≡ d.num_files)))
  unfolding remove_file flush
  remove_hosted n x d law sound somewhere there = (
    λ pends. rw (remove_found n x d sound there) (
        rw (somewhere) (
          rw
            (flush_files_missing law d.path (without n d).files n (without n d).flush_pending_list
              d.host pends (rw (find_name-erase n n _) (rw (equal_names_self n) refl)))
            refl)),
    λ quiet.
        let (s', host', done, _, _, _) =
          flush_lem S hash law d.path false (without n d) d.host (others n d sound quiet) in
        elim (Option-cases (S.remove host' (d.path ++ n))) [
          | inl kept ↦ inr (
            record d {
              shards = update_shard d.shards (to_shard S hash n) (record s' { locked = false });
              host = host';
            },
            remove_found n x d sound there ∙ rw (done, flush) (rw (kept) refl),
            kept,
            refl,
            refl,
          )
          | inr (host'', gone) ↦
              inl (remove_found n x d sound there ∙ rw (done, flush) (rw (gone) refl))
        ],
  )
