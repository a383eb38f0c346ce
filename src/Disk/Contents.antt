-- ===== src/Disk/Contents.antt =====
-- What is stored under each name on a disk of src/server/Disk.cpp, in memory or with the host, and
-- what a file that takes the place of another makes of it.
use credb.Prelude.{
  ℕ, ◌≡◌, ◌≢◌, refl, ap, sym, ◌∙◌, ◌⊎◌, inl, inr, true, false, Option, none, some, List, ◌++◌, ◌==◌,
  if◌then◌else◌, arith, Bool-cases, Option-cases, ==_of_eq,
}
use credb.Prelude.Names.{
  Name, is_empty, equal_names, find_name, insert_name, find_name-insert, equal_names_eq,
}
use credb.Disk.{Disk, Shard, FileSystem, to_shard, contains, update_shard, new_disk}

module _ {F : Type 0} (S : FileSystem F) (hash : Name → ℕ) where
  -- A write by the host succeeds, and is what is read from that name on.
  pub record IsLawful : Type 0 where
    pub writes :
        (f : F) (p : Name) (x : List ℕ)
        → (f' : F) × (S.write f p x ≡ some f')
          × ((q : Name) → S.read f' q ≡ (if equal_names q p then some x else S.read f q))

  -- No shard is locked, what is pending is in memory, and a file is on the shard of its name.
  pub record IsSound (d : Disk F) : Type 0 where
    pub unlocked : (s : ℕ) → (d.shards s).locked ≡ false
    pub pending :
        (s : ℕ) (n : Name)
        → contains n (d.shards s).flush_pending_list ≡ true
        → find_name n (d.shards s).files ≢ none
    pub placed : (s : ℕ) (n : Name) → find_name n (d.shards s).files ≢ none → to_shard S hash n ≡ s

  -- With the host, if the disk has a path.
  abbrev pub hosted : Name → F → Name → Option (List ℕ)
  hosted path host n = if is_empty path then none else S.read host (path ++ n)

  abbrev pub or_hosted : Option (List ℕ) → Name → F → Name → Option (List ℕ)
  or_hosted (some x) path host n = some x
  or_hosted none path host n = hosted path host n

  -- What is stored under a name.
  abbrev pub stored : Disk F → Name → Option (List ℕ)
  stored d n = or_hosted (find_name n (d.shards (to_shard S hash n)).files) d.path d.host n

  or_hosted-keeps :
      (o : Option (List ℕ)) (path : Name) (host host' : F) (n : Name)
      → (o ≡ none → hosted path host' n ≡ hosted path host n)
      → or_hosted o path host' n ≡ or_hosted o path host n
  or_hosted-keeps none path host host' n h = h refl
  or_hosted-keeps (some x) path host host' n h = refl

  added_found :
      (n m : Name) (x : List ℕ) (files : List (Name × List ℕ))
      → find_name m (insert_name n x files) ≢ none
      → (equal_names m n ≡ true) ⊎ (find_name m files ≢ none)
  added_found n m x files there = elim (Bool-cases (equal_names m n)) [
    | inl same ↦ inl same
    | inr other ↦ inr (λ e. there (rw (find_name-insert n m x files) (rw (other) e)))
  ]

  -- A shard takes the place of another with the same files but one, which is on it.
  pub replaced :
      (n : Name) (x : List ℕ) (d : Disk F) (s' : Shard) (host' : F)
      → IsSound d
      → s'.files ≡ insert_name n x (d.shards (to_shard S hash n)).files
      → ((m : Name)
          → find_name m (insert_name n x (d.shards (to_shard S hash n)).files) ≡ none
          → hosted d.path host' m ≡ hosted d.path d.host m)
      → (m : Name)
      → or_hosted
          (find_name m (update_shard d.shards (to_shard S hash n) s' (to_shard S hash m)).files)
          d.path
          host'
          m
        ≡ (if equal_names m n then some x else stored d m)
  replaced n x d s' host' sound files frame m =
      elim (Bool-cases (to_shard S hash m == to_shard S hash n)) [
        | inl here ↦ rw (here) (
            rw (files) (
              rw (find_name-insert n m x _) (elim (Bool-cases (equal_names m n)) [
                | inl same ↦ rw (same) refl
                | inr other ↦
                    let e : to_shard S hash m ≡ to_shard S hash n = ground arith in
                    rw (other) (
                      rw (e) (
                        or_hosted-keeps _ d.path d.host host' m
                          (λ absent. frame m (rw (find_name-insert n m x _) (rw (other) absent)))))
              ])))
        | inr away ↦
            let other : equal_names m n ≡ false = elim (Bool-cases (equal_names m n)) [
              | inl same ↦
                  let e = ==_of_eq _ _ (ap (to_shard S hash) (equal_names_eq m n same)) in cc
              | inr other ↦ other
            ] in
            rw (away) (
              rw (other) (
                or_hosted-keeps _ d.path d.host host' m (λ absent. frame m (
                  rw (find_name-insert n m x _) (
                    rw (other)
                      (elim (Option-cases (find_name m (d.shards (to_shard S hash n)).files)) [
                        | inl e ↦ e
                        | inr (y, e) ↦
                            let placed = sound.placed (to_shard S hash n) m (λ f. cc) in
                            let same = ==_of_eq _ _ placed in cc
                      ]))))))
      ]

  pub replaced-IsSound :
      (n : Name) (x : List ℕ) (d : Disk F) (s' : Shard) (c : Disk F) (host' : F)
      → IsSound d
      → s'.files ≡ insert_name n x (d.shards (to_shard S hash n)).files
      → s'.locked ≡ false
      → ((m : Name) → contains m s'.flush_pending_list ≡ true → find_name m s'.files ≢ none)
      → IsSound (record c { shards = update_shard d.shards (to_shard S hash n) s'; host = host' })
  replaced-IsSound n x d s' c host' sound files free pending = record {
    unlocked = λ i. elim (Bool-cases (i == to_shard S hash n)) [
      | inl here ↦ rw (here) free
      | inr away ↦ rw (away) (sound.unlocked i)
    ];
    pending = λ i m. elim (Bool-cases (i == to_shard S hash n)) [
      | inl here ↦ rw (here) (pending m)
      | inr away ↦ rw (away) (sound.pending i m)
    ];
    placed = λ i m. elim (Bool-cases (i == to_shard S hash n)) [
      | inl here ↦ rw (here) (
          rw (files) (λ there.
            let e : i ≡ to_shard S hash n = ground arith in
            elim (added_found n m x _ there) [
              | inl same ↦ rw (equal_names_eq m n same) (sym e)
              | inr old ↦ sound.placed (to_shard S hash n) m old ∙ sym e
            ]))
      | inr away ↦ rw (away) (sound.placed i m)
    ];
  }

  -- A new disk is sound.
  pub new_disk-IsSound : (path : Name) (host : F) → IsSound (new_disk path host)
  unfolding new_disk contains
  new_disk-IsSound path host = record {
    unlocked = λ s. refl;
    pending = λ s n c. cc;
    placed = λ s n there. absurd (there refl);
  }
