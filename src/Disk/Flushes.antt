-- ===== src/Disk/Flushes.antt =====
-- `shard_t::flush` of src/server/Disk.cpp keeps the files, and what the host has under other names.
use credb.Prelude.{
  ℕ, ◌≡◌, ◌≢◌, refl, ◌∙◌, inl, inr, Bool, true, ◌&&◌, none, List, [], ◌∷◌, ◌++◌, ltb, arith,
  Bool-cases, Option-cases, subst,
}
use credb.Prelude.Names.{
  Name, is_empty, equal_names, find_name, equal_names_self, equal_names-append, equal_names_eq,
}
use credb.Disk.{Shard, FileSystem, ok, contains, flush_files, flush, flush_batch}
use credb.Disk.Contents.{IsLawful, hosted}

module _ {F : Type 0} (S : FileSystem F) (hash : Name → ℕ) where
  flush_files_lem :
      IsLawful S hash
      → (path : Name) (files : List (Name × List ℕ)) (ns : List Name) (host : F)
      → ((n : Name) → contains n ns ≡ true → find_name n files ≢ none)
      → (host' : F) × (flush_files S hash path files ns host ≡ ok host')
        × ((n : Name)
            → find_name n files ≡ none
            → S.read host' (path ++ n) ≡ S.read host (path ++ n))
  unfolding flush_files contains
  flush_files_lem law path files [] host there = (host, refl, λ n e. refl)
  flush_files_lem law path files (m ∷ ns) host there = elim (Option-cases (find_name m files)) [
    | inl e ↦ absurd (there m (rw (equal_names_self m) refl) e)
    | inr (x, e) ↦
        let (f, written, reads) = law.writes host (path ++ m) x in
        let (host', done, frame) =
          flush_files_lem law path files ns f (λ n c. there n (ground (arith, c))) in
        (
          host',
          rw (e, flush_files) (rw (written, flush_files) done),
          λ n absent.
              frame n absent
              ∙ reads (path ++ n)
              ∙ rw (equal_names-append path n m) (elim (Bool-cases (equal_names n m)) [
                | inl same ↦ absurd (
                    there m (rw (equal_names_self m) refl) (
                      subst (λ (k : Name). find_name k files ≡ none) (equal_names_eq n m same)
                        absent))
                | inr other ↦ rw (other) refl
              ]),
        )
  ]

  -- What a flush leaves.
  abbrev pub Flushed : Name → Bool → Shard → F → Type 0
  Flushed path batch s host =
      (s' : Shard) × (host' : F) × (flush S hash path batch s host ≡ ok (s', host'))
      × (s'.files ≡ s.files)
      × ((n : Name)
          → contains n s'.flush_pending_list ≡ true
          → contains n s.flush_pending_list ≡ true)
      × ((n : Name)
          → find_name n s.files ≡ none
          → hosted S hash path host' n ≡ hosted S hash path host n)

  pub flush_lem :
      IsLawful S hash
      → (path : Name) (batch : Bool) (s : Shard) (host : F)
      → ((n : Name) → contains n s.flush_pending_list ≡ true → find_name n s.files ≢ none)
      → Flushed path batch s host
  unfolding flush contains
  flush_lem law path batch s host there =
      elim (Bool-cases (batch && ltb s.flush_pending_size flush_batch)) [
        | inl small ↦ (s, host, rw (small) refl, refl, λ n c. c, λ n e. refl)
        | inr big ↦ elim (Bool-cases (is_empty path)) [
          | inl nowhere ↦ (
            record s { flush_pending_size = 0; flush_pending_list = [] },
            host,
            rw (big) (rw (nowhere) refl),
            refl,
            λ n c. cc,
            λ n e. refl,
          )
          | inr somewhere ↦
              let (host', done, frame) =
                flush_files_lem law path s.files s.flush_pending_list host there in
              (
                record s { flush_pending_size = 0; flush_pending_list = [] },
                host',
                rw (big) (rw (somewhere) (rw (done) refl)),
                refl,
                λ n c. cc,
                λ n e. rw (somewhere) (frame n e),
              )
        ]
      ]
