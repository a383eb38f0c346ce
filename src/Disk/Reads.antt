-- ===== src/Disk/Reads.antt =====
-- What the reading operations of src/server/Disk.cpp answer, and what they keep.
use credb.Prelude.{
  ℕ, ◌≡◌, ◌≢◌, refl, ap, sym, ◌∙◌, inl, inr, false, Option, none, some, List, ◌++◌, ◌==◌,
  if◌then◌else◌, length, arith, Bool-cases, Option-cases, ℤ, negsuc,
}
use mathlib.Core.Path.{fun_ext}
use credb.Prelude.Names.{
  Name, is_empty, equal_names, find_name, insert_name, equal_names_eq, find_name-insert,
}
use credb.Disk.{
  Disk, Shard, FileSystem, Result, ok, err, fatal, ◌>>=◌, to_shard, has_slash, lock, get_file,
  find_file, get_size, read, update_shard, to_int32, more,
}
use credb.Disk.Contents.{IsSound, stored, replaced, replaced-IsSound}

module _ {F : Type 0} (S : FileSystem F) (hash : Name → ℕ) where
  -- Sound, and with the same files as another disk.
  abbrev pub Keeps : Disk F → Disk F → Type 0
  Keeps d d' = IsSound S hash d' × ((m : Name) → stored S hash d' m ≡ stored S hash d m)

  -- A shard that is given back as it was leaves the disk as it was.
  put_back :
      (n : Name) (d : Disk F)
      → IsSound S hash d
      → record d {
        shards =
            update_shard d.shards
              (to_shard S hash n)
              (record (d.shards (to_shard S hash n)) { locked = false });
      }
        ≡ d
  put_back n d sound =
      let same : update_shard d.shards (to_shard S hash n)
            (record (d.shards (to_shard S hash n)) { locked = false })
          ≡ d.shards =
        fun_ext (λ j. elim (Bool-cases (j == to_shard S hash n)) [
          | inl here ↦
              let e : j ≡ to_shard S hash n = ground arith in
              rw (here) (
                ap (λ b. record (d.shards (to_shard S hash n)) { locked = b })
                  (sym (sound.unlocked (to_shard S hash n)))
                ∙ ap d.shards (sym e))
          | inr away ↦ rw (away) refl
        ]) in
      ap (λ f. record d { shards = f }) same

  -- The shard of a name with the file that was read for it.
  abbrev loaded : Name → List ℕ → Disk F → Shard
  loaded n x d =
      let s = d.shards (to_shard S hash n) in
      record s { locked = false; files = insert_name n x s.files }

  -- What a look-up leaves, by what is stored under the name.
  abbrev pub Looks : Disk F → Option (List ℕ) → Result (Disk F × Option (List ℕ)) → Type 0
  Looks d none r = r ≡ (if is_empty d.path then ok (d, none) else err fatal)
  Looks d (some x) r = (d' : Disk F) × (r ≡ ok (d', some x)) × Keeps d d'

  find_file_lem :
      (n : Name) (d : Disk F)
      → IsSound S hash d
      → Looks d (stored S hash d n) (find_file S hash n d)
  unfolding find_file lock get_file
  find_file_lem n d sound = elim (Option-cases (find_name n (d.shards (to_shard S hash n)).files)) [
    | inr (x, e) ↦ rw (e) (
      d,
      rw (sound.unlocked (to_shard S hash n), lock)
          (rw (e, get_file) (ap (λ c. ok (c, some x)) (put_back n d sound))),
      (sound, λ m. refl),
    )
    | inl e ↦ elim (Bool-cases (is_empty d.path)) [
      | inl nowhere ↦ rw (e) (
          rw (nowhere) (
            rw (sound.unlocked (to_shard S hash n), lock)
              (rw (e, get_file) (rw (nowhere) (ap (λ c. ok (c, none)) (put_back n d sound))))))
      | inr somewhere ↦ elim (Option-cases (S.read d.host (d.path ++ n))) [
        | inl g ↦ rw (e) (
            rw (somewhere) (
              rw (g) (
                rw (somewhere) (
                  rw (sound.unlocked (to_shard S hash n), lock)
                    (rw (e, get_file) (rw (somewhere) (rw (g) refl)))))))
        | inr (x, g) ↦ rw (e) (
            rw (somewhere) (
              rw (g) (
                record d { shards = update_shard d.shards (to_shard S hash n) (loaded n x d) },
                rw (sound.unlocked (to_shard S hash n), lock)
                    (rw (e, get_file) (rw (somewhere) (rw (g) refl))),
                (
                  replaced-IsSound S hash n x d (loaded n x d) d d.host sound refl refl (λ m p.
                      rw (find_name-insert n m x _) (elim (Bool-cases (equal_names m n)) [
                        | inl same ↦ rw (same) (λ h. cc)
                        | inr other ↦ rw (other) (sound.pending (to_shard S hash n) m p)
                      ])),
                  λ m.
                      replaced S hash n x d (loaded n x d) d.host sound refl (λ k h. refl) m
                      ∙ elim (Bool-cases (equal_names m n)) [
                        | inr other ↦ rw (other) refl
                        | inl same ↦
                            rw (same)
                              (rw (equal_names_eq m n same) (rw (e) (rw (somewhere) (rw (g) refl))))
                      ],
                ),
              )))
      ]
    ]
  ]

  -- What `read` leaves, by what is stored under the name.
  abbrev pub Reads : Disk F → ℕ → Option (List ℕ) → Result (Disk F × List ℕ) → Type 0
  Reads d size none r = r ≡ err fatal
  Reads d size (some x) r =
      (length x ≡ size → (d' : Disk F) × (r ≡ ok (d', x)) × Keeps d d')
      × (length x ≢ size → r ≡ err fatal)

  -- On a sound disk `read` under a name without a slash returns what is stored if the caller's
  -- buffer has its size, and keeps everything that is stored; it stops the program if the sizes
  -- differ or if nothing is stored.
  pub read_lem :
      (n : Name) (size : ℕ) (d : Disk F)
      → IsSound S hash d
      → has_slash n ≡ false
      → Reads d size (stored S hash d n) (read S hash n size d)
  unfolding read
  read_lem n size d sound plain =
      rw (plain, read) (answer (stored S hash d n) (find_file_lem n d sound))
    where
      answer :
          (o : Option (List ℕ))
          → Looks d o (find_file S hash n d)
          → Reads d size o (
              find_file S hash n d >>= λ r. elim r.1 [
                | none ↦ err fatal
                | some bytes ↦
                    if length bytes == size
                    then ok (record (r.0) { num_loads = more d.num_loads 1 }, bytes)
                    else err fatal
              ])
      answer none h =
          rw (h) (elim (Bool-cases (is_empty d.path)) [ inl e ↦ rw (e) refl | inr e ↦ rw (e) refl ])
      answer (some x) (d', e, (sound', keeps)) = rw (e) (
        λ same. (
          record d' { num_loads = more d.num_loads 1 },
          ground arith,
          (
            record { unlocked = sound'.unlocked; pending = sound'.pending; placed = sound'.placed },
            keeps,
          ),
        ),
        λ differ. ground arith,
      )

  abbrev pub Sizes : Disk F → Option (List ℕ) → Result (Disk F × ℤ) → Type 0
  Sizes d none r = r ≡ (if is_empty d.path then ok (d, negsuc 0) else err fatal)
  Sizes d (some x) r = (d' : Disk F) × (r ≡ ok (d', to_int32 (length x))) × Keeps d d'

  -- On a sound disk `get_size` under a name without a slash returns the size of what is stored, as a
  -- signed number of 32 bits. Where nothing is stored it returns -1 if the disk has no path, and
  -- stops the program if it has one.
  pub get_size_lem :
      (n : Name) (d : Disk F)
      → IsSound S hash d
      → has_slash n ≡ false
      → Sizes d (stored S hash d n) (get_size S hash n d)
  unfolding get_size
  get_size_lem n d sound plain =
      rw (plain, get_size) (answer (stored S hash d n) (find_file_lem n d sound))
    where
      answer :
          (o : Option (List ℕ))
          → Looks d o (find_file S hash n d)
          → Sizes d o (
              find_file S hash n d >>= λ r.
              ok (r.0, elim r.1 [ none ↦ negsuc 0 | some bytes ↦ to_int32 (length bytes) ]))
      answer none h =
          rw (h) (elim (Bool-cases (is_empty d.path)) [ inl e ↦ rw (e) refl | inr e ↦ rw (e) refl ])
      answer (some x) (d', e, keeps) = (d', rw (e) refl, keeps)
