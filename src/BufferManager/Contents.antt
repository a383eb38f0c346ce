-- ===== src/BufferManager/Contents.antt =====
-- What a page holds, wherever it is: the abstract view of src/enclave/BufferManager.cpp.
use credb.Prelude.{
  ℕ, ◌-◌, ◌≡◌, refl, ap, sym, subst, ◌∙◌, inl, inr, true, false, Option, none, some, some-injective,
  List, ◌==◌, arith, Bool-cases, if◌then◌else◌, lookup, insert, erase, lookup-insert, lookup-erase,
}
use credb.BufferManager.{ok, Format, Meta, Shard, flushed, flush_page, unload_page}

module _ {P : Type 0} (F : Format P) where
  -- A page read back from its bytes.
  pub record IsFormat : Type 0 where
    pub load-serialize : (p : ℕ) (page : P) → F.load p (F.serialize page) ≡ page

  abbrev pub on_disk : ℕ → Option (List ℕ) → Option P
  on_disk p none = none
  on_disk p (some bytes) = some (F.load p bytes)

  abbrev pub held : Option (Meta P) → Option P → Option P
  held none below = below
  held (some meta) below = some meta.page

  -- The content of a page: that in memory, or else that on disk.
  abbrev pub content : Shard P → ℕ → Option P
  content s p = held (lookup p s.metas) (on_disk p (s.disk p))

  -- A page in memory that is not dirty is on the disk.
  abbrev pub IsSynced : Shard P → Type 0
  IsSynced s =
      (p : ℕ) (meta : Meta P)
      → lookup p s.metas ≡ some meta
      → meta.is_dirty ≡ false
      → on_disk p (s.disk p) ≡ some meta.page

  -- The step from one shard to another keeps every content.
  pub record Keeps (s s' : Shard P) : Type 0 where
    pub synced : IsSynced s'
    pub same : (p : ℕ) → content s' p ≡ content s p

  flushed_self :
      (p : ℕ) (meta : Meta P) (disk : ℕ → Option (List ℕ))
      → IsFormat
      → (meta.is_dirty ≡ false → on_disk p (disk p) ≡ some meta.page)
      → on_disk p (flushed F p meta disk p) ≡ some meta.page
  unfolding flushed
  flushed_self p meta disk format h = elim (Bool-cases meta.is_dirty) [
    | inl t ↦
        let here : (p == p) ≡ true = ground arith in
        rw (t) (rw (here) (ap some (format.load-serialize p meta.page)))
    | inr f ↦ rw (f) (h f)
  ]

  flushed-other :
      (p q : ℕ) (meta : Meta P) (disk : ℕ → Option (List ℕ))
      → (q == p) ≡ false
      → flushed F p meta disk q ≡ disk q
  unfolding flushed
  flushed-other p q meta disk n = elim (Bool-cases meta.is_dirty) [
    | inl t ↦ rw (t) (ground arith)
    | inr f ↦ rw (f) refl
  ]

  unload_page-ok :
      (p : ℕ) (s : Shard P) (meta : Meta P)
      → lookup p s.metas ≡ some meta
      → meta.cnt_pin ≡ 0
      → unload_page F p s
        ≡ ok (record s {
          metas = erase p s.metas;
          loaded_size = s.loaded_size - meta.size;
          disk = flushed F p meta s.disk;
        })
  unfolding unload_page
  unload_page-ok p s meta found free = rw (found, unload_page) (rw (free) refl)

  -- Unloading a page without pins keeps every content.
  pub unload_page-Keeps :
      (p : ℕ) (s : Shard P) (meta : Meta P)
      → IsFormat
      → IsSynced s
      → lookup p s.metas ≡ some meta
      → meta.cnt_pin ≡ 0
      → (s' : Shard P) × (unload_page F p s ≡ ok s')
        × Keeps s s'
        × (s'.metas ≡ erase p s.metas)
        × (s'.evict_list ≡ s.evict_list)
        × (s'.buffer_size ≡ s.buffer_size)
        × (s'.loaded_size ≡ s.loaded_size - meta.size)
  unload_page-Keeps p s meta format synced found free = (
    _,
    unload_page-ok p s meta found free,
    record {
      synced = λ q m at clean. elim (Bool-cases (q == p)) [
        | inl y ↦ absurd (ground (arith, lookup-erase p q s.metas))
        | inr n ↦
            ap (on_disk q) (flushed-other p q meta s.disk n)
            ∙ synced q m (ground (arith, lookup-erase p q s.metas)) clean
      ];
      same = λ q. elim (Bool-cases (q == p)) [
        | inl y ↦
            let eq : q ≡ p = ground arith in
            subst
              (λ x.
                held (lookup x (erase p s.metas)) (on_disk x (flushed F p meta s.disk x))
                ≡ content s x)
              (sym eq) unloaded
        | inr n ↦
            let kept : lookup q (erase p s.metas) ≡ lookup q s.metas =
              ground (arith, lookup-erase p q s.metas) in
            rw (kept, flushed-other p q meta s.disk n) refl
      ];
    },
    refl,
    refl,
    refl,
    refl,
  )
    where
      gone : lookup p (erase p s.metas) ≡ none
      gone = ground (arith, lookup-erase p p s.metas)

      unloaded :
          held (lookup p (erase p s.metas)) (on_disk p (flushed F p meta s.disk p)) ≡ content s p
      unloaded =
          rw (gone) (flushed_self p meta s.disk format (synced p meta found) ∙ rw (found) refl)

  -- A record of a page in its place changes no other content.
  pub content-insert :
      (s : Shard P) (p q : ℕ) (meta : Meta P) (below : Option P)
      → held (lookup q (insert p meta s.metas)) below
        ≡ (if p == q then some meta.page else held (lookup q s.metas) below)
  content-insert s p q meta below = elim (Bool-cases (p == q)) [
    | inl t ↦ rw (lookup-insert p q meta s.metas, t) refl
    | inr f ↦ rw (lookup-insert p q meta s.metas, f) refl
  ]

  flush_page-ok :
      (p : ℕ) (s : Shard P) (meta : Meta P)
      → lookup p s.metas ≡ some meta
      → flush_page F p s
        ≡ ok (record s {
          metas = insert p (record meta { is_dirty = false }) s.metas;
          disk = flushed F p meta s.disk;
        })
  unfolding flush_page
  flush_page-ok p s meta found = rw (found, flush_page) refl

  -- Flushing a page in memory keeps every content, and leaves that of the page on the disk.
  pub flush_page-Keeps :
      (p : ℕ) (s : Shard P) (meta : Meta P)
      → IsFormat
      → IsSynced s
      → lookup p s.metas ≡ some meta
      → (s' : Shard P) × (flush_page F p s ≡ ok s')
        × Keeps s s'
        × (on_disk p (s'.disk p) ≡ some meta.page)
  flush_page-Keeps p s meta format synced found = (
    _,
    flush_page-ok p s meta found,
    record {
      synced = λ q m at clean. elim (Bool-cases (q == p)) [
        | inl y ↦
            let eq : q ≡ p = ground arith in
            let here : lookup q (insert p (record meta { is_dirty = false }) s.metas)
                ≡ some (record meta { is_dirty = false }) =
              ground (arith, lookup-insert p q (record meta { is_dirty = false }) s.metas) in
            subst (λ x. on_disk x (flushed F p meta s.disk x) ≡ some meta.page) (sym eq)
              (flushed_self p meta s.disk format (synced p meta found))
            ∙ ap (λ (x : Meta P). some x.page)
                (some-injective (record meta { is_dirty = false }) m (sym here ∙ at))
        | inr n ↦
            ap (on_disk q) (flushed-other p q meta s.disk n)
            ∙ synced q m
                (ground (arith, lookup-insert p q (record meta { is_dirty = false }) s.metas)) clean
      ];
      same = λ q. elim (Bool-cases (q == p)) [
        | inl y ↦
            let eq : q ≡ p = ground arith in
            let t : (p == q) ≡ true = ground arith in
            content-insert s p q (record meta { is_dirty = false })
              (on_disk q (flushed F p meta s.disk q))
            ∙ ap
                (λ x.
                  if x
                  then some meta.page
                  else held (lookup q s.metas) (on_disk q (flushed F p meta s.disk q)))
                t
            ∙ ap (λ o. held o (on_disk q (s.disk q))) (sym (ap (λ x. lookup x s.metas) eq ∙ found))
        | inr n ↦
            let f : (p == q) ≡ false = ground arith in
            content-insert s p q (record meta { is_dirty = false })
              (on_disk q (flushed F p meta s.disk q))
            ∙ ap
                (λ x.
                  if x
                  then some meta.page
                  else held (lookup q s.metas) (on_disk q (flushed F p meta s.disk q)))
                f
            ∙ ap (λ d. held (lookup q s.metas) (on_disk q d)) (flushed-other p q meta s.disk n)
      ];
    },
    flushed_self p meta s.disk format (synced p meta found),
  )

  -- A record put in the place of a page's, or of none, whose page is the content and is on the disk
  -- unless it is dirty.
  pub insert-Keeps :
      (s s' : Shard P) (p : ℕ) (meta : Meta P)
      → IsSynced s
      → content s p ≡ some meta.page
      → (meta.is_dirty ≡ false → on_disk p (s.disk p) ≡ some meta.page)
      → s'.metas ≡ insert p meta s.metas
      → s'.disk ≡ s.disk
      → Keeps s s'
  insert-Keeps s s' p meta synced now clean metas disk = record {
    synced = λ q m at c. elim (Bool-cases (p == q)) [
      | inl t ↦
          let eq : p ≡ q = ground arith in
          let here : lookup q s'.metas ≡ some meta =
            rw (metas, lookup-insert p q meta s.metas, t) refl in
          let same : meta ≡ m = some-injective meta m (sym here ∙ at) in
          ap (λ d. on_disk q (d q)) disk
          ∙ subst (λ x. on_disk x (s.disk x) ≡ some meta.page) eq
              (clean (ap (λ (x : Meta P). x.is_dirty) same ∙ c))
          ∙ ap (λ (x : Meta P). some x.page) same
      | inr f ↦
          let here : lookup q s'.metas ≡ lookup q s.metas =
            rw (metas, lookup-insert p q meta s.metas, f) refl in
          ap (λ d. on_disk q (d q)) disk ∙ synced q m (sym here ∙ at) c
    ];
    same = λ q. elim (Bool-cases (p == q)) [
      | inl t ↦
          let eq : p ≡ q = ground arith in
          let here : lookup q s'.metas ≡ some meta =
            rw (metas, lookup-insert p q meta s.metas, t) refl in
          ap (λ o. held o (on_disk q (s'.disk q))) here ∙ sym now ∙ ap (content s) eq
      | inr f ↦
          let here : lookup q s'.metas ≡ lookup q s.metas =
            rw (metas, lookup-insert p q meta s.metas, f) refl in
          ap (λ o. held o (on_disk q (s'.disk q))) here
          ∙ ap (λ d. held (lookup q s.metas) (on_disk q (d q))) disk
    ];
  }
