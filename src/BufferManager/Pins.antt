-- ===== src/BufferManager/Pins.antt =====
-- `get_page` and the pins of src/enclave/BufferManager.inl.
use credb.Prelude.{
  ℕ, ◌+◌, ◌≡◌, ◌<◌, refl, ap, sym, subst, ◌∙◌, inl, inr, ◌⊎◌, false, none, some, some-injective,
  List, ◌==◌, arith, Option-cases, lookup, insert, lookup-insert, length,
}
use credb.Node.{invalid_page_no}
use credb.BufferManager.{ok, waits, Format, Meta, Shard, new_meta, pin_page, check_evict, get_page}
use credb.BufferManager.Contents.{IsFormat, IsSynced, Keeps, content, held, on_disk, insert-Keeps}
use credb.BufferManager.Eviction.{AreEvictable, check_evict-Evicted}

module _ {P : Type 0} (F : Format P) where
  -- The page of a handle: the content of its number, in memory with a pin.
  pub record Pinned (s s' : Shard P) (p : ℕ) (page : P) : Type 0 where
    pub keeps : Keeps F s s'
    pub reads : content F s p ≡ some page
    pub pinned : (meta : Meta P) × (lookup p s'.metas ≡ some meta) × (0 < meta.cnt_pin)

  pin_page-Pinned :
      (s : Shard P) (p : ℕ) (meta : Meta P)
      → IsSynced F s
      → lookup p s.metas ≡ some meta
      → Pinned s (pin_page F p meta s) p meta.page
  unfolding pin_page
  pin_page-Pinned s p meta synced found = record {
    keeps =
        insert-Keeps F s (pin_page F p meta s) p (record meta { cnt_pin = meta.cnt_pin + 1 }) synced
          (rw (found) refl) (λ clean. synced p meta found clean) refl refl;
    reads = rw (found) refl;
    pinned = (
      record meta { cnt_pin = meta.cnt_pin + 1 },
      ground (arith, lookup-insert p p (record meta { cnt_pin = meta.cnt_pin + 1 }) s.metas),
      omega arith,
    );
  }

  get_page-cached :
      (fuel : ℕ) (s : Shard P) (p : ℕ) (meta : Meta P)
      → (p == invalid_page_no) ≡ false
      → lookup p s.metas ≡ some meta
      → get_page F fuel p s ≡ ok (pin_page F p meta s, meta.page)
  unfolding get_page
  get_page-cached fuel s p meta valid found = rw (valid, get_page) (rw (found) refl)

  -- The shard with a page that was read from disk.
  abbrev loaded : Shard P → ℕ → P → Shard P
  loaded s p page = record s {
    metas = insert p (new_meta F page) s.metas;
    loaded_size = s.loaded_size + (F.meta_size + F.byte_size page);
  }

  get_page-loads :
      (fuel : ℕ) (s s1 : Shard P) (p : ℕ) (bytes : List ℕ)
      → (p == invalid_page_no) ≡ false
      → lookup p s.metas ≡ none
      → check_evict F fuel s ≡ ok s1
      → s1.disk p ≡ some bytes
      → get_page F fuel p s
        ≡ ok (
          pin_page F p (new_meta F (F.load p bytes)) (loaded s1 p (F.load p bytes)),
          F.load p bytes,
        )
  unfolding get_page
  get_page-loads fuel s s1 p bytes valid missing evicts stored =
      rw (valid, get_page) (rw (missing) (rw (evicts) (rw (stored) refl)))

  get_page-waits :
      (fuel : ℕ) (s : Shard P) (p : ℕ)
      → (p == invalid_page_no) ≡ false
      → lookup p s.metas ≡ none
      → check_evict F fuel s ≡ waits
      → get_page F fuel p s ≡ waits
  unfolding get_page
  get_page-waits fuel s p valid missing w = rw (valid, get_page) (rw (missing) (rw (w) refl))

  loaded-Pinned :
      (s s1 : Shard P) (p : ℕ) (page : P)
      → Keeps F s s1
      → content F s p ≡ some page
      → content F s1 p ≡ some page
      → on_disk F p (s1.disk p) ≡ some page
      → Pinned s (pin_page F p (new_meta F page) (loaded s1 p page)) p page
  loaded-Pinned s s1 p page keeps now now1 stored =
      let loads =
        insert-Keeps F s1 (loaded s1 p page) p (new_meta F page) keeps.synced now1 (λ c. stored)
          refl refl in
      let pins =
        pin_page-Pinned (loaded s1 p page) p (new_meta F page) loads.synced
          (ground (arith, lookup-insert p p (new_meta F page) s1.metas)) in
      record {
        keeps = record {
          synced = pins.keeps.synced;
          same = λ q. pins.keeps.same q ∙ loads.same q ∙ keeps.same q;
        };
        reads = now;
        pinned = pins.pinned;
      }

  -- On a shard that is in order, a page that has a content is got, whether it is in memory or on disk
  -- and whatever is evicted for it: the handle shows its content, the page has a pin, and no content
  -- has changed; or the call waits for a page to be unpinned. The fuel is one more than the list of
  -- evictable pages is long.
  pub get_page-Pinned :
      (fuel : ℕ) (s : Shard P) (p : ℕ) (page : P)
      → IsFormat F
      → IsSynced F s
      → AreEvictable s.metas s.evict_list
      → length s.evict_list < fuel
      → p < invalid_page_no
      → content F s p ≡ some page
      → (get_page F fuel p s ≡ waits)
        ⊎ ((s' : Shard P) × (get_page F fuel p s ≡ ok (s', page)) × Pinned s s' p page)
  get_page-Pinned fuel s p page format synced evictable enough valid now =
      let named : (p == invalid_page_no) ≡ false = ground arith in
      elim (Option-cases (lookup p s.metas)) [
        | inr (meta, found) ↦
            let same : meta.page ≡ page =
              some-injective meta.page page
                (sym (ap (λ o. held F o (on_disk F p (s.disk p))) found) ∙ now) in
            inr (
              pin_page F p meta s,
              get_page-cached fuel s p meta named found
                  ∙ ap (λ x. ok (pin_page F p meta s, x)) same,
              subst (λ x. Pinned s (pin_page F p meta s) p x) same
                  (pin_page-Pinned s p meta synced found),
            )
        | inl missing ↦ elim (check_evict-Evicted F fuel s format synced evictable enough) [
          | inl (w, most) ↦ inl (get_page-waits fuel s p named missing w)
          | inr (s1, evicts, keeps, evictable1, fewer, below, left) ↦
              let now1 : content F s1 p ≡ some page = keeps.same p ∙ now in
              let stored : on_disk F p (s1.disk p) ≡ some page =
                sym (ap (λ o. held F o (on_disk F p (s1.disk p))) (fewer p missing)) ∙ now1 in
              elim (Option-cases (s1.disk p)) [
                | inl nothing ↦
                    let bad : on_disk F p none ≡ some page =
                      sym (ap (on_disk F p) nothing) ∙ stored in
                    cc
                | inr (bytes, there) ↦
                    let same : F.load p bytes ≡ page =
                      some-injective (F.load p bytes) page
                        (sym (ap (on_disk F p) there) ∙ stored) in
                    inr (
                      _,
                      get_page-loads fuel s s1 p bytes named missing evicts there
                          ∙ ap (λ x. ok (pin_page F p (new_meta F x) (loaded s1 p x), x)) same,
                      loaded-Pinned s s1 p page keeps now now1 stored,
                    )
              ]
        ]
      ]
