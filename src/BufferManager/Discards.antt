-- ===== src/BufferManager/Discards.antt =====
-- `discard_cache` and `discard_all_cache` of src/enclave/BufferManager.cpp drop pages without writing them.
use credb.Prelude.{
  ℕ, ◌-◌, ◌+◌, arith, ◌≡◌, refl, ap, ◌∙◌, inl, inr, some, List, [], ◌∷◌, ◌==◌, Bool-cases,
  if◌then◌else◌, lookup, erase, lookup-erase, All,
}
use credb.BufferManager.{
  ok, Format, Meta, Shard, discard_cache, discard_all_cache, discard_loop, unload_page, fatal,
  unlist,
}
use credb.BufferManager.Contents.{content, on_disk, held}

module _ {P : Type 0} (F : Format P) where
  discarded :
      (p : ℕ) (s : Shard P) (meta : Meta P)
      → lookup p s.metas ≡ some meta
      → meta.cnt_pin ≡ 0
      → discard_cache F p s
        ≡ ok (record s {
          metas = erase p s.metas;
          evict_list = unlist p s.evict_list;
          loaded_size = s.loaded_size - meta.size;
        })
  unfolding discard_cache
  discarded p s meta found free = rw (found, discard_cache) (rw (free) refl)

  -- A page without pins that is discarded has the content that is on the disk, so that what was changed
  -- since the last flush is lost; every other content is kept.
  pub discard_cache-content :
      (p : ℕ) (s : Shard P) (meta : Meta P)
      → lookup p s.metas ≡ some meta
      → meta.cnt_pin ≡ 0
      → (s' : Shard P) × (discard_cache F p s ≡ ok s')
        × ((q : ℕ) → content F s' q ≡ (if p == q then on_disk F q (s.disk q) else content F s q))
  discard_cache-content p s meta found free = (
    _,
    discarded p s meta found free,
    λ q. elim (Bool-cases (p == q)) [
      | inl t ↦ ap (λ o. held F o (on_disk F q (s.disk q))) (lookup-erase p q s.metas) ∙ rw (t) refl
      | inr f ↦ ap (λ o. held F o (on_disk F q (s.disk q))) (lookup-erase p q s.metas) ∙ rw (f) refl
    ],
  )

  -- The sizes of all pages in memory.
  abbrev pub total : List (ℕ × Meta P) → ℕ
  total [] = 0
  total ((p, meta) ∷ metas) = meta.size + total metas

  discard_loop_lem :
      (metas : List (ℕ × Meta P)) (s : Shard P)
      → All (λ m. m.1.cnt_pin ≡ 0) metas
      → discard_loop F metas (record s { metas = metas })
        ≡ ok (record s { metas = []; loaded_size = s.loaded_size - total metas })
  unfolding discard_loop
  discard_loop_lem [] s free = ap (λ n. ok (record s { metas = []; loaded_size = n })) (omega arith)
  discard_loop_lem ((p, meta) ∷ metas) s (free, rest) = rw (free) (
      discard_loop_lem metas (record s { loaded_size = s.loaded_size - meta.size }) rest
      ∙ ap (λ n. ok (record s { metas = []; loaded_size = n })) (omega arith))

  -- `discard_all_cache` of a shard without pinned pages empties the table and takes the sizes of its
  -- pages off the loaded size, but leaves the list of evictable pages as it was, so that unloading
  -- the first page of that list is then a fatal error.
  pub discard_all_cache-evict_list :
      (s : Shard P) (q : ℕ) (qs : List ℕ)
      → s.evict_list ≡ q ∷ qs
      → All (λ m. m.1.cnt_pin ≡ 0) s.metas
      → (s' : Shard P) × (discard_all_cache F s ≡ ok s')
        × (s'.metas ≡ [])
        × (s'.evict_list ≡ q ∷ qs)
        × (s'.loaded_size ≡ s.loaded_size - total s.metas)
        × (unload_page F q s' ≡ fatal)
  unfolding discard_all_cache unload_page
  discard_all_cache-evict_list s q qs e free =
      (_, discard_loop_lem s.metas s free, refl, e, refl, refl)
