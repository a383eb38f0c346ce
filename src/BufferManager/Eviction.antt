-- ===== src/BufferManager/Eviction.antt =====
-- `check_evict` of src/enclave/BufferManager.cpp: pages leave memory, and no content is lost.
use credb.Prelude.{
  ℕ, zero, suc, ◌*◌, ◌/◌, ◌≡◌, ◌<◌, refl, ap, ◌∙◌, inl, inr, ◌⊎◌, Option, true, false, none, some,
  List, [], ◌∷◌, ◌++◌, ◌+◌, ◌-◌, sym, subst, ◌==◌, arith, Bool-cases, if◌then◌else◌, lookup, erase,
  lookup-erase, length, ltb, All,
}
use credb.BufferManager.{
  Result, ok, waits, Format, Meta, Shard, unload_page, evict_loop, check_evict,
}
use credb.BufferManager.Contents.{IsFormat, IsSynced, Keeps, unload_page-Keeps}

All-front : {A : Type 0} (R : A → Type 0) (xs ys : List A) → All R (xs ++ ys) → All R xs
All-front R [] ys all = tt
All-front R (x ∷ xs) ys (r, all) = (r, All-front R xs ys all)

module _ {P : Type 0} where
  -- Every page of the list is in memory without pins, and stands in the list once.
  abbrev pub AreEvictable : List (ℕ × Meta P) → List ℕ → Type 0
  AreEvictable metas [] = Unit
  AreEvictable metas (q ∷ qs) =
      ((meta : Meta P) × (lookup q metas ≡ some meta) × (meta.cnt_pin ≡ 0))
      × All (λ r. (q == r) ≡ false) qs
      × AreEvictable metas qs

  erase-AreEvictable :
      (metas : List (ℕ × Meta P)) (p : ℕ) (qs : List ℕ)
      → All (λ r. (p == r) ≡ false) qs
      → AreEvictable metas qs
      → AreEvictable (erase p metas) qs
  erase-AreEvictable metas p [] others e = tt
  erase-AreEvictable metas p (q ∷ qs) (other, others) ((meta, found, free), alone, e) = (
    (meta, ground (arith, lookup-erase p q metas), free),
    alone,
    erase-AreEvictable metas p qs others e,
  )

  abbrev pub size_of : Option (Meta P) → ℕ
  size_of none = 0
  size_of (some meta) = meta.size

  -- The sizes of pages in memory, together.
  unfoldable pub sizes : List (ℕ × Meta P) → List ℕ → ℕ
  sizes metas [] = 0
  sizes metas (q ∷ qs) = size_of (lookup q metas) + sizes metas qs

  sizes-erase :
      (metas : List (ℕ × Meta P)) (p : ℕ) (qs : List ℕ)
      → All (λ r. (p == r) ≡ false) qs
      → sizes (erase p metas) qs ≡ sizes metas qs
  unfolding sizes
  sizes-erase metas p [] others = refl
  sizes-erase metas p (q ∷ qs) (other, others) =
      let same : lookup q (erase p metas) ≡ lookup q metas =
        ground (arith, lookup-erase p q metas) in
      rw (same, sizes) (rw (sizes-erase metas p qs others) refl)

  -- The pages of `gone`, the first of the list, have left memory, and their sizes the loaded size.
  pub record Left (s s' : Shard P) : Type 0 where
    pub gone : List ℕ
    pub split : s.evict_list ≡ gone ++ s'.evict_list
    pub lowered : s'.loaded_size ≡ s.loaded_size - sizes s.metas gone
    pub dropped : All (λ q. lookup q s'.metas ≡ none) gone

  sizes-cons :
      (metas : List (ℕ × Meta P)) (q : ℕ) (qs : List ℕ) (meta : Meta P)
      → lookup q metas ≡ some meta
      → sizes metas (q ∷ qs) ≡ meta.size + sizes metas qs
  unfolding sizes
  sizes-cons metas q qs meta found = rw (found, sizes) refl

  stays : (s : Shard P) → Left s s
  unfolding sizes
  stays s = record { gone = []; split = refl; lowered = omega arith; dropped = tt }

module _ {P : Type 0} (F : Format P) where
  -- No page came into memory.
  abbrev pub Fewer : Shard P → Shard P → Type 0
  Fewer s s' = (q : ℕ) → lookup q s.metas ≡ none → lookup q s'.metas ≡ none

  -- How eviction ends: it waits, as all evictable pages together are not enough, or every content is
  -- kept, what is left in the list can be evicted, and the loaded size is that without the pages that
  -- left.
  abbrev pub Evicted : Shard P → ℕ → Result (Shard P) → Type 0
  Evicted s limit r =
      ((r ≡ waits) × (limit < s.loaded_size - sizes s.metas s.evict_list))
      ⊎ ((s' : Shard P) × (r ≡ ok s')
          × Keeps F s s'
          × AreEvictable s'.metas s'.evict_list
          × Fewer s s'
          × (ltb limit s'.loaded_size ≡ false)
          × Left s s')

  evict_loop_step :
      (fuel limit : ℕ) (s s1 : Shard P) (q : ℕ) (qs : List ℕ)
      → ltb limit s.loaded_size ≡ true
      → s.evict_list ≡ q ∷ qs
      → unload_page F q (record s { evict_list = qs }) ≡ ok s1
      → evict_loop F (suc fuel) limit s ≡ evict_loop F fuel limit s1
  unfolding evict_loop
  evict_loop_step fuel limit s s1 q qs t e unloads = rw (t, evict_loop) (rw (e) (rw (unloads) refl))

  -- A page leaves before the others.
  leave :
      (s s1 s' : Shard P) (q : ℕ) (qs : List ℕ) (meta : Meta P)
      → s.evict_list ≡ q ∷ qs
      → lookup q s.metas ≡ some meta
      → All (λ r. (q == r) ≡ false) qs
      → s1.metas ≡ erase q s.metas
      → s1.evict_list ≡ qs
      → s1.loaded_size ≡ s.loaded_size - meta.size
      → Fewer s1 s'
      → Left s1 s'
      → Left s s'
  leave s s1 s' q qs meta e found alone metas list size fewer left =
      let parts : qs ≡ left.gone ++ s'.evict_list = sym list ∙ left.split in
      let others =
        All-front (λ r. (q == r) ≡ false) left.gone s'.evict_list
          (subst (All (λ r. (q == r) ≡ false)) parts alone) in
      let same : sizes s1.metas left.gone ≡ sizes s.metas left.gone =
        ap (λ m. sizes m left.gone) metas ∙ sizes-erase s.metas q left.gone others in
      record {
        gone = q ∷ left.gone;
        split = e ∙ ap (λ l. q ∷ l) parts;
        lowered =
            rw (sizes-cons s.metas q left.gone meta found)
              (omega (arith, left.lowered, size, same));
        dropped = (
          fewer q (ap (lookup q) metas ∙ ground (arith, lookup-erase q q s.metas)),
          left.dropped,
        );
      }

  still :
      (s s1 : Shard P) (q : ℕ) (qs : List ℕ) (meta : Meta P) (limit : ℕ)
      → All (λ r. (q == r) ≡ false) qs
      → s1.metas ≡ erase q s.metas
      → s1.evict_list ≡ qs
      → s1.loaded_size ≡ s.loaded_size - meta.size
      → limit < s1.loaded_size - sizes s1.metas s1.evict_list
      → limit < s.loaded_size - (meta.size + sizes s.metas qs)
  still s s1 q qs meta limit alone metas list size most =
      let same : sizes s1.metas s1.evict_list ≡ sizes s.metas qs =
        ap (λ m. sizes m s1.evict_list) metas
        ∙ ap (sizes (erase q s.metas)) list
        ∙ sizes-erase s.metas q qs alone in
      omega (arith, size, same, most)

  evict_loop-Evicted :
      (fuel limit : ℕ) (s : Shard P) (list : List ℕ)
      → IsFormat F
      → IsSynced F s
      → s.evict_list ≡ list
      → AreEvictable s.metas list
      → length list < fuel
      → Evicted s limit (evict_loop F fuel limit s)
  unfolding evict_loop sizes
  evict_loop-Evicted zero limit s list format synced e evictable enough = absurd (omega arith)
  evict_loop-Evicted (suc fuel) limit s [] format synced e evictable enough =
      elim (Bool-cases (ltb limit s.loaded_size)) [
        | inl t ↦ inl (rw (t, evict_loop) (rw (e) refl), rw (e, sizes) (ground (arith, t)))
        | inr f ↦ inr (
          s,
          rw (f, evict_loop) refl,
          record { synced = synced; same = λ p. refl },
          rw (e) evictable,
          λ p h. h,
          f,
          stays s,
        )
      ]
  evict_loop-Evicted (suc fuel) limit s (q ∷ qs) format synced e
        ((meta, found, free), alone, evictable) enough =
      elim (Bool-cases (ltb limit s.loaded_size)) [
        | inl t ↦
            let (s1, unloads, keeps, metas, list, buffer, size) =
              unload_page-Keeps F q (record s { evict_list = qs }) meta format synced found free in
            let rest =
              evict_loop-Evicted fuel limit s1 qs format keeps.synced list
                (rw (metas) (erase-AreEvictable s.metas q qs alone evictable)) (omega arith) in
            let step = evict_loop_step fuel limit s s1 q qs t e unloads in
            elim rest [
              | inl (w, most) ↦ inl (
                step ∙ w,
                rw (e) (
                    rw (sizes-cons s.metas q qs meta found)
                      (omega (arith, still s s1 q qs meta limit alone metas list size most))),
              )
              | inr (s', r, later, evictable', fewer, below, left) ↦ inr (
                s',
                step ∙ r,
                record { synced = later.synced; same = λ p. later.same p ∙ keeps.same p },
                evictable',
                λ p none_before.
                    fewer p (ap (lookup p) metas ∙ ground (arith, lookup-erase q p s.metas)),
                below,
                leave s s1 s' q qs meta e found alone metas list size fewer left,
              )
            ]
        | inr f ↦ inr (
          s,
          rw (f, evict_loop) refl,
          record { synced = synced; same = λ p. refl },
          rw (e) ((meta, found, free), alone, evictable),
          λ p h. h,
          f,
          stays s,
        )
      ]

  -- On a shard whose clean pages are on the disk and whose list holds each evictable page once, all of
  -- them in memory without pins, `check_evict` with one round more than the list is long meets no fatal
  -- error. It waits only if the loaded size would be above four fifths of the buffer even without all
  -- the pages of the list. Otherwise it ends: pages from the front of the list have left memory and
  -- their sizes the loaded size, every page has the content that it had, none came into memory, the
  -- rest of the list is in order, and the shard is as it was if the loaded size was below the size of
  -- the buffer, and else the loaded size is at most four fifths of it.
  pub check_evict-Evicted :
      (fuel : ℕ) (s : Shard P)
      → IsFormat F
      → IsSynced F s
      → AreEvictable s.metas s.evict_list
      → length s.evict_list < fuel
      → ((check_evict F fuel s ≡ waits)
          × (s.buffer_size * 4 / 5 < s.loaded_size - sizes s.metas s.evict_list))
        ⊎ ((s' : Shard P) × (check_evict F fuel s ≡ ok s')
            × Keeps F s s'
            × AreEvictable s'.metas s'.evict_list
            × Fewer s s'
            × (if ltb s.loaded_size s.buffer_size
                then s' ≡ s
                else (ltb (s.buffer_size * 4 / 5) s'.loaded_size ≡ false))
            × Left s s')
  unfolding check_evict
  check_evict-Evicted fuel s format synced evictable enough =
      elim (Bool-cases (ltb s.loaded_size s.buffer_size)) [
        | inl t ↦ rw (t) (
            inr (
              s,
              refl,
              record { synced = synced; same = λ p. refl },
              evictable,
              λ p h. h,
              refl,
              stays s,
            ))
        | inr f ↦ rw (f) (
            evict_loop-Evicted fuel (s.buffer_size * 4 / 5) s s.evict_list format synced refl
              evictable enough)
      ]
