-- ===== src/Ledger/Sealing.antt =====
-- `organize_ledger` and `generate_block` of src/enclave/Ledger.cpp and src/enclave/Shard.cpp: a pending
-- block that has grown is sealed, and an empty one takes its place.
use credb.Prelude.{
  ℕ, ◌+◌, ◌^◌, ◌≡◌, ◌<◌, ◌≤◌, refl, sym, subst, ◌∙◌, inl, inr, true, false, some, some-injective,
  List, [], ◌∷◌, map, ◌==◌, arith, Bool-cases, ltb, lt→ltb,
}
use credb.Block.{Block, end_pos, new_block, seal}
use credb.Block.Layout.{Holds, new_block-Holds}
use credb.Ledger.{Ledger, Calls, ok, num_shards, get_block, get_pending_block, update}
use credb.Ledger.Write.{organize_ledger, generate_block, min_block_size}
use credb.Ledger.Layout.{Ghost, Entry, Sound, Stored, AreSmall}
use credb.Ledger.Appends.{get_block-page, pending-owner}

-- A new block is not sealed, and small.
pub new_block_lem : (new_block.is_sealed ≡ false) × (end_pos new_block ≡ 204)
unfolding new_block end_pos
new_block_lem = (refl, refl)

pub sealed-Holds :
    (b : Block) (es : List (List ℕ)) → Holds b es → Holds (record b { is_sealed = true }) es
sealed-Holds b es h = record {
  spare = h.spare;
  spare_positive = h.spare_positive;
  count = h.count;
  bytes = h.bytes;
  entries = h.entries;
  files = h.files;
  files_fit = h.files_fit;
  bytes_fit = h.bytes_fit;
}

module _ {Doc : Type 0} where
  -- The ghost with an empty page of a shard.
  pub opened : Ghost Doc → ℕ → ℕ → Ghost Doc
  opened g p s = record { events = update g.events p []; owner = update g.owner p (some s) }

  -- Nothing that is stored stands on a page that is not in use.
  pub opened-Stored :
      (g : Ghost Doc) (p s' s b i : ℕ) (entries : List (Entry Doc))
      → ((q t : ℕ) → g.owner q ≡ some t → (q == p) ≡ false)
      → Stored g s b i entries
      → Stored (opened g p s') s b i entries
  unfolding opened
  opened-Stored g p s' s b i [] fresh h = h
  opened-Stored g p s' s b i (entry ∷ entries) fresh
        (owner, small, (pb, pi, ref, found, hb, hi, rest)) =
      let other : (b == p) ≡ false = fresh b s owner in
      (
        rw (other) owner,
        small,
        (pb, pi, ref, rw (other) found, hb, hi, opened-Stored g p s' s pb pi entries fresh rest),
      )

module _ {Doc Index : Type 0} (C : Calls Doc Index) where
  -- What `organize_ledger` does to the rest of the ledger.
  pub record Organized (l l' : Ledger Index) (g g' : Ghost Doc) (s : ℕ) : Type 0 where
    pub sound : Sound C l' g'
    pub collections : l'.collections ≡ l.collections
    pub next_page : l'.next_page ≤ l.next_page + 1
    pub stored :
        (t b i : ℕ) (entries : List (Entry Doc)) → Stored g t b i entries → Stored g' t b i entries
    pub here : (b : Block) → l'.pages (l'.pending s) ≡ some b → end_pos b < min_block_size
    pub there :
        (t : ℕ)
        → t < num_shards
        → (t == s) ≡ false
        → l'.pages (l'.pending t) ≡ l.pages (l.pending t)

  -- The ledger with a sealed block, and a new one of the shard.
  abbrev pub with_sealed : Ledger Index → ℕ → Block → Ledger Index
  with_sealed l s b =
      generate_block C (record l { pages = update l.pages (l.pending s) (some b) }) s

  with_sealed-Sound :
      (l : Ledger Index) (g : Ghost Doc) (s : ℕ) (b : Block)
      → Sound C l g
      → s < num_shards
      → l.next_page + 1 < 2 ^ 32
      → Holds b (map C.encode (g.events (l.pending s)))
      → b.is_sealed ≡ true
      → Sound C (with_sealed l s b) (opened g l.next_page s)
  unfolding opened generate_block
  with_sealed-Sound l g s b sound k bound holds sealed = record {
    page = λ q t owner. elim (Bool-cases (q == l.next_page)) [
      | inl y ↦
          let same : t ≡ s = ground arith in
          (new_block, ground arith, rw (y) new_block-Holds, ground (arith, new_block_lem))
      | inr n ↦
          let o : g.owner q ≡ some t = ground arith in
          elim (Bool-cases (q == l.pending s)) [
            | inl y ↦
                let at : q ≡ l.pending s = ground arith in
                let same : t ≡ s = pending-owner C l g s q t sound k o at in
                (
                  b,
                  ground arith,
                  rw (n) (subst (λ x. Holds b (map C.encode (g.events x))) (sym at) holds),
                  ground arith,
                )
            | inr m ↦
                let (b0, page0, holds0, sealed0) = sound.page q t o in
                (b0, ground arith, rw (n) holds0, ground arith)
          ]
    ];
    positive = λ q t owner. ground (arith, sound.positive q t, in_use);
    below = λ q t owner. ground (arith, sound.fresh q t, sound.below q t);
    fresh = λ q t owner. ground (arith, sound.fresh q t);
    pending = λ t j. ground (arith, sound.pending t j, sound.fresh (l.pending t) t);
  }
    where
      in_use : l.pending s < l.next_page
      in_use = sound.fresh (l.pending s) s (sound.pending s k)

  organize-grown :
      (l : Ledger Index) (s : ℕ) (b : Block)
      → get_block C l s (l.pending s) ≡ ok b
      → b.is_sealed ≡ false
      → ltb (end_pos b) min_block_size ≡ false
      → organize_ledger C l s ≡ ok (with_sealed l s (record b { is_sealed = true }))
  unfolding organize_ledger get_pending_block seal
  organize-grown l s b e u f = rw (e) (rw (f) (rw (u) refl))

  organize-small :
      (l : Ledger Index) (s : ℕ) (b : Block)
      → get_block C l s (l.pending s) ≡ ok b
      → ltb (end_pos b) min_block_size ≡ true
      → organize_ledger C l s ≡ ok l
  unfolding organize_ledger get_pending_block
  organize-small l s b e f = rw (e) (rw (f) refl)

  first_page :
      (l : Ledger Index) (s : ℕ) (b : Block)
      → (with_sealed l s b).pages ((with_sealed l s b).pending s) ≡ some new_block
  unfolding generate_block
  first_page l s b = ground arith

  -- `organize_ledger` ends on a ledger whose blocks are in order.
  pub organize_ledger-Organized :
      (l : Ledger Index) (g : Ghost Doc) (s : ℕ)
      → Sound C l g
      → s < num_shards
      → l.next_page + 1 < 2 ^ 32
      → (l' : Ledger Index) × (g' : Ghost Doc) × (organize_ledger C l s ≡ ok l')
        × Organized l l' g g' s
  unfolding opened generate_block
  organize_ledger-Organized l g s sound k bound =
      let (b, page, holds, sealed) = sound.page (l.pending s) s (sound.pending s k) in
      let found = get_block-page C l (l.pending s) s b page sealed in
      elim (Bool-cases (ltb (end_pos b) min_block_size)) [
        | inl small ↦ (
          l,
          g,
          organize-small l s b found small,
          record {
            sound = sound;
            collections = refl;
            next_page = omega arith;
            stored = λ t b i es h. h;
            here = λ b' e.
                subst (λ x. end_pos x < min_block_size) (some-injective b b' (sym page ∙ e))
                  (ground arith);
            there = λ t j n. refl;
          },
        )
        | inr large ↦ (
          with_sealed l s (record b { is_sealed = true }),
          opened g l.next_page s,
          organize-grown l s b found (ground (arith, sealed)) large,
          record {
            sound =
                with_sealed-Sound l g s (record b { is_sealed = true }) sound k bound
                  (sealed-Holds b (map C.encode (g.events (l.pending s))) holds) refl;
            collections = refl;
            next_page = omega arith;
            stored = λ t b i es h.
                opened-Stored g l.next_page s t b i es (λ q u o. ground (arith, sound.fresh q u o))
                  h;
            here = λ b' e.
                subst (λ x. end_pos x < min_block_size)
                  (some-injective new_block b'
                    (sym (first_page l s (record b { is_sealed = true })) ∙ e))
                  (omega (arith, new_block_lem));
            there = λ t j n. ground (
              arith,
              sound.fresh (l.pending t) t (sound.pending t j),
              pending-owner C l g s (l.pending t) t sound k (sound.pending t j),
            );
          },
        )
      ]

  -- `organize_ledger` leaves small blocks alone.
  pub organize_ledger-AreSmall :
      (l : Ledger Index) (g : Ghost Doc) (s : ℕ)
      → Sound C l g
      → AreSmall C l
      → s < num_shards
      → organize_ledger C l s ≡ ok l
  organize_ledger-AreSmall l g s sound small k =
      let (b, page, holds, sealed) = sound.page (l.pending s) s (sound.pending s k) in
      organize-small l s b (get_block-page C l (l.pending s) s b page sealed)
        (lt→ltb (end_pos b) min_block_size (small s b k page))
