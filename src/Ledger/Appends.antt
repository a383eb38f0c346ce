-- ===== src/Ledger/Appends.antt =====
-- An event that src/enclave/Ledger.cpp appends to the pending block of a shard: the block holds it behind
-- its other events, and the histories stored before are still stored.
use credb.Prelude.{
  ℕ, zero, suc, ◌^◌, ◌≡◌, ◌<◌, refl, ap, sym, subst, ◌∙◌, inl, inr, true, false, not, some,
  some-injective, List, [], ◌∷◌, ◌++◌, map, map-append, length, get_elem?, ◌==◌, arith, Bool-cases,
}
use credb.Block.{Block, end_pos, is_pending}
use credb.Block.Layout.{Holds}
use credb.Block.Insert.{HasRoom, insert-Holds, insert_unsealed, length-index}
use credb.Block.Reads.{get-Holds}
use credb.ObjectEvent.{Event, LedgerPos}
use credb.Ledger.{Ledger, Calls, ok, num_shards, get_block, get_pending_block, get_event, update}
use credb.Ledger.Write.{append_pending, min_block_size}
use credb.Ledger.Layout.{IsCodec, Ghost, Entry, Sound, Stored, entry_event}

pub length-map : {A B : Type 0} (f : A → B) (xs : List A) → length (map f xs) ≡ length xs
length-map f [] = refl
length-map f (x ∷ xs) = ap suc (length-map f xs)

get_elem?-map :
    {A B : Type 0} (f : A → B) (xs : List A) (i : ℕ) (x : A)
    → get_elem? xs i ≡ some x
    → get_elem? (map f xs) i ≡ some (f x)
get_elem?-map f [] i x h = cc
get_elem?-map f (y ∷ xs) zero x h = cc
get_elem?-map f (y ∷ xs) (suc i) x h = get_elem?-map f xs i x h

pub get_elem?-append :
    {A : Type 0} (xs ys : List A) (i : ℕ) (x : A)
    → get_elem? xs i ≡ some x
    → get_elem? (xs ++ ys) i ≡ some x
get_elem?-append [] ys i x h = cc
get_elem?-append (y ∷ xs) ys zero x h = h
get_elem?-append (y ∷ xs) ys (suc i) x h = get_elem?-append xs ys i x h

pub get_elem?-last :
    {A : Type 0} (xs : List A) (x : A) → get_elem? (xs ++ x ∷ []) (length xs) ≡ some x
get_elem?-last [] x = refl
get_elem?-last (y ∷ xs) x = get_elem?-last xs x

-- A block below the size at which it is sealed has room for any event below 2 ^ 31 bytes, and for a
-- larger index.
pub small-HasRoom :
    (b : Block) (es : List (List ℕ)) (e : List ℕ) (h : Holds b es)
    → end_pos b < min_block_size
    → length e < 2 ^ 31
    → HasRoom es h.spare e
unfolding end_pos
small-HasRoom b es e h small short = record {
  files = omega (arith, length-index b es h, h.files);
  bytes = omega (arith, length-index b es h, h.files, ap length h.bytes);
}

module _ {Doc : Type 0} where
  -- The events with one more, and the new ghost.
  pub appended : Ghost Doc → ℕ → Event Doc → Ghost Doc
  appended g p e = record g { events = update g.events p (g.events p ++ e ∷ []) }

  get_elem?-appended :
      (g : Ghost Doc) (p b i : ℕ) (e x : Event Doc)
      → get_elem? (g.events b) i ≡ some x
      → get_elem? ((appended g p e).events b) i ≡ some x
  unfolding appended
  get_elem?-appended g p b i e x h = elim (Bool-cases (b == p)) [
    | inl t ↦
        let eq : b ≡ p = ground arith in
        rw (t, appended)
          (get_elem?-append (g.events p) (e ∷ []) i x
            (subst (λ q. get_elem? (g.events q) i ≡ some x) eq h))
    | inr f ↦ rw (f, appended) h
  ]

  pub appended-Stored :
      (g : Ghost Doc) (p : ℕ) (e : Event Doc) (s b i : ℕ) (entries : List (Entry Doc))
      → Stored g s b i entries
      → Stored (appended g p e) s b i entries
  unfolding appended
  appended-Stored g p e s b i [] h = h
  appended-Stored g p e s b i (entry ∷ entries) (owner, small, (pb, pi, ref, found, hb, hi, rest)) =
      (
        owner,
        small,
        (
          pb,
          pi,
          ref,
          get_elem?-appended g p b i e (entry_event entry pb pi ref) found,
          hb,
          hi,
          appended-Stored g p e s pb pi entries rest,
        ),
      )

  -- The new event heads what is stored from it on.
  pub appended-Stored_new :
      (g : Ghost Doc) (s p b i : ℕ) (ref : LedgerPos) (entry : Entry Doc)
      (entries : List (Entry Doc))
      → g.owner p ≡ some s
      → length (g.events p) < 2 ^ 16
      → b < 2 ^ 32
      → i < 2 ^ 16
      → Stored g s b i entries
      → Stored
          (appended g p (entry_event entry b i ref))
          s
          p
          (length (g.events p))
          (entry ∷ entries)
  unfolding appended
  appended-Stored_new g s p b i ref entry entries owner small hb hi h =
      let here : (p == p) ≡ true = ground arith in
      (
        owner,
        small,
        (
          b,
          i,
          ref,
          rw (here, appended) (get_elem?-last (g.events p) (entry_event entry b i ref)),
          hb,
          hi,
          appended-Stored g p (entry_event entry b i ref) s b i entries h,
        ),
      )

module _ {Doc Index : Type 0} (C : Calls Doc Index) where
  pub get_block-page :
      (l : Ledger Index) (p s : ℕ) (b : Block)
      → l.pages p ≡ some b
      → b.is_sealed ≡ not (p == l.pending s)
      → get_block C l s p ≡ ok b
  unfolding get_block is_pending
  get_block-page l p s b e sealed = elim (Bool-cases (p == l.pending s)) [
    | inl t ↦ rw (e, get_block, t)
    | inr f ↦ rw (e, get_block, f, sealed, is_pending) (ground arith)
  ]

  -- Reading any event of a shard's blocks finds it.
  pub get_event-Sound :
      (l : Ledger Index) (g : Ghost Doc) (s p i : ℕ) (e : Event Doc)
      → IsCodec C
      → Sound C l g
      → g.owner p ≡ some s
      → get_elem? (g.events p) i ≡ some e
      → get_event C l (record { shard = s; index = i; block = p }) ≡ ok (some e)
  unfolding get_event
  get_event-Sound l g s p i e codec sound owner found =
      let (b, page, holds, sealed) = sound.page p s owner in
      rw (get_block-page l p s b page sealed) (
        rw
          (
            get-Holds b (map C.encode (g.events p)) i (C.encode e) holds
                (get_elem?-map C.encode (g.events p) i e found),
            codec.decode-encode e,
          )
          refl)

  -- The ledger with another pending block of a shard.
  abbrev pub with_pending : Ledger Index → ℕ → Block → Ledger Index
  with_pending l s b = record l { pages = update l.pages (l.pending s) (some b) }

  -- The pending block of a shard has room for an event.
  abbrev pub PendingHasRoom : Ledger Index → Ghost Doc → ℕ → Event Doc → Type 0
  PendingHasRoom l g s e =
      (b : Block)
      → l.pages (l.pending s) ≡ some b
      → (h : Holds b (map C.encode (g.events (l.pending s))))
      → HasRoom (map C.encode (g.events (l.pending s))) h.spare (C.encode e)

  -- The pending block of a shard belongs to no other.
  pub pending-owner :
      (l : Ledger Index) (g : Ghost Doc) (s q t : ℕ)
      → Sound C l g
      → s < num_shards
      → g.owner q ≡ some t
      → q ≡ l.pending s
      → t ≡ s
  pending-owner l g s q t sound k owner at =
      some-injective t s (sym owner ∙ ap g.owner at ∙ sound.pending s k)

  with_pending-Sound :
      (l : Ledger Index) (g : Ghost Doc) (s : ℕ) (e : Event Doc) (b : Block)
      → Sound C l g
      → s < num_shards
      → Holds b (map C.encode (g.events (l.pending s) ++ e ∷ []))
      → b.is_sealed ≡ false
      → Sound C (with_pending l s b) (appended g (l.pending s) e)
  unfolding appended
  with_pending-Sound l g s e b sound k holds unsealed = record {
    page = λ q t owner. elim (Bool-cases (q == l.pending s)) [
      | inl y ↦
          let at : q ≡ l.pending s = ground arith in
          let same : t ≡ s = pending-owner l g s q t sound k owner at in
          (b, ground arith, rw (y) holds, ground (arith, ap l.pending same))
      | inr n ↦ rw (n) (sound.page q t owner)
    ];
    positive = sound.positive;
    below = sound.below;
    fresh = sound.fresh;
    pending = sound.pending;
  }

  -- Appending an event to a block with room.
  pub append_pending-Sound :
      (l : Ledger Index) (g : Ghost Doc) (s : ℕ) (e : Event Doc)
      → Sound C l g
      → s < num_shards
      → PendingHasRoom l g s e
      → (b : Block) × (append_pending C l s e
          ≡ ok (
            with_pending l s b,
            record { shard = s; index = length (g.events (l.pending s)); block = l.pending s },
          ))
        × Sound C (with_pending l s b) (appended g (l.pending s) e)
        × (length (g.events (l.pending s)) < 2 ^ 16)
  unfolding append_pending get_pending_block
  append_pending-Sound l g s e sound k room =
      let p = l.pending s in
      let events = g.events p in
      let (b, page, holds, sealed) = sound.page p s (sound.pending s k) in
      let unsealed : b.is_sealed ≡ false = ground (arith, sealed) in
      let (b', inserted, holds') =
        insert-Holds b (map C.encode events) (C.encode e) holds unsealed (room b page holds) in
      (
        b',
        rw (get_block-page l p s b page sealed) (rw (inserted, length-map C.encode events) refl),
        with_pending-Sound l g s e b' sound k (rw (map-append C.encode events (e ∷ [])) holds')
            (insert_unsealed b (C.encode e) b' (length (map C.encode events)) unsealed inserted),
        omega (arith, holds.files_fit, length-map C.encode events),
      )
