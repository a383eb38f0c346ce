-- ===== src/Ledger/Storing.antt =====
-- A new entry in the history of one object: the event in the pending block, and the primary index that
-- refers to it, as `put_next_version` and `apply_write` of src/enclave/Ledger.cpp leave them.
use credb.Prelude.Names.{equal_names_eq}
use credb.Prelude.{
  ℕ, ◌+◌, ◌^◌, ◌≡◌, ◌<◌, ◌≤◌, refl, ap, sym, subst, ◌∙◌, inl, inr, false, ◌&&◌, Option, none, some,
  List, ◌∷◌, ◌==◌, arith, Bool-cases, if◌then◌else◌, length,
}
use credb.EventId.{EventId}
use credb.Block.{Block, end_pos}
use credb.ObjectEvent.{Event, LedgerPos}
use credb.Ledger.{
  Ledger, Collection, Calls, ok, num_shards, Name, equal_names, update_name, get_shard,
}
use credb.Ledger.Write.{collection_of, new_collection, organize_ledger, min_block_size}
use credb.Ledger.Layout.{
  Ghost, Entry, Sound, Stored, Chained, entry_event, History, Represents, last_event, primary_of,
  IsHistory, AreSmall,
}
use credb.Ledger.Appends.{appended, appended-Stored, appended-Stored_new, with_pending}
use credb.Ledger.Sealing.{organize_ledger-Organized}
use credb.Ledger.Latest.{get_shard-below}

module _ {Doc : Type 0} where
  -- The history with another list of entries for one object.
  abbrev pub with_entries : History Doc → Name → Name → List (Entry Doc) → History Doc
  with_entries h c k entries c' k' =
      if equal_names c' c && equal_names k' k then entries else h c' k'

  Chained-mono :
      (g g' : Ghost Doc) (s : ℕ) (id : Option EventId) (entries : List (Entry Doc))
      → ((b i : ℕ) (es : List (Entry Doc)) → Stored g s b i es → Stored g' s b i es)
      → Chained g s id entries
      → Chained g' s id entries
  Chained-mono g g' s none entries f h = h
  Chained-mono g g' s (some id) entries f (shard, some_entry, stored) =
      (shard, some_entry, f id.block id.index entries stored)

module _ {Doc Index : Type 0} (C : Calls Doc Index) where
  -- The collections and the counters do not matter to the blocks.
  recounted-Sound :
      (l : Ledger Index) (g : Ghost Doc) (cs : Name → Option (Collection Index))
      (objects versions : ℕ)
      → Sound C l g
      → Sound C (record l { collections = cs; object_count = objects; version_count = versions }) g
  recounted-Sound l g cs objects versions s = record {
    page = s.page;
    positive = s.positive;
    below = s.below;
    fresh = s.fresh;
    pending = s.pending;
  }

  pub last_event-collection_of :
      (l : Ledger Index) (c k : Name) → (collection_of C l c).primary_index k ≡ last_event l c k
  unfolding collection_of last_event
  last_event-collection_of l c k = by_collection (l.collections c)
    where
      by_collection :
          (o : Option (Collection Index))
          → Collection.primary_index (elim o [ none ↦ new_collection C | some col ↦ col ]) k
            ≡ primary_of o k
      by_collection none = refl
      by_collection (some col) = refl

  -- The ledger with an event in the pending block, and the index of a collection that refers to it.
  abbrev pub stored_ledger :
      Ledger Index → ℕ → Block → Name → Collection Index → ℕ → ℕ → Ledger Index
  stored_ledger l s b c col objects versions = record (with_pending C l s b) {
    collections = update_name l.collections c (some col);
    object_count = objects;
    version_count = versions;
  }

  -- The id of an event that is appended to a shard.
  abbrev pub next_id : Ledger Index → Ghost Doc → ℕ → EventId
  next_id l g s = record { shard = s; index = length (g.events (l.pending s)); block = l.pending s }

  last_event-stored :
      (l : Ledger Index) (s : ℕ) (b : Block) (c k c' k' : Name) (col : Collection Index)
      (objects versions : ℕ) (id : EventId)
      → ((x : Name) → col.primary_index x ≡ (if equal_names x k then some id else last_event l c x))
      → last_event (stored_ledger l s b c col objects versions) c' k'
        ≡ (if equal_names c' c && equal_names k' k then some id else last_event l c' k')
  unfolding last_event
  last_event-stored l s b c k c' k' col objects versions id index =
      elim (Bool-cases (equal_names c' c)) [
        | inl t ↦
            ap (λ x. primary_of (if x then some col else l.collections c') k') t
            ∙ index k'
            ∙ ap (λ x. if equal_names k' k then some id else last_event l x k')
                (sym (equal_names_eq c' c t))
            ∙ ap (λ x. if x && equal_names k' k then some id else last_event l c' k') (sym t)
        | inr f ↦
            ap (λ x. primary_of (if x then some col else l.collections c') k') f
            ∙ ap (λ x. if x && equal_names k' k then some id else last_event l c' k') (sym f)
      ]

  -- A new entry is stored: the ledger stands for the history with the entry in front of those to which
  -- it refers, which are the whole history of the object or nothing of it.
  pub store-Represents :
      (l : Ledger Index) (h : History Doc) (c k : Name) (entry : Entry Doc)
      (entries : List (Entry Doc)) (b i : ℕ) (ref : LedgerPos) (col : Collection Index)
      (objects versions : ℕ)
      → (r : Represents C l h)
      → ((x : Name)
          → col.primary_index x ≡ (
              if equal_names x k
              then some (next_id l r.ghost (get_shard C c k))
              else last_event l c x))
      → Stored r.ghost (get_shard C c k) b i entries
      → b < 2 ^ 32
      → i < 2 ^ 16
      → IsHistory (entry ∷ entries)
      → length entries + 1 < 2 ^ 32
      → (block : Block)
      → Sound C
          (with_pending C l (get_shard C c k) block)
          (appended r.ghost (l.pending (get_shard C c k)) (entry_event entry b i ref))
      → length (r.ghost.events (l.pending (get_shard C c k))) < 2 ^ 16
      → Represents C
          (stored_ledger l (get_shard C c k) block c col objects versions)
          (with_entries h c k (entry ∷ entries))
  store-Represents l h c k entry entries b i ref col objects versions r index tail hb hi history
        long block sound small =
      record {
        ghost = g';
        sound =
            recounted-Sound (with_pending C l s block) g' (update_name l.collections c (some col))
              objects versions sound;
        chained = λ c' k'. elim (Bool-cases (equal_names c' c && equal_names k' k)) [
          | inl t ↦
              let ec : c' ≡ c = equal_names_eq c' c (ground arith) in
              let ek : k' ≡ k = equal_names_eq k' k (ground arith) in
              rw (t) (
                subst (λ id. Chained g' (get_shard C c' k') id (entry ∷ entries))
                  (sym (
                    last_is c' k'
                    ∙ ap (λ x. if x then some (next_id l r.ghost s) else last_event l c' k') t))
                  (subst
                    (λ x.
                      Chained g' (get_shard C x k') (some (next_id l r.ghost s)) (entry ∷ entries))
                    (sym ec)
                    (subst
                      (λ x.
                        Chained g' (get_shard C c x) (some (next_id l r.ghost s)) (entry ∷ entries))
                      (sym ek)
                      (
                        refl,
                        omega arith,
                        appended-Stored_new r.ghost s p b i ref entry entries
                            (r.sound.pending s (get_shard-below C c k)) small hb hi tail,
                      ))))
          | inr f ↦ rw (f) (
              subst (λ id. Chained g' (get_shard C c' k') id (h c' k'))
                (sym (
                  last_is c' k'
                  ∙ ap (λ x. if x then some (next_id l r.ghost s) else last_event l c' k') f))
                (Chained-mono r.ghost g' (get_shard C c' k') (last_event l c' k') (h c' k')
                  (λ b' i' es. appended-Stored r.ghost p e (get_shard C c' k') b' i' es)
                  (r.chained c' k')))
        ];
        histories = λ c' k'. elim (Bool-cases (equal_names c' c && equal_names k' k)) [
          | inl t ↦ rw (t) history
          | inr f ↦ rw (f) (r.histories c' k')
        ];
        lengths = λ c' k'. elim (Bool-cases (equal_names c' c && equal_names k' k)) [
          | inl t ↦ rw (t) (omega (arith, long))
          | inr f ↦ rw (f) (r.lengths c' k')
        ];
        bounded = r.bounded;
      }
    where
      s : ℕ
      s = get_shard C c k

      p : ℕ
      p = l.pending s

      e : Event Doc
      e = entry_event entry b i ref

      g' : Ghost Doc
      g' = appended r.ghost p e

      last_is :
          (c' k' : Name)
          → last_event (stored_ledger l s block c col objects versions) c' k' ≡ (
              if equal_names c' c && equal_names k' k
              then some (next_id l r.ghost s)
              else last_event l c' k')
      last_is c' k' =
          last_event-stored l s block c k c' k' col objects versions (next_id l r.ghost s) index

  -- `organize_ledger` keeps the history, and leaves every pending block small if the others were.
  pub organize-Represents :
      (l : Ledger Index) (h : History Doc) (s : ℕ)
      → Represents C l h
      → s < num_shards
      → l.next_page + 1 < 2 ^ 32
      → ((t : ℕ) (b : Block)
          → t < num_shards
          → (t == s) ≡ false
          → l.pages (l.pending t) ≡ some b
          → end_pos b < min_block_size)
      → (l' : Ledger Index) × (organize_ledger C l s ≡ ok l')
        × Represents C l' h
        × AreSmall C l'
        × (l'.collections ≡ l.collections)
        × (l'.next_page ≤ l.next_page + 1)
  unfolding last_event
  organize-Represents l h s r k bound others =
      let (l', g', e, o) = organize_ledger-Organized C l r.ghost s r.sound k bound in
      (
        l',
        e,
        record {
          ghost = g';
          sound = o.sound;
          chained = λ c x. rw (o.collections) (
              Chained-mono r.ghost g' (get_shard C c x) (last_event l c x) (h c x)
                (λ b i es. o.stored (get_shard C c x) b i es) (r.chained c x));
          histories = r.histories;
          lengths = r.lengths;
          bounded = omega (arith, o.next_page);
        },
        λ t b j page. elim (Bool-cases (t == s)) [
          | inl y ↦
              let eq : t ≡ s = ground arith in
              o.here b (ap (λ x. l'.pages (l'.pending x)) (sym eq) ∙ page)
          | inr n ↦ others t b j n (sym (o.there t j n) ∙ page)
        ],
        o.collections,
        o.next_page,
      )
