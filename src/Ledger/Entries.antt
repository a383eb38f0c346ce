-- ===== src/Ledger/Entries.antt =====
-- `put_next_version` and `put_tombstone` of src/enclave/Ledger.cpp add an entry to the history of an
-- object.
use credb.Prelude.{
  ℕ, ◌+◌, ◌-◌, ◌%◌, ◌^◌, ◌≡◌, ◌<◌, refl, ap, sym, ◌∙◌, true, false, Option, none, some, List, ◌∷◌,
  ◌==◌, arith, if◌then◌else◌, length,
}
use credb.EventId.{EventId}
use credb.Block.{Block}
use credb.ObjectEvent.{Event, LedgerPos, tombstone}
use credb.Ledger.{
  Ledger, Collection, Calls, ok, num_shards, Name, equal_names, get_shard, OpContext,
}
use credb.Ledger.Write.{
  collection_of, set_collection, index_event, append_pending, link, next_number, put_next_version,
  put_tombstone, remove_version,
}
use credb.Ledger.Layout.{
  Ghost, Entry, version, deleted, Stored, entry_event, History, Represents, last_event, primary_of,
  IsHistory, AreSmall, IsShort,
}
use credb.Ledger.Appends.{
  with_pending, PendingHasRoom, append_pending-Sound, pending-owner, small-HasRoom,
}
use credb.Ledger.Latest.{get_shard-below}
use credb.Ledger.Storing.{
  with_entries, stored_ledger, next_id, store-Represents, last_event-collection_of,
}
use credb.Prelude.Names.{equal_names_self}

module _ {Doc Index : Type 0} (C : Calls Doc Index) where
  -- A ledger after an entry was added to the history of an object, at the id.
  pub record Stores (l l' : Ledger Index) (h : History Doc) (c k : Name)
      (entries : List (Entry Doc)) (id : EventId) : Type 0 where
    pub represents : Represents C l' (with_entries h c k entries)
    pub last : last_event l' c k ≡ some id
    pub in_block : id.block ≡ l.pending (get_shard C c k)
    pub there :
        (t : ℕ)
        → t < num_shards
        → (t == get_shard C c k) ≡ false
        → l'.pages (l'.pending t) ≡ l.pages (l.pending t)
    pub next_page : l'.next_page ≡ l.next_page
    pub elsewhere : (p : ℕ) → (p == l.pending (get_shard C c k)) ≡ false → l'.pages p ≡ l.pages p

  small_room :
      (l : Ledger Index) (g : Ghost Doc) (s : ℕ) (entry : Entry Doc) (b i : ℕ) (ref : LedgerPos)
      → AreSmall C l
      → s < num_shards
      → IsShort C entry
      → PendingHasRoom C l g s (entry_event entry b i ref)
  small_room l g s entry b i ref small k short block page h =
      small-HasRoom block _ (C.encode (entry_event entry b i ref)) h (small s block k page)
        (short b i ref)

  -- The whole of a store, from an entry to the ledger with its event and its index.
  store :
      (l : Ledger Index) (h : History Doc) (c k : Name) (entry : Entry Doc)
      (entries : List (Entry Doc)) (b i : ℕ) (ref : LedgerPos) (col : Collection Index)
      (objects versions : ℕ)
      → (r : Represents C l h) → AreSmall C l
      → IsShort C entry
      → ((x : Name) → col.primary_index x ≡ last_event l c x)
      → Stored r.ghost (get_shard C c k) b i entries
      → b < 2 ^ 32
      → i < 2 ^ 16
      → IsHistory (entry ∷ entries)
      → length entries + 1 < 2 ^ 32
      → (block : Block) × (append_pending C l (get_shard C c k) (entry_event entry b i ref)
          ≡ ok (with_pending C l (get_shard C c k) block, next_id C l r.ghost (get_shard C c k)))
        × Stores l
            (stored_ledger C l
              (get_shard C c k)
              block
              c
              (index_event C k (next_id C l r.ghost (get_shard C c k)) col)
              objects
              versions)
            h
            c
            k
            (entry ∷ entries)
            (next_id C l r.ghost (get_shard C c k))
  unfolding index_event last_event
  store l h c k entry entries b i ref col objects versions r small short index tail hb hi history
        long =
      let s = get_shard C c k in
      let below = get_shard-below C c k in
      let (block, appends, sound, fits) =
        append_pending-Sound C l r.ghost s (entry_event entry b i ref) r.sound below
          (small_room l r.ghost s entry b i ref small below short) in
      (
        block,
        appends,
        record {
          represents =
              store-Represents C l h c k entry entries b i ref
                (index_event C k (next_id C l r.ghost s) col) objects versions r
                (λ x.
                  ap (λ y. if equal_names x k then some (next_id C l r.ghost s) else y) (index x))
                tail hb hi history long block sound fits;
          last =
              ap
                (λ y.
                  primary_of
                    (if y
                      then some (index_event C k (next_id C l r.ghost s) col)
                      else l.collections c)
                    k)
                (equal_names_self c)
              ∙ ap (λ y. if y then some (next_id C l r.ghost s) else col.primary_index k)
                  (equal_names_self k);
          in_block = refl;
          there = λ t j n. ground (
            arith,
            pending-owner C l r.ghost s (l.pending t) t r.sound below (r.sound.pending t j),
          );
          next_page = refl;
          elsewhere = λ p n. ground arith;
        },
      )

  -- `put_next_version`, from what it links and numbers.
  pub put_next_version-Stores :
      (l : Ledger Index) (h : History Doc) (context : OpContext) (c k : Name) (doc : Doc)
      (number : ℕ) (previous_id : EventId) (previous_version : Option (Event Doc)) (ref : LedgerPos)
      (indexes : List Index) (link_id : EventId) (grows v : ℕ) (entries : List (Entry Doc))
      → (r : Represents C l h) → AreSmall C l
      → IsShort C (version context.name doc v)
      → context.is_valid ≡ true
      → C.valid doc ≡ true
      → link C doc k number previous_id previous_version (collection_of C l c).secondary_indexes
        ≡ ok (indexes, link_id, grows)
      → next_number C previous_version ≡ ok v
      → Stored r.ghost (get_shard C c k) link_id.block link_id.index entries
      → link_id.block < 2 ^ 32
      → link_id.index < 2 ^ 16
      → IsHistory (version context.name doc v ∷ entries)
      → length entries + 1 < 2 ^ 32
      → (l' : Ledger Index) × (id : EventId) × (put_next_version C l context c k doc number
            previous_id previous_version ref
          ≡ ok (l', id))
        × Stores l l' h c k (version context.name doc v ∷ entries) id
  unfolding put_next_version
  put_next_version-Stores l h context c k doc number previous_id previous_version ref indexes
        link_id grows v entries r small short valid_context valid_doc linked numbered tail hb hi
        history long =
      let col = record (collection_of C l c) { secondary_indexes = indexes } in
      let (block, appends, stores) =
        store l h c k (version context.name doc v) entries link_id.block link_id.index ref col
          ((l.object_count + grows) % 2 ^ 64) ((l.version_count + 1) % 2 ^ 64) r small short
          (λ x. last_event-collection_of C l c x) tail hb hi history long in
      (
        _,
        _,
        rw (valid_context) (rw (valid_doc) (rw (linked) (rw (numbered) (rw (appends) refl)))),
        stores,
      )

  -- A collection to whose index an event belongs is there.
  collection_found :
      (l : Ledger Index) (c k : Name) (id : EventId)
      → last_event l c k ≡ some id
      → (col : Collection Index) × (l.collections c ≡ some col)
  unfolding last_event
  collection_found l c k id e = by_collection (l.collections c) e
    where
      by_collection :
          (o : Option (Collection Index))
          → primary_of o k ≡ some id
          → (col : Collection Index) × (o ≡ some col)
      by_collection none e = cc
      by_collection (some col) e = (col, refl)

  remove_version_runs :
      (l l1 : Ledger Index) (context : OpContext) (c k : Name) (id id' : EventId) (ref : LedgerPos)
      (s : ℕ) (col : Collection Index)
      → context.is_valid ≡ true
      → id.shard ≡ s
      → append_pending C l s (tombstone context.name id.block id.index ref) ≡ ok (l1, id')
      → l1.collections c ≡ some col
      → remove_version C l context c k id ref
        ≡ ok (
          record (set_collection C l1 c (index_event C k id' col)) {
            object_count = (l1.object_count + 2 ^ 64 - 1) % 2 ^ 64;
          },
          id',
        )
  unfolding remove_version put_tombstone
  remove_version_runs l l1 context c k id id' ref s col valid shard appends found =
      rw (valid) (rw (shard) (rw (appends) (rw (found) refl)))

  -- The branch of `apply_write` that removes an object.
  pub remove_version-Stores :
      (l : Ledger Index) (h : History Doc) (context : OpContext) (c k : Name) (id : EventId)
      (ref : LedgerPos) (entries : List (Entry Doc))
      → (r : Represents C l h) → AreSmall C l
      → IsShort C (deleted context.name)
      → context.is_valid ≡ true
      → id.shard ≡ get_shard C c k
      → last_event l c k ≡ some id
      → Stored r.ghost (get_shard C c k) id.block id.index entries
      → id.block < 2 ^ 32
      → id.index < 2 ^ 16
      → IsHistory (deleted context.name ∷ entries)
      → length entries + 1 < 2 ^ 32
      → (l' : Ledger Index) × (id' : EventId) × (remove_version C l context c k id ref
          ≡ ok (l', id'))
        × Stores l l' h c k (deleted context.name ∷ entries) id'
  unfolding last_event
  remove_version-Stores l h context c k id ref entries r small short valid_context shard last tail
        hb hi history long =
      let (col, found) = collection_found l c k id last in
      let (block, appends, stores) =
        store l h c k (deleted context.name) entries id.block id.index ref col
          ((l.object_count + 2 ^ 64 - 1) % 2 ^ 64) l.version_count r small short
          (λ x. ap (λ o. primary_of o x) (sym found)) tail hb hi history long in
      (
        _,
        _,
        remove_version_runs l (with_pending C l (get_shard C c k) block) context c k id _ ref
            (get_shard C c k) col valid_context shard appends found,
        stores,
      )
