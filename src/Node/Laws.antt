-- ===== src/Node/Laws.antt =====
-- What the operations of HashMapNode.h and MultiMapNode.h do to the entries of a node.
use credb.Prelude.{
  ◌≡◌, ◌≢◌, ◌<◌, ◌⊎◌, inl, inr, refl, true, false, none, some, List, [], ◌∷◌, ◌++◌, ite, ltb, arith,
  Bool-cases,
}
use credb.VersionNumber.{increment}
use credb.Node.{
  Layout, Node, new_node, max_node_size, entries_size, byte_size, find_entry, update_entries,
  has_key, insert,
}

module _ {K V : Type 0} (L : Layout K V) where
  update_entries_absent :
      (key : K) (value : V) (es : List (K × V))
      → has_key L key es ≡ false
      → update_entries L key value es ≡ es
  unfolding update_entries has_key
  update_entries_absent key value [] h = refl
  update_entries_absent key value ((k, v) ∷ es) h =
      ground (arith, update_entries_absent key value es)

  pub find_entry_absent :
      (key : K) (es : List (K × V)) → has_key L key es ≡ false → find_entry L key es ≡ none
  unfolding find_entry has_key
  find_entry_absent key [] h = refl
  find_entry_absent key ((k, v) ∷ es) h = ground (arith, find_entry_absent key es)

  find_entry-update_absent :
      (key j : K) (value : V) (es : List (K × V))
      → j ≢ key
      → find_entry L j (update_entries L key value es) ≡ find_entry L j es
  unfolding find_entry update_entries
  find_entry-update_absent key j value [] h = refl
  find_entry-update_absent key j value ((k, v) ∷ es) h =
      ground (arith, find_entry-update_absent key j value es)

  find_entry-update :
      (key j : K) (value : V) (es : List (K × V))
      → has_key L key es ≡ true
      → find_entry L j (update_entries L key value es)
        ≡ ite (L.dec_key j key) (some value) (find_entry L j es)
  unfolding find_entry update_entries has_key
  find_entry-update key j value [] h = cc
  find_entry-update key j value ((k, v) ∷ es) h =
      ground (arith, find_entry-update key j value es, find_entry-update_absent key j value es)

  find_entry-append :
      (key j : K) (value : V) (es : List (K × V))
      → has_key L key es ≡ false
      → find_entry L j (es ++ (key, value) ∷ [])
        ≡ ite (L.dec_key j key) (some value) (find_entry L j es)
  unfolding find_entry has_key
  find_entry-append key j value [] h = refl
  find_entry-append key j value ((k, v) ∷ es) h = ground (arith, find_entry-append key j value es)

  -- An insertion that a node accepts makes the key answer with the value, leaves every other key
  -- alone, steps the version and keeps the rest of the header; one that it refuses leaves the node as it was, and then
  -- the key is not in the node.
  pub insert_lem :
      (key : K) (value : V) (n : Node K V)
      → (((insert L key value n).1 ≡ true)
          × ((j : K)
              → find_entry L j (insert L key value n).0.entries
                ≡ ite (L.dec_key j key) (some value) (find_entry L j n.entries))
          × ((insert L key value n).0.version ≡ increment n.version)
          × ((insert L key value n).0.successor ≡ n.successor)
          × ((insert L key value n).0.successor_version ≡ n.successor_version))
        ⊎ (((insert L key value n).1 ≡ false)
            × ((insert L key value n).0 ≡ n)
            × (find_entry L key n.entries ≡ none))
  unfolding insert
  insert_lem key value n = elim (Bool-cases (has_key L key n.entries)) [
    | inl e ↦ inl (rw e, λ j. rw (e, find_entry-update key j value n.entries e), rw e, rw e, rw e)
    | inr e ↦
        rw (e, update_entries_absent key value n.entries e)
          (elim (Bool-cases (ltb (byte_size L n) max_node_size)) [
            | inl f ↦
                inl (rw f, λ j. rw (f, find_entry-append key j value n.entries e), rw f, rw f, rw f)
            | inr f ↦ inr (rw f, rw f, find_entry_absent key n.entries e)
          ])
  ]

  -- An empty node accepts every entry, if its own bytes leave room below the limit.
  pub insert-new_node :
      (key : K) (value : V) → L.node_base < max_node_size → (insert L key value new_node).1 ≡ true
  unfolding insert byte_size entries_size has_key update_entries
  insert-new_node key value h = ground arith
