-- ===== src/HashMap/Reads.antt =====
-- `HashMap::get` along a chain of pages that are in step.
use credb.Prelude.{
  ℕ, zero, suc, ◌≡◌, ◌<◌, inl, inr, refl, none, some, List, [], ◌∷◌, arith, false, length, ◌∙◌, ap,
  ◌==◌, ==_of_eq, Bool-cases, Option-cases,
}
use credb.VersionNumber.{VersionNumber, eq}
use credb.Node
use credb.Node.{Layout, Node, find_entry, invalid_page_no}
use credb.Map.{Map, Handle, ok, read_page, get_node_internal, get_node, get_successor}
use credb.Map.Chains.{Ghost, Chain, find_chain}
use credb.HashMap.{get_loop, get}
use credb.Prelude.{Bool}
use credb.Map.{to_bucket}

module _ {K V : Type 0} where
  -- Reading a page that holds the expected version.
  pub get_node_internal_reads :
      (m : Map K V) (p : ℕ) (v : VersionNumber) (n : Node K V) (create : Bool)
      → p < invalid_page_no
      → m.pages p ≡ some n
      → n.version ≡ v
      → get_node_internal m p v create ≡ ok (m, some (record { page_no = p; node = n }))
  unfolding get_node_internal
  get_node_internal_reads m p v n create z h e = elim (Bool-cases (p == invalid_page_no)) [
    | inl t ↦ absurd (ground arith)
    | inr f ↦ rw (
      f,
      get_node_internal,
      read_page,
      h,
      eq,
      ==_of_eq _ _ (ap (λ (w : VersionNumber). w.value) e),
    )
  ]

  pub get_node_internal_ends :
      (m : Map K V) (p : ℕ) (v : VersionNumber)
      → p ≡ invalid_page_no
      → get_node_internal m p v false ≡ ok (m, none)
  unfolding get_node_internal
  get_node_internal_ends m p v e = rw (e)

  pub get_successor_ends :
      (m : Map K V) (h : Handle K V)
      → h.node.successor ≡ invalid_page_no
      → get_successor m h false false ≡ ok (m, none)
  unfolding get_successor
  get_successor_ends m h e =
      rw (get_node_internal_ends m h.node.successor h.node.successor_version e)

  pub get_successor_reads :
      (m : Map K V) (h : Handle K V) (n : Node K V)
      → h.node.successor < invalid_page_no
      → m.pages h.node.successor ≡ some n
      → n.version ≡ h.node.successor_version
      → get_successor m h false false
        ≡ ok (m, some (record { page_no = h.node.successor; node = n }))
  unfolding get_successor
  get_successor_reads m h n z e v =
      rw (get_node_internal_reads m h.node.successor h.node.successor_version n false z e v)

module _ {K V : Type 0} (L : Layout K V) where
  get_loop-find_chain :
      (fuel : ℕ) (m : Map K V) (g : Ghost) (b i q : ℕ) (n : Node K V) (ns : List (ℕ × Node K V))
      (key : K)
      → Chain m g b i n.successor n.successor_version ns
      → length ns < fuel
      → get_loop L fuel m (record { page_no = q; node = n }) key
        ≡ ok (find_chain L key ((q, n) ∷ ns))
  unfolding get_loop find_chain Node.get
  get_loop-find_chain zero m g b i q n ns key c l = absurd (omega arith)
  get_loop-find_chain (suc f) m g b i q n [] key c l =
      elim (Option-cases (find_entry L key n.entries)) [
        | inl e ↦
            rw (e, get_loop, Node.get, find_chain)
              (rw (get_successor_ends m (record { page_no = q; node = n }) c.0) refl)
        | inr (v, e) ↦ rw (e, get_loop, Node.get, find_chain)
      ]
  get_loop-find_chain (suc f) m g b i q n ((p, n2) ∷ ns) key c l =
      elim (Option-cases (find_entry L key n.entries)) [
        | inl e ↦
            rw (e, get_loop, Node.get)
              (rw
                (get_successor_reads m (record { page_no = q; node = n }) n2 (ground (arith, c))
                  (rw (← c.0) c.3) c.6)
                (get_loop-find_chain f m g b (suc i) n.successor n2 ns key c.7 (omega arith)
                  ∙ rw (e, find_chain) refl))
        | inr (v, e) ↦ rw (e, get_loop, Node.get, find_chain)
      ]

  -- `get` on a bucket whose chain is in step.
  pub get-find_chain :
      (fuel : ℕ) (m : Map K V) (g : Ghost) (ns : List (ℕ × Node K V)) (key : K)
      → Chain m g
          (to_bucket L key)
          0
          (m.buckets (to_bucket L key)).page_no
          (m.buckets (to_bucket L key)).version
          ns
      → length ns < fuel
      → get L fuel m key ≡ ok (find_chain L key ns)
  unfolding get get_node find_chain
  get-find_chain fuel m g [] key c l = rw (get_node_internal_ends m _ _ c.0)
  get-find_chain fuel m g ((q, n) ∷ ns) key c l =
      rw
        (get_node_internal_reads m (m.buckets (to_bucket L key)).page_no
          (m.buckets (to_bucket L key)).version n false (ground (arith, c)) (rw (← c.0) c.3) c.6)
        (get_loop-find_chain fuel m g (to_bucket L key) 1 (m.buckets (to_bucket L key)).page_no n ns
          key c.7 (omega arith))
