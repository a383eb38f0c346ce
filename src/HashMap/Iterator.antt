-- ===== src/HashMap/Iterator.antt =====
-- `HashMap::iterator_t::set_value`, as `Ledger::clear` uses it, against the chain that it walks.
use credb.Prelude.{
  ℕ, suc, ◌≡◌, ◌<◌, inl, inr, refl, none, some, List, [], ◌∷◌, arith, true, false, ◌==◌, Bool-cases,
  Bool,
}
use credb.VersionNumber.{VersionNumber, increment, eq}
use credb.Node.{
  Layout, Node, new_node, find_entry, max_node_size, invalid_page_no, has_key, increment_version_no,
}
use credb.Node
use credb.Map.{
  Map, Handle, err, staleness_detected, get_node_internal, get_node, get_successor, read_page,
  to_bucket,
}
use credb.Map.Chains.{Ghost, Chain}
use credb.HashMap.{get, get_loop, set_value}
use credb.HashMap.Reads.{get_node_internal_reads}

increment-ne : (v : VersionNumber) → eq (increment v) v ≡ false
unfolding eq increment
increment-ne v = ground arith

module _ {K V : Type 0} where
  -- A page that does not hold the expected version is refused.
  pub get_node_internal_stale :
      (m : Map K V) (p : ℕ) (v : VersionNumber) (n : Node K V) (create : Bool)
      → p < invalid_page_no
      → m.pages p ≡ some n
      → eq n.version v ≡ false
      → get_node_internal m p v create ≡ err staleness_detected
  unfolding get_node_internal
  get_node_internal_stale m p v n create z h e = elim (Bool-cases (p == invalid_page_no)) [
    | inl t ↦ absurd (ground arith)
    | inr f ↦ rw (f, get_node_internal, read_page, h, e)
  ]

  get_successor_stale :
      (m : Map K V) (h : Handle K V) (n : Node K V)
      → h.node.successor < invalid_page_no
      → m.pages h.node.successor ≡ some n
      → eq n.version h.node.successor_version ≡ false
      → get_successor m h false false ≡ err staleness_detected
  unfolding get_successor
  get_successor_stale m h n z e v =
      rw (get_node_internal_stale m h.node.successor h.node.successor_version n false z e v)

module _ {K V : Type 0} (L : Layout K V) where
  -- A second page that is out of step stops every `get` that has to go past the first.
  get_second_stale :
      (m : Map K V) (fuel p : ℕ) (v : VersionNumber) (n1 n2 : Node K V) (j : K)
      → (m.buckets (to_bucket L j)).page_no ≡ p
      → (m.buckets (to_bucket L j)).version ≡ v
      → p < invalid_page_no
      → m.pages p ≡ some n1
      → n1.version ≡ v
      → find_entry L j n1.entries ≡ none
      → n1.successor < invalid_page_no
      → m.pages n1.successor ≡ some n2
      → eq n2.version n1.successor_version ≡ false
      → get L (suc fuel) m j ≡ err staleness_detected
  unfolding get get_node get_loop Node.get
  get_second_stale m fuel p v n1 n2 j at_p at_v z page1 step absent z2 page2 behind =
      rw (at_p, at_v, get_node_internal_reads m p v n1 false z page1 step)
        (rw (absent, get_loop, Node.get)
          (rw (get_successor_stale m (record { page_no = p; node = n1 }) n2 z2 page2 behind)))

  -- On a bucket in step with two pages or more, a write of a key of the second page through an
  -- iterator that stands there makes every later `get` of a key of the bucket that the first page
  -- does not hold report staleness.
  pub set_value_stale :
      (m : Map K V) (g : Ghost) (fuel p q : ℕ) (n1 n2 : Node K V) (ns : List (ℕ × Node K V))
      (key j : K) (value : V)
      → Chain m g
          (to_bucket L j)
          0
          (m.buckets (to_bucket L j)).page_no
          (m.buckets (to_bucket L j)).version
          ((p, n1) ∷ (q, n2) ∷ ns)
      → has_key L key n2.entries ≡ true
      → find_entry L j n1.entries ≡ none
      → get L
          (suc fuel)
          (set_value L m
            (to_bucket L j)
            (record { page_no = q; node = n2 })
            (record { page_no = p; node = n1 } ∷ [])
            key
            value)
          j
        ≡ err staleness_detected
  unfolding set_value increment_version_no Node.insert
  set_value_stale m g fuel p q n1 n2 ns key j value c here absent =
      get_second_stale
        (set_value L m (to_bucket L j) (record { page_no = q; node = n2 })
          (record { page_no = p; node = n1 } ∷ []) key value)
        fuel p (increment n1.version) (record n1 { version = increment n1.version })
        (Node.insert L key value n2).0 j (ground (arith, c)) (ground (arith, c)) c.1 (ground arith)
        refl absent (ground (arith, c.7)) (ground (arith, c, c.7))
        (rw (here, c.7.6) (increment-ne n1.successor_version))
