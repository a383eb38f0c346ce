-- ===== src/MultiMap/Remove.antt =====
-- `MultiMap::remove` of an entry that is not there.
use credb.Prelude.{
  ℕ, suc, ◌≡◌, ◌<◌, inl, inr, refl, none, some, [], ◌∷◌, arith, true, false, Bool, Bool-cases, ◌==◌,
  ==_of_eq,
}
use credb.VersionNumber.{VersionNumber, increment, eq}
use credb.Node.{Layout, Node, has_entry, invalid_page_no}
use credb.Node
use credb.Map.{
  Map, Handle, ok, err, staleness_detected, get_node_internal, get_node, get_successor, to_bucket,
  write_page, write_bucket,
}
use credb.Map.Chains.{Ghost}
use credb.HashMap.Reads.{get_node_internal_reads}
use credb.HashMap.Iterator.{get_node_internal_stale}
use credb.MultiMap.{remove, remove_loop, estimate, insert, find_union}
use credb.MultiMap.Reads.{IsBucket}

eq-increment : (v : VersionNumber) → eq v (increment v) ≡ false
unfolding eq increment
eq-increment v = ground arith

module _ {K V : Type 0} where
  get_node_modify :
      (m : Map K V) (b : ℕ) (n : Node K V)
      → (m.buckets b).page_no < invalid_page_no
      → m.pages (m.buckets b).page_no ≡ some n
      → n.version ≡ (m.buckets b).version
      → get_node m b false true
        ≡ ok (
          write_bucket m b (record {
            page_no = (m.buckets b).page_no;
            version = increment (m.buckets b).version;
          }),
          some (record { page_no = (m.buckets b).page_no; node = n }),
        )
  unfolding get_node
  get_node_modify m b n z e v = elim (Bool-cases ((m.buckets b).page_no == invalid_page_no)) [
    | inl t ↦ absurd (ground arith)
    | inr f ↦
        rw (get_node_internal_reads m (m.buckets b).page_no (m.buckets b).version n false z e v)
          (rw f)
  ]

  get_node_stale :
      (m : Map K V) (b : ℕ) (n : Node K V) (create modify : Bool)
      → (m.buckets b).page_no < invalid_page_no
      → m.pages (m.buckets b).page_no ≡ some n
      → eq n.version (m.buckets b).version ≡ false
      → get_node m b create modify ≡ err staleness_detected
  unfolding get_node
  get_node_stale m b n create modify z e v =
      rw (get_node_internal_stale m (m.buckets b).page_no (m.buckets b).version n create z e v)

  get_successor_last :
      (m : Map K V) (h : Handle K V)
      → h.node.successor ≡ invalid_page_no
      → get_successor m h false true ≡ ok (m, none)
  unfolding get_successor
  get_successor_last m h e = elim (Bool-cases (h.node.successor == invalid_page_no)) [
    | inl t ↦ rw (t, get_successor, get_node_internal)
    | inr f ↦ absurd (ground arith)
  ]

module _ {K V : Type 0} (L : Layout K V) where
  -- The map after a removal that found nothing on the only page of a bucket: the bucket's version is
  -- one further, the page's is not.
  abbrev missed : Map K V → K → Node K V → Map K V
  missed m key n =
      write_page
        (write_bucket m (to_bucket L key) (record {
          page_no = (m.buckets (to_bucket L key)).page_no;
          version = increment (m.buckets (to_bucket L key)).version;
        }))
        (m.buckets (to_bucket L key)).page_no n

  remove_absent :
      (key : K) (value : V) (n : Node K V)
      → has_entry L key value n.entries ≡ false
      → ((Node.remove L key value n).0 ≡ n) × ((Node.remove L key value n).1 ≡ false)
  unfolding Node.remove
  remove_absent key value n e = (rw e, rw e)

  remove_loop_missed :
      (fuel : ℕ) (m : Map K V) (h : Handle K V) (key : K) (value : V)
      → has_entry L key value h.node.entries ≡ false
      → h.node.successor ≡ invalid_page_no
      → remove_loop L (suc fuel) m h key value ≡ ok (write_page m h.page_no h.node, false)
  unfolding remove_loop
  remove_loop_missed fuel m h key value e last =
      let (same, missing) = remove_absent key value h.node e in
      rw (missing, remove_loop, same)
        (rw (get_successor_last (write_page m h.page_no h.node) h last))

  remove-missed :
      (fuel : ℕ) (m : Map K V) (g : Ghost) (key : K) (value : V) (q : ℕ) (n : Node K V)
      → IsBucket L m g key ((q, n) ∷ [])
      → has_entry L key value n.entries ≡ false
      → remove L (suc fuel) m key value ≡ ok (missed m key n, false)
  unfolding remove
  remove-missed fuel m g key value q n c e =
      rw (get_node_modify m (to_bucket L key) n (ground (arith, c)) (rw (← c.0) c.3) c.6) (
        rw (
          remove_loop_missed fuel _
            (record { page_no = (m.buckets (to_bucket L key)).page_no; node = n }) key value e
            c.7.0))

  missed-stale :
      (m : Map K V) (g : Ghost) (key : K) (q : ℕ) (n : Node K V)
      → IsBucket L m g key ((q, n) ∷ [])
      → (create modify : Bool)
      → get_node (missed m key n) (to_bucket L key) create modify ≡ err staleness_detected
  missed-stale m g key q n c create modify =
      get_node_stale (missed m key n) (to_bucket L key) n create modify (ground (arith, c))
        (ground arith)
        (rw (← c.6, ==_of_eq (to_bucket L key) (to_bucket L key) refl) (eq-increment n.version))

  -- A removal of an entry that is not stored, from a bucket of one page, answers `false` and leaves
  -- the bucket's version one ahead of the page's: every later lookup, count or insertion of a key of
  -- that bucket reports staleness, though no page was tampered with.
  pub remove_absent_stale :
      (fuel more : ℕ) (m : Map K V) (g : Ghost) (key j : K) (value w : V) (q : ℕ) (n : Node K V)
      → IsBucket L m g key ((q, n) ∷ [])
      → has_entry L key value n.entries ≡ false
      → to_bucket L j ≡ to_bucket L key
      → (m' : Map K V) × (remove L (suc fuel) m key value ≡ ok (m', false))
        × (estimate L more m' j ≡ err staleness_detected)
        × (find_union L more m' j [] ≡ err staleness_detected)
        × (insert L more m' j w ≡ err staleness_detected)
  unfolding estimate find_union insert
  remove_absent_stale fuel more m g key j value w q n c e same =
      let stale = missed-stale m g key q n c in
      (
        missed m key n,
        remove-missed fuel m g key value q n c e,
        rw (same, stale false false),
        rw (same, stale false false),
        rw (same, stale true false),
      )
