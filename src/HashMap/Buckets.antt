-- ===== src/HashMap/Buckets.antt =====
-- What `get_node` leaves of a bucket when `HashMap::insert` of src/enclave/HashMap.cpp modifies it: a
-- first page, new or old, that heads its chain.
use credb.Prelude.{
  ℕ, ◌+◌, ◌%◌, ◌^◌, ◌≡◌, ◌<◌, inl, inr, refl, some, List, [], ◌∷◌, arith, true, false, ◌==◌,
  Bool-cases,
}
use credb.VersionNumber.{VersionNumber, increment}
use credb.Node.{Node, new_node, invalid_page_no}
use credb.Map.{
  Map, Bucket, ok, get_node_internal, get_node, new_page, write_page, write_bucket, update,
}
use credb.Map.Chains.{Ghost, Chain, Frame, same_pages-Chain}
use credb.HashMap.Heads.{Head}
use credb.HashMap.Reads.{get_node_internal_reads}

module _ {K V : Type 0} where
  -- The map after `new_page`.
  abbrev pub grown : Map K V → Map K V
  grown m = record (write_page m m.next_page new_node) { next_page = (m.next_page + 1) % 2 ^ 32 }

  pub grown_ghost : Map K V → Ghost → ℕ → Ghost
  grown_ghost m g b = record {
    owner = update g.owner m.next_page b;
    place = update g.place m.next_page 0;
  }

  pub grown-Frame :
      (m : Map K V) (g : Ghost) (b : ℕ)
      → m.next_page < invalid_page_no
      → Frame b 0 m g (grown m) (grown_ghost m g b)
  unfolding grown_ghost
  grown-Frame m g b free = record {
    grows = omega arith;
    buckets = refl;
    size = refl;
    pages = λ q l o. ground arith;
    owner = λ q l. ground arith;
    place = λ q l. ground arith;
  }

  pub grown-Head :
      (m : Map K V) (g : Ghost) (b : ℕ) (w : Bucket)
      → m.next_page < invalid_page_no
      → Head (write_bucket (grown m) b w) (grown_ghost m g b) b 0 m.next_page new_node []
  unfolding grown_ghost
  grown-Head m g b w z = record {
    positive = z;
    below = omega arith;
    page = ground arith;
    owner = ground arith;
    place = ground arith;
    rest = (refl, refl);
  }

  pub Chain-Head :
      (m : Map K V) (g : Ghost) (b p q : ℕ) (v : VersionNumber) (n : Node K V)
      (ns : List (ℕ × Node K V)) (w : Bucket)
      → Chain m g b 0 p v ((q, n) ∷ ns)
      → Head (write_bucket m b w) g b 0 p n ns
  Chain-Head m g b p q v n ns w c = record {
    positive = ground (arith, c);
    below = ground (arith, c);
    page = rw (← c.0) c.3;
    owner = rw (← c.0) c.4;
    place = rw (← c.0) c.5;
    rest =
        same_pages-Chain m (write_bucket m b w) g b 1 n.successor n.successor_version ns refl refl
          c.7;
  }

  pub get_node_creates :
      (m : Map K V) (b : ℕ)
      → (m.buckets b).page_no ≡ invalid_page_no
      → get_node m b true false
        ≡ ok (
          write_bucket
              (grown m)
              b
              (record { page_no = m.next_page; version = increment (m.buckets b).version }),
          some (record { page_no = m.next_page; node = new_node }),
        )
  unfolding get_node
  get_node_creates m b e = elim (Bool-cases ((m.buckets b).page_no == invalid_page_no)) [
    | inl t ↦ rw (t, get_node, get_node_internal, new_page)
    | inr f ↦ absurd (ground arith)
  ]

  pub get_node_modifies :
      (m : Map K V) (b : ℕ) (n : Node K V)
      → (m.buckets b).page_no < invalid_page_no
      → m.pages (m.buckets b).page_no ≡ some n
      → n.version ≡ (m.buckets b).version
      → get_node m b true false
        ≡ ok (
          write_bucket m b (record {
            page_no = (m.buckets b).page_no;
            version = increment (m.buckets b).version;
          }),
          some (record { page_no = (m.buckets b).page_no; node = n }),
        )
  unfolding get_node
  get_node_modifies m b n z e v =
      rw (get_node_internal_reads m (m.buckets b).page_no (m.buckets b).version n true z e v)

  pub same-Frame : (m : Map K V) (g : Ghost) (b : ℕ) → Frame b 0 m g m g
  same-Frame m g b = record {
    grows = omega arith;
    buckets = refl;
    size = refl;
    pages = λ q l o. refl;
    owner = λ q l. refl;
    place = λ q l. refl;
  }
