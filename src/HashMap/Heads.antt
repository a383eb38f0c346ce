-- ===== src/HashMap/Heads.antt =====
-- The head of a chain of pages in src/enclave/HashMap.cpp, and what `get_successor` does there.
use credb.Prelude.{
  ℕ, suc, ◌+◌, ◌%◌, ◌^◌, ◌≡◌, ◌≢◌, ◌<◌, ◌⊎◌, inl, inr, refl, some, List, [], ◌∷◌, arith, true,
  false, sym, ◌∙◌, ap, ◌==◌, ==_of_eq, Bool-cases,
}
use credb.VersionNumber.{VersionNumber, increment, eq}
use credb.Node.{Node, invalid_page_no, new_node}
use credb.Map.{Map, ok, update, write_page, read_page, get_node_internal, get_successor}
use credb.Map.Chains.{Ghost, Chain, Frame, write_page-Chain}

module _ {K V : Type 0} where
  -- The page `q`, at place `i` of bucket `b`, holds the node `n`, and the chain goes on with `ns`.
  pub record Head (m : Map K V) (g : Ghost) (b i q : ℕ) (n : Node K V) (ns : List (ℕ × Node K V))
      : Type 0 where
    pub positive : q < invalid_page_no
    pub below : q < m.next_page
    pub page : m.pages q ≡ some n
    pub owner : g.owner q ≡ b
    pub place : g.place q ≡ i
    pub rest : Chain m g b (suc i) n.successor n.successor_version ns

  -- A head whose version is the expected one begins a chain.
  pub Head-Chain :
      (m : Map K V) (g : Ghost) (b i q : ℕ) (v : VersionNumber) (n : Node K V)
      (ns : List (ℕ × Node K V))
      → Head m g b i q n ns
      → n.version ≡ v
      → Chain m g b i q v ((q, n) ∷ ns)
  Head-Chain m g b i q v n ns h e = (refl, h.positive, h.below, h.page, h.owner, h.place, e, h.rest)

  pub Frame-trans :
      (b i : ℕ) (m m' m'' : Map K V) (g g' g'' : Ghost)
      → Frame b i m g m' g'
      → Frame b (suc i) m' g' m'' g''
      → Frame b i m g m'' g''
  Frame-trans b i m m' m'' g g' g'' f k = record {
    grows = omega (arith, f.grows, k.grows);
    buckets = k.buckets ∙ f.buckets;
    size = k.size ∙ f.size;
    pages = λ q l o. k.pages q (omega (arith, f.grows)) (later q l o) ∙ f.pages q l o;
    owner = λ q l. k.owner q (omega (arith, f.grows)) ∙ f.owner q l;
    place = λ q l. k.place q (omega (arith, f.grows)) ∙ f.place q l;
  }
    where
      later :
          (q : ℕ)
          → q < m.next_page
          → (g.owner q ≢ b) ⊎ (g.place q < i)
          → (g'.owner q ≢ b) ⊎ (g'.place q < suc i)
      later q l (inl d) = inl (λ e. d (sym (f.owner q l) ∙ e))
      later q l (inr p) = inr (omega (arith, f.place q l))

  -- Writing a page of the bucket, at the place or behind it.
  pub write_page-Frame :
      (b i : ℕ) (m : Map K V) (g : Ghost) (q : ℕ) (n : Node K V)
      → g.owner q ≡ b
      → g.place q ≡ i
      → Frame b i m g (write_page m q n) g
  write_page-Frame b i m g q n o p = record {
    grows = omega arith;
    buckets = refl;
    size = refl;
    pages = λ x l d. ground arith;
    owner = λ x l. refl;
    place = λ x l. refl;
  }

module _ {K V : Type 0} where
  -- The page, once its successor `succ` is to be modified.
  abbrev pub linked : ℕ → Node K V → Node K V
  linked succ n = record n {
    version = increment n.version;
    successor = succ;
    successor_version = increment n.successor_version;
  }

  -- The map after `get_successor` with `create`, at a page with a successor and at one without.
  abbrev pub next_map : Map K V → ℕ → Node K V → Map K V
  next_map m q n =
      write_page (write_page (write_page m q n) q (record n { version = increment n.version })) q
        (linked n.successor n)

  abbrev pub fresh_map : Map K V → ℕ → Node K V → Map K V
  fresh_map m q n =
      write_page
        (record (write_page
          (write_page (write_page m q n) q (record n { version = increment n.version })) m.next_page
          new_node) { next_page = (m.next_page + 1) % 2 ^ 32 })
        q (linked m.next_page n)

  pub get_successor_fresh :
      (m : Map K V) (q : ℕ) (n : Node K V)
      → n.successor ≡ invalid_page_no
      → get_successor (write_page m q n) (record { page_no = q; node = n }) true false
        ≡ ok (fresh_map m q n, some (record { page_no = m.next_page; node = new_node }))
  unfolding get_successor
  get_successor_fresh m q n e = elim (Bool-cases (n.successor == invalid_page_no)) [
    | inl t ↦ rw (t, get_successor, get_node_internal)
    | inr f ↦ absurd (ground arith)
  ]

  pub get_successor_next :
      (m : Map K V) (q : ℕ) (n n2 : Node K V)
      → n.successor ≢ invalid_page_no
      → n.successor ≢ q
      → m.pages n.successor ≡ some n2
      → n2.version ≡ n.successor_version
      → get_successor (write_page m q n) (record { page_no = q; node = n }) true false
        ≡ ok (next_map m q n, some (record { page_no = n.successor; node = n2 }))
  unfolding get_successor
  get_successor_next m q n n2 z d h v = elim (Bool-cases (n.successor == invalid_page_no)) [
    | inl t ↦ absurd (ground arith)
    | inr f ↦ elim (Bool-cases (n.successor == q)) [
      | inl t ↦ absurd (ground arith)
      | inr k ↦ rw (
        f,
        get_successor,
        get_node_internal,
        read_page,
        k,
        h,
        eq,
        ==_of_eq _ _ (ap (λ (w : VersionNumber). w.value) v),
      )
    ]
  ]

  pub fresh_ghost : Map K V → Ghost → ℕ → ℕ → Ghost
  fresh_ghost m g b i = record {
    owner = update g.owner m.next_page b;
    place = update g.place m.next_page (suc i);
  }

  pub fresh_map-Frame :
      (m : Map K V) (g : Ghost) (b i q : ℕ) (n : Node K V)
      → m.next_page < invalid_page_no
      → Head m g b i q n []
      → Frame b i m g (fresh_map m q n) (fresh_ghost m g b i)
  unfolding fresh_ghost
  fresh_map-Frame m g b i q n free h = record {
    grows = omega arith;
    buckets = refl;
    size = refl;
    pages = λ x l d. ground (arith, h.owner, h.place);
    owner = λ x l. ground arith;
    place = λ x l. ground arith;
  }

  pub fresh_map-Head :
      (m : Map K V) (g : Ghost) (b i q : ℕ) (n : Node K V)
      → m.next_page < invalid_page_no
      → Head m g b i q n []
      → Head (fresh_map m q n) (fresh_ghost m g b i) b (suc i) m.next_page new_node []
  unfolding fresh_ghost
  fresh_map-Head m g b i q n free h = record {
    positive = free;
    below = omega arith;
    page = ground (arith, h.below);
    owner = ground arith;
    place = ground arith;
    rest = (refl, refl);
  }

  pub next_map-Frame :
      (m : Map K V) (g : Ghost) (b i q : ℕ) (n : Node K V) (ns : List (ℕ × Node K V))
      → Head m g b i q n ns
      → Frame b i m g (next_map m q n) g
  next_map-Frame m g b i q n ns h = record {
    grows = omega arith;
    buckets = refl;
    size = refl;
    pages = λ x l d. ground (arith, h.owner, h.place);
    owner = λ x l. refl;
    place = λ x l. refl;
  }

  pub next_map-Head :
      (m : Map K V) (g : Ghost) (b i q p : ℕ) (n n2 : Node K V) (ns : List (ℕ × Node K V))
      → Head m g b i q n ((p, n2) ∷ ns)
      → Head (next_map m q n) g b (suc i) n.successor n2 ns
  next_map-Head m g b i q p n n2 ns h = record {
    positive = ground (arith, h.rest);
    below = ground (arith, h.rest);
    page = ground (arith, h.rest, h.place);
    owner = ground (arith, h.rest);
    place = ground (arith, h.rest);
    rest =
        write_page-Chain m2 g q (linked n.successor n) b (suc (suc i)) _ _ ns
          (omega (arith, h.place))
          (write_page-Chain m1 g q (record n { version = increment n.version }) b (suc (suc i)) _ _
            ns (omega (arith, h.place))
            (write_page-Chain m g q n b (suc (suc i)) _ _ ns (omega (arith, h.place)) h.rest.7));
  }
    where
      m1 : Map K V
      m1 = write_page m q n

      m2 : Map K V
      m2 = write_page m1 q (record n { version = increment n.version })
