-- ===== src/Map/Chains.antt =====
-- The invariant of the chains of pages, and what leaves them alone.
use credb.Prelude.{
  ℕ, suc, ◌≡◌, ◌≢◌, ◌<◌, ◌≤◌, ◌⊎◌, inl, Option, none, some, List, [], ◌∷◌, arith, sym, ◌∙◌,
}
use credb.VersionNumber.{VersionNumber, initial}
use credb.Node.{Layout, Node, find_entry, invalid_page_no}
use credb.Map.{Map, write_page}

-- To which bucket a page belongs, and at which place of its chain it stands.
pub record Ghost : Type 0 where
  pub owner : ℕ → ℕ
  pub place : ℕ → ℕ

module _ {K V : Type 0} where
  -- From page `p`, at place `i` of bucket `b`, the chain consists of the nodes, and each has the
  -- version that the reference to it records.
  abbrev pub Chain : Map K V → Ghost → ℕ → ℕ → ℕ → VersionNumber → List (ℕ × Node K V) → Type 0
  Chain m g b i p v [] = (p ≡ invalid_page_no) × (v ≡ initial)
  Chain m g b i p v ((q, n) ∷ ns) =
      (q ≡ p)
      × (q < invalid_page_no)
      × (q < m.next_page)
      × (m.pages q ≡ some n)
      × (g.owner q ≡ b)
      × (g.place q ≡ i)
      × (n.version ≡ v)
      × Chain m g b (suc i) n.successor n.successor_version ns

  -- What an operation at bucket `b`, from place `i` of its chain on, leaves as it was.
  pub record Frame (b i : ℕ) (m : Map K V) (g : Ghost) (m' : Map K V) (g' : Ghost) : Type 0 where
    pub grows : m.next_page ≤ m'.next_page
    pub buckets : m'.buckets ≡ m.buckets
    pub size : m'.size ≡ m.size
    pub pages :
        (q : ℕ) → q < m.next_page → (g.owner q ≢ b) ⊎ (g.place q < i) → m'.pages q ≡ m.pages q
    pub owner : (q : ℕ) → q < m.next_page → g'.owner q ≡ g.owner q
    pub place : (q : ℕ) → q < m.next_page → g'.place q ≡ g.place q

  -- The chain of another bucket is untouched.
  pub Frame-Chain :
      (b i : ℕ) (m : Map K V) (g : Ghost) (m' : Map K V) (g' : Ghost)
      → Frame b i m g m' g'
      → (c j p : ℕ) (v : VersionNumber) (ns : List (ℕ × Node K V)) → (c ≢ b)
      → Chain m g c j p v ns
      → Chain m' g' c j p v ns
  Frame-Chain b i m g m' g' f c j p v [] d h = h
  Frame-Chain b i m g m' g' f c j p v ((q, n) ∷ ns) d h =
      let other : g.owner q ≢ b = λ e. d (sym h.4 ∙ e) in
      (
        h.0,
        h.1,
        omega (arith, f.grows),
        f.pages q h.2 (inl other) ∙ h.3,
        f.owner q h.2 ∙ h.4,
        f.place q h.2 ∙ h.5,
        h.6,
        Frame-Chain b i m g m' g' f c (suc j) n.successor n.successor_version ns d h.7,
      )

  -- Writing the page at an earlier place of a chain, or a bucket, leaves the chain as it was.
  pub write_page-Chain :
      (m : Map K V) (g : Ghost) (x : ℕ) (n' : Node K V) (b i p : ℕ) (v : VersionNumber)
      (ns : List (ℕ × Node K V))
      → g.place x < i
      → Chain m g b i p v ns
      → Chain (write_page m x n') g b i p v ns
  write_page-Chain m g x n' b i p v [] l h = h
  write_page-Chain m g x n' b i p v ((q, n) ∷ ns) l h = (
    h.0,
    h.1,
    h.2,
    ground arith,
    h.4,
    h.5,
    h.6,
    write_page-Chain m g x n' b (suc i) n.successor n.successor_version ns (omega arith) h.7,
  )

  -- The chains depend on the pages alone.
  pub same_pages-Chain :
      (m m' : Map K V) (g : Ghost) (b i p : ℕ) (v : VersionNumber) (ns : List (ℕ × Node K V))
      → m'.pages ≡ m.pages
      → m'.next_page ≡ m.next_page
      → Chain m g b i p v ns
      → Chain m' g b i p v ns
  same_pages-Chain m m' g b i p v [] e k h = h
  same_pages-Chain m m' g b i p v ((q, n) ∷ ns) e k h = (
    h.0,
    h.1,
    omega (arith, h.2),
    rw e h.3,
    h.4,
    h.5,
    h.6,
    same_pages-Chain m m' g b (suc i) n.successor n.successor_version ns e k h.7,
  )

module _ {K V : Type 0} (L : Layout K V) where
  -- The value of the first entry with the key, along a chain.
  unfoldable pub find_chain : K → List (ℕ × Node K V) → Option V
  find_chain key [] = none
  find_chain key ((q, n) ∷ ns) = elim (find_entry L key n.entries) [
    | some v ↦ some v
    | none ↦ find_chain key ns
  ]
