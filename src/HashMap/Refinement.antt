-- ===== src/HashMap/Refinement.antt =====
-- `HashMap` implements a finite map: a `get` never meets a stale page, and answers with the value last
-- inserted under the key.
use credb.Prelude.{
  ℕ, zero, suc, ◌+◌, ◌≡◌, ◌≢◌, ◌<◌, ◌≤◌, inl, inr, refl, Option, none, some, List, [], ◌∷◌, arith,
  true, false, length, sym, ◌∙◌, ap, ◌==◌, ==_iff, if_neg, ◌⊎◌, Bool-cases, ite, if◌then◌else◌,
}
use credb.VersionNumber.{VersionNumber, increment}
use credb.Node.{Layout, Node, new_node, find_entry, max_node_size, invalid_page_no}
use credb.Node.Laws.{insert-new_node}
use credb.Map.{Map, ok, get_node, new_map, write_bucket, to_bucket}
use credb.Map.Chains.{Ghost, Chain, Frame, Frame-Chain, same_pages-Chain, find_chain}
use credb.HashMap.{insert, get}
use credb.HashMap.Buckets.{
  grown, grown_ghost, grown-Frame, grown-Head, Chain-Head, get_node_creates, get_node_modifies,
  same-Frame,
}
use credb.HashMap.Insert.{Inserts, insert_loop_accepts, insert_loop-Inserts}
use credb.HashMap.Reads.{get-find_chain}

module _ {K V : Type 0} (L : Layout K V) where
  -- The map stands for the function: every bucket is a chain of at most `depth` pages, each page in
  -- step with the version that refers to it, and the first entry with a key holds its value.
  pub record Represents (m : Map K V) (depth : ℕ) (f : K → Option V) : Type 0 where
    pub ghost : Ghost
    pub chains : ℕ → List (ℕ × Node K V)
    pub chained : (b : ℕ) → Chain m ghost b 0 (m.buckets b).page_no (m.buckets b).version (chains b)
    pub shallow : (b : ℕ) → length (chains b) ≤ depth
    pub answers : (j : K) → find_chain L j (chains (to_bucket L j)) ≡ f j

  -- The function after the key is given the value.
  abbrev pub put : K → V → (K → Option V) → K → Option V
  put key value f j = ite (L.dec_key j key) (some value) (f j)

  -- A new map stands for the function that has no value.
  pub new_map-Represents : Represents new_map 0 (λ j. none)
  unfolding new_map find_chain
  new_map-Represents = record {
    ghost = record { owner = λ q. 0; place = λ q. 0 };
    chains = λ b. [];
    chained = λ b. (refl, refl);
    shallow = λ b. omega arith;
    answers = λ j. refl;
  }

  -- On a map that stands for a function, a `get` with more fuel than the chains are deep ends with
  -- the function's answer, and meets no stale page.
  pub get-Represents :
      (m : Map K V) (depth fuel : ℕ) (f : K → Option V) (key : K)
      → Represents m depth f
      → depth < fuel
      → get L fuel m key ≡ ok (f key)
  get-Represents m depth fuel f key r l =
      get-find_chain L fuel m r.ghost (r.chains (to_bucket L key)) key (r.chained (to_bucket L key))
        (omega (arith, r.shallow (to_bucket L key)))
      ∙ ap ok (r.answers key)

  -- The chains after an insertion in bucket `b`.
  abbrev new_chains : (ℕ → List (ℕ × Node K V)) → ℕ → List (ℕ × Node K V) → ℕ → List (ℕ × Node K V)
  new_chains chains b ns c = if c == b then ns else chains c

  -- From the loop's promise, in the map that `get_node` returned, to the map after `insert`.
  insert_finishes :
      (m m0 : Map K V) (depth fuel bound : ℕ) (f : K → Option V) (key : K) (value : V)
      (r : Represents m depth f) (g : Ghost) (q : ℕ) (v : VersionNumber) (n : Node K V)
      (ns : List (ℕ × Node K V))
      → Frame (to_bucket L key) 0 m r.ghost m0 g
      → v ≡ increment n.version
      → get_node m (to_bucket L key) true false
        ≡ ok (
          write_bucket m0 (to_bucket L key) (record { page_no = q; version = v }),
          some (record { page_no = q; node = n }),
        )
      → ((j : K) → find_chain L j ((q, n) ∷ ns) ≡ find_chain L j (r.chains (to_bucket L key)))
      → bound ≤ suc depth
      → Inserts L fuel
          (write_bucket m0 (to_bucket L key) (record { page_no = q; version = v }))
          g
          (to_bucket L key)
          0
          q
          n
          ns
          key
          value
          bound
          (m.next_page + 1)
      → (m' : Map K V) × (insert L fuel m key value
          ≡ ok (m', (to_bucket L key, m'.buckets (to_bucket L key))))
        × Represents m' (suc depth) (put key value f)
        × (m'.size ≡ m.size + 1)
        × (m'.next_page ≤ m.next_page + 1)
  unfolding insert
  insert_finishes m m0 depth fuel bound f key value r g q v n ns frame step got same fits
        (m1, g1, ns1, run, chain, frame1, found, len, few) =
      (
        record m1 { size = m1.size + 1 },
        rw (got, insert, run),
        record {
          ghost = g1;
          chains = new_chains r.chains b ns1;
          chained = λ c. chained_after c (Bool-cases (c == b));
          shallow = λ c. ground (arith, r.shallow c);
          answers = λ j. answers_after j (Bool-cases (to_bucket L j == b));
        },
        omega (arith, frame1.size, frame.size),
        few,
      )
    where
      b : ℕ
      b = to_bucket L key

      other : (c : ℕ) → (c == b) ≡ false → c ≢ b
      other c e k = ground arith

      chained_after :
          (c : ℕ)
          → ((c == b) ≡ true) ⊎ ((c == b) ≡ false)
          → Chain
              (record m1 { size = m1.size + 1 })
              g1
              c
              0
              (m1.buckets c).page_no
              (m1.buckets c).version
              (new_chains r.chains b ns1 c)
      chained_after c (inl e) =
          rw (frame1.buckets, e, step, (==_iff c b).0 e)
            (same_pages-Chain m1 (record m1 { size = m1.size + 1 }) g1 b 0 q (increment n.version)
              ns1 refl refl chain)
      chained_after c (inr e) =
          rw (frame1.buckets, e, frame.buckets)
            (same_pages-Chain m1 (record m1 { size = m1.size + 1 }) g1 c 0 (m.buckets c).page_no
              (m.buckets c).version (r.chains c) refl refl
              (Frame-Chain b 0 (write_bucket m0 b (record { page_no = q; version = v })) g m1 g1
                frame1 c 0 (m.buckets c).page_no (m.buckets c).version (r.chains c) (other c e)
                (same_pages-Chain m0 (write_bucket m0 b (record { page_no = q; version = v })) g c 0
                  (m.buckets c).page_no (m.buckets c).version (r.chains c) refl refl
                  (Frame-Chain b 0 m r.ghost m0 g frame c 0 (m.buckets c).page_no
                    (m.buckets c).version (r.chains c) (other c e) (r.chained c)))))

      answers_after :
          (j : K)
          → ((to_bucket L j == b) ≡ true) ⊎ ((to_bucket L j == b) ≡ false)
          → find_chain L j (new_chains r.chains b ns1 (to_bucket L j)) ≡ put key value f j
      answers_after j (inl e) =
          rw (e, found j, same j, ← (==_iff (to_bucket L j) b).0 e, r.answers j)
      answers_after j (inr e) =
          rw (e, r.answers j)
            (sym (if_neg (L.dec_key j key) (λ k. ground (arith, ap (to_bucket L) k)) _ _))

module _ {K V : Type 0} (L : Layout K V) where
  -- What `insert` promises of a map that stands for a function.
  abbrev pub InsertsInto : Map K V → ℕ → ℕ → (K → Option V) → K → V → Type 0
  InsertsInto m depth fuel f key value =
      (m' : Map K V) × (insert L fuel m key value
        ≡ ok (m', (to_bucket L key, m'.buckets (to_bucket L key))))
      × Represents L m' (suc depth) (put L key value f)
      × (m'.size ≡ m.size + 1)
      × (m'.next_page ≤ m.next_page + 1)

  insert_by_chain :
      (m : Map K V) (depth fuel : ℕ) (f : K → Option V) (key : K) (value : V)
      (r : Represents L m depth f) (ns : List (ℕ × Node K V))
      → L.node_base < max_node_size
      → m.next_page < invalid_page_no
      → depth + 2 ≤ fuel
      → r.chains (to_bucket L key) ≡ ns
      → InsertsInto m depth fuel f key value
  unfolding find_chain find_entry
  insert_by_chain m depth zero f key value r ns room free l e = absurd (omega arith)
  insert_by_chain m depth (suc fuel) f key value r [] room free l e =
      let b = to_bucket L key in
      let c = rw e at (r.chained b) in
      let v = increment (m.buckets b).version in
      insert_finishes L m (grown m) depth (suc fuel) 1 f key value r (grown_ghost m r.ghost b)
        m.next_page v new_node [] (grown-Frame m r.ghost b free) (ap increment c.1)
        (get_node_creates m b c.0) (λ j. rw e refl) (omega arith)
        (insert_loop_accepts L fuel _ (grown_ghost m r.ghost b) b 0 m.next_page new_node [] key
          value 1 (m.next_page + 1)
          (grown-Head m r.ghost b (record { page_no = m.next_page; version = v }) free)
          (insert-new_node L key value room) (omega arith) (omega arith))
  insert_by_chain m depth (suc fuel) f key value r ((q, n) ∷ ns) room free l e =
      let b = to_bucket L key in
      let c = rw e at (r.chained b) in
      let bucket = m.buckets b in
      let v = increment bucket.version in
      insert_finishes L m m depth (suc fuel) (suc (suc (length ns))) f key value r r.ghost
        bucket.page_no v n ns (same-Frame m r.ghost b) (ap increment (sym c.6))
        (get_node_modifies m b n (ground (arith, c)) (rw (← c.0) c.3) c.6) (λ j. rw e refl)
        (omega (arith, r.shallow b, ap length e))
        (insert_loop-Inserts L (suc fuel) _ r.ghost b 0 bucket.page_no n ns key value room free
          (Chain-Head m r.ghost b bucket.page_no q bucket.version n ns
            (record { page_no = bucket.page_no; version = v }) c)
          (omega (arith, r.shallow b, ap length e)))

  -- On a map that stands for a function, with a page number left, an insertion with two rounds of
  -- fuel more than the chains are deep ends and meets no stale page, if an empty node is below the
  -- size limit. The new map, at most one page larger and one deeper, stands for the function with the
  -- new value under the key; its bucket of the key is what the call writes to `out_changes`, and its
  -- size has grown by one, whether the key was there or not.
  pub insert-Represents :
      (m : Map K V) (depth fuel : ℕ) (f : K → Option V) (key : K) (value : V)
      → Represents L m depth f
      → L.node_base < max_node_size
      → m.next_page < invalid_page_no
      → depth + 2 ≤ fuel
      → InsertsInto m depth fuel f key value
  insert-Represents m depth fuel f key value r room free l =
      insert_by_chain m depth fuel f key value r (r.chains (to_bucket L key)) room free l refl
