-- ===== src/HashMap/Insert.antt =====
-- The loop of `HashMap::insert` along a chain of pages keeps every page in step with the version
-- number that refers to it.
use credb.Prelude.{
  ℕ, zero, suc, ◌+◌, ◌≡◌, ◌<◌, ◌≤◌, inl, inr, refl, none, some, List, [], ◌∷◌, arith, true, false,
  length, sym, ◌∙◌, ite,
}
use credb.VersionNumber.{increment}
use credb.Node.{
  Layout, Node, find_entry, invalid_page_no, new_node, increment_version_no,
  increment_successor_version, set_successor, max_node_size,
}
use credb.Node
use credb.Node.Laws.{insert_lem, insert-new_node}
use credb.Map.{Map, ok, write_page, get_successor}
use credb.Map.Chains.{Ghost, Chain, Frame, write_page-Chain, find_chain}
use credb.HashMap.{insert_loop}
use credb.HashMap.Heads.{
  Head, Frame-trans, write_page-Frame, linked, next_map, fresh_map, get_successor_fresh,
  get_successor_next, fresh_ghost, fresh_map-Frame, fresh_map-Head, next_map-Frame, next_map-Head,
}

module _ {K V : Type 0} (L : Layout K V) where
  -- What the loop promises from a head on: it ends, the chain is in step with a version that has gone
  -- one further, the key answers with the value and every other key as before.
  abbrev pub Inserts :
      ℕ → Map K V → Ghost → ℕ → ℕ → ℕ → Node K V → List (ℕ × Node K V) → K → V → ℕ → ℕ → Type 0
  Inserts fuel m g b i q n ns key value bound limit =
      (m' : Map K V) × (g' : Ghost) × (ns' : List (ℕ × Node K V)) × (insert_loop L fuel m
          (record { page_no = q; node = n }) key value
        ≡ ok m')
      × Chain m' g' b i q (increment n.version) ns'
      × Frame b i m g m' g'
      × ((j : K)
          → find_chain L j ns' ≡ ite (L.dec_key j key) (some value) (find_chain L j ((q, n) ∷ ns)))
      × (length ns' ≤ bound)
      × (m'.next_page ≤ limit)

  pub insert_loop_accepts :
      (fuel : ℕ) (m : Map K V) (g : Ghost) (b i q : ℕ) (n : Node K V) (ns : List (ℕ × Node K V))
      (key : K) (value : V) (bound limit : ℕ)
      → Head m g b i q n ns
      → (Node.insert L key value n).1 ≡ true
      → length ns < bound
      → m.next_page ≤ limit
      → Inserts (suc fuel) m g b i q n ns key value bound limit
  unfolding insert_loop find_chain
  insert_loop_accepts fuel m g b i q n ns key value bound limit h e fits few =
      elim (insert_lem L key value n) [
        | inr (no_room, _, _) ↦ cc
        | inl (_, found, step, succ, succ_v) ↦ (
          write_page m q n',
          g,
          (q, n') ∷ ns,
          rw (e, insert_loop),
          (
            refl,
            h.positive,
            h.below,
            ground arith,
            h.owner,
            h.place,
            step,
            rw (succ, succ_v)
                (write_page-Chain m g q n' b (suc i) n.successor n.successor_version ns
                  (omega (arith, h.place)) h.rest),
          ),
          write_page-Frame b i m g q n' h.owner h.place,
          (λ j. ground (arith, found j)),
          omega arith,
          few,
        )
      ]
    where
      n' : Node K V
      n' = (Node.insert L key value n).0

  -- The page refuses, and the loop goes on at the successor `x` in the map `m2`.
  insert_loop_continues :
      (fuel : ℕ) (m m2 : Map K V) (g g2 : Ghost) (b i q x : ℕ) (n nx : Node K V)
      (ns rest : List (ℕ × Node K V)) (key : K) (value : V) (bound limit : ℕ)
      → Head m g b i q n ns
      → (Node.insert L key value n).1 ≡ false
      → (Node.insert L key value n).0 ≡ n
      → find_entry L key n.entries ≡ none
      → get_successor (write_page m q n) (record { page_no = q; node = n }) true false
        ≡ ok (m2, some (record { page_no = x; node = nx }))
      → Frame b i m g m2 g2
      → m2.pages q ≡ some (linked x n)
      → nx.version ≡ n.successor_version
      → ((j : K) → find_chain L j ((x, nx) ∷ rest) ≡ find_chain L j ns)
      → Inserts fuel m2 g2 b (suc i) x nx rest key value bound limit
      → Inserts (suc fuel) m g b i q n ns key value (suc bound) limit
  unfolding insert_loop find_chain
  insert_loop_continues fuel m m2 g g2 b i q x n nx ns rest key value bound limit h e same absent
        got frame page step tail (m', g', ns', run, chain, frame2, found, len, few) =
      (
        m',
        g',
        (q, linked x n) ∷ ns',
        rw (e, insert_loop, same, got) run,
        (
          refl,
          h.positive,
          omega (arith, h.below, frame.grows, frame2.grows),
          frame2.pages q (omega (arith, h.below, frame.grows))
                (inr (omega (arith, frame.place q h.below, h.place)))
              ∙ page,
          frame2.owner q (omega (arith, h.below, frame.grows)) ∙ frame.owner q h.below ∙ h.owner,
          frame2.place q (omega (arith, h.below, frame.grows)) ∙ frame.place q h.below ∙ h.place,
          refl,
          rw (← step) chain,
        ),
        Frame-trans b i m m2 m' g g2 g' frame frame2,
        (λ j. ground (arith, found j, tail j)),
        omega arith,
        few,
      )

  -- From every head on the loop keeps its promise, if the fuel exceeds the pages ahead by one.
  pub insert_loop-Inserts :
      (fuel : ℕ) (m : Map K V) (g : Ghost) (b i q : ℕ) (n : Node K V) (ns : List (ℕ × Node K V))
      (key : K) (value : V)
      → L.node_base < max_node_size
      → m.next_page < invalid_page_no
      → Head m g b i q n ns
      → length ns + 2 ≤ fuel
      → Inserts fuel m g b i q n ns key value (suc (suc (length ns))) (m.next_page + 1)
  unfolding find_chain find_entry
  insert_loop-Inserts zero m g b i q n ns key value room free h l = absurd (omega arith)
  insert_loop-Inserts (suc zero) m g b i q n ns key value room free h l = absurd (omega arith)
  insert_loop-Inserts (suc (suc f)) m g b i q n [] key value room free h l =
      elim (insert_lem L key value n) [
        | inl a ↦
            insert_loop_accepts (suc f) m g b i q n [] key value 2 (m.next_page + 1) h a.0
              (omega arith) (omega arith)
        | inr (e, same, absent) ↦
            insert_loop_continues (suc f) m (fresh_map m q n) g (fresh_ghost m g b i) b i q
              m.next_page n new_node [] [] key value 1 (m.next_page + 1) h e same absent
              (get_successor_fresh m q n h.rest.0) (fresh_map-Frame m g b i q n free h)
              (ground arith) (sym h.rest.1) (λ j. refl)
              (insert_loop_accepts f (fresh_map m q n) (fresh_ghost m g b i) b (suc i) m.next_page
                new_node [] key value 1 (m.next_page + 1) (fresh_map-Head m g b i q n free h)
                (insert-new_node L key value room) (omega arith) (omega arith))
      ]
  insert_loop-Inserts (suc (suc f)) m g b i q n ((p, n2) ∷ ns) key value room free h l =
      elim (insert_lem L key value n) [
        | inl a ↦
            insert_loop_accepts (suc f) m g b i q n ((p, n2) ∷ ns) key value
              (suc (suc (suc (length ns)))) (m.next_page + 1) h a.0 (omega arith) (omega arith)
        | inr (e, same, absent) ↦
            insert_loop_continues (suc f) m (next_map m q n) g g b i q n.successor n n2
              ((p, n2) ∷ ns) ns key value (suc (suc (length ns))) (m.next_page + 1) h e same absent
              (get_successor_next m q n n2 (ground (arith, h.rest))
                (ground (arith, h.rest, h.place)) (rw (← h.rest.0) h.rest.3) h.rest.6)
              (next_map-Frame m g b i q n ((p, n2) ∷ ns) h) (ground arith) h.rest.6 (λ j. refl)
              (insert_loop-Inserts (suc f) (next_map m q n) g b (suc i) n.successor n2 ns key value
                room free (next_map-Head m g b i q p n n2 ns h) (omega arith))
      ]
