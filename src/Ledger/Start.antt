-- ===== src/Ledger/Start.antt =====
-- The ledger that the constructor of src/enclave/Ledger.cpp leaves.
use credb.Prelude.{
  ℕ, zero, suc, ◌+◌, ◌-◌, ◌≡◌, ◌<◌, ◌≤◌, refl, sym, subst, ◌∙◌, ◌&&◌, none, some, some-injective,
  [], arith, if◌then◌else◌, ltb, leb,
}
use credb.Block.{new_block, end_pos}
use credb.Block.Layout.{new_block-Holds}
use credb.Ledger.{Ledger, Calls}
use credb.Ledger.Write.{generate_block, generate_blocks, new_ledger, min_block_size}
use credb.Ledger.Layout.{Ghost, Sound, Represents, last_event, AreSmall}
use credb.Ledger.Sealing.{new_block_lem}

module _ {Doc Index : Type 0} (C : Calls Doc Index) where
  -- After the first shards received their blocks.
  record Generated (n : ℕ) (l l' : Ledger Index) : Type 0 where
    pub pages : (p : ℕ) → l'.pages p ≡ (if ltb 0 p && leb p n then some new_block else l.pages p)
    pub next_page : l'.next_page ≡ n + 1
    pub pending : (s : ℕ) → l'.pending s ≡ (if ltb s n then s + 1 else l.pending s)
    pub collections : l'.collections ≡ l.collections

  generate_blocks-Generated :
      (n : ℕ) (l : Ledger Index) → l.next_page ≡ 1 → n ≤ 64 → Generated n l (generate_blocks C n l)
  unfolding generate_blocks generate_block
  generate_blocks-Generated zero l first small = record {
    pages = λ p. ground arith;
    next_page = first;
    pending = λ s. ground arith;
    collections = refl;
  }
  generate_blocks-Generated (suc n) l first small =
      let before = generate_blocks-Generated n l first (omega arith) in
      record {
        pages = λ p. ground (arith, before.next_page, before.pages p);
        next_page = omega (arith, before.next_page);
        pending = λ s. ground (arith, before.next_page, before.pending s);
        collections = before.collections;
      }

  first_ghost : Ghost Doc
  first_ghost = record {
    events = λ p. [];
    owner = λ p. if ltb 0 p && leb p 64 then some (p - 1) else none;
  }

  new_ledger-Generated :
      (l : Ledger Index) → l.next_page ≡ 1 → Generated 64 l (generate_blocks C 64 l)
  new_ledger-Generated l first = generate_blocks-Generated 64 l first (omega arith)

  Generated-Sound : (l l' : Ledger Index) → Generated 64 l l' → Sound C l' first_ghost
  unfolding first_ghost
  Generated-Sound l l' g = record {
    page = λ p s owner. (
      new_block,
      ground (arith, g.pages p),
      new_block-Holds,
      ground (arith, new_block_lem, g.pending s),
    );
    positive = λ p s owner. ground arith;
    below = λ p s owner. ground (arith, g.pending s);
    fresh = λ p s owner. ground (arith, g.next_page);
    pending = λ s k. ground (arith, g.pending s);
  }

  -- A new ledger stands for the history in which nothing was ever written, and its pending blocks are
  -- small.
  pub new_ledger-Represents : Represents C (new_ledger C) (λ c k. []) × AreSmall C (new_ledger C)
  unfolding new_ledger last_event
  new_ledger-Represents =
      let g =
        new_ledger-Generated
          (record {
            pages = λ p. none;
            next_page = 1;
            pending = λ s. 0;
            collections = λ c. none;
            object_count = 0;
            version_count = 0;
          })
          refl in
      (
        record {
          ghost = first_ghost;
          sound = Generated-Sound _ _ g;
          chained = λ c k. refl;
          histories = λ c k. tt;
          lengths = λ c k. omega arith;
          bounded = omega (arith, g.next_page);
        },
        λ s b k page.
            let first : (new_ledger C).pages ((new_ledger C).pending s) ≡ some new_block =
              ground (arith, g.pages ((new_ledger C).pending s), g.pending s) in
            subst (λ x. end_pos x < min_block_size) (some-injective new_block b (sym first ∙ page))
              (omega (arith, new_block_lem)),
      )
