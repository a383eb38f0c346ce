-- ===== src/TwoPhase/Aborting.antt =====
-- What `abort` of src/enclave/TransactionExecutor.cpp leaves at the coordinator and the children.
use credb.Prelude.{ℕ, ◌≡◌, ◌⊎◌, inl, inr, refl, sym, ap, ◌∙◌, Bool, true, false, ◌&&◌, List, arith}
use credb.LockHandle.{Counters}
use credb.Transaction.{Operations, value, abort, aborted, prepared, pending}
use credb.Transaction.Commit.{Writes}
use credb.TwoPhase.{
  Node, Reply, answers, returns, after, is_known, send_all, handle_abort, abort_all,
}
use credb.TwoPhase.Rounds.{member, AreDistinct, send_all-nodes, send_all-reply}
use credb.TwoPhase.Nodes.{
  IsHolding, IsRefused, abort_node, abort_done, handle_abort_holding, handle_abort_released,
}

module _ {Op Ledger : Type 0} (I : Operations Op Ledger) (J : Writes Op Ledger) where
  -- The transaction of the second node was prepared, or its validation threw, or it was given up;
  -- the first node is the one before.
  abbrev pub Settled : Counters → Node Op Ledger → Node Op Ledger → Type 0
  Settled free before n =
      IsHolding prepared free before n ⊎ IsHolding pending free before n ⊎ IsRefused free before n

  pub handle_abort-Settled :
      (free : Counters) (before n : Node Op Ledger)
      → Settled free before n
      → n.is_remote ≡ true
      → ((handle_abort I J n).1 ≡ answers (is_known n))
        × IsRefused free before (handle_abort I J n).0
  handle_abort-Settled free before n (inl h) remote =
      rw (handle_abort_holding I J prepared free before n (inr refl) h remote)
        (ap answers (sym (h.known)), (abort_node I J prepared free before n (inr refl) h).1)
  handle_abort-Settled free before n (inr (inl h)) remote =
      rw (handle_abort_holding I J pending free before n (inl refl) h remote)
        (ap answers (sym (h.known)), (abort_node I J pending free before n (inl refl) h).1)
  handle_abort-Settled free before n (inr (inr (h, same))) remote =
      rw (handle_abort_released I J aborted free n h) (ap answers (sym (h.unknown)), (h, same))

  pub abort-Settled :
      (free : Counters) (before n : Node Op Ledger)
      → Settled free before n
      → ((abort I true n.object n.world).ending ≡ value true)
        × IsRefused free before (after n (abort I true n.object n.world))
  abort-Settled free before n (inl h) = abort_node I J prepared free before n (inr refl) h
  abort-Settled free before n (inr (inl h)) = abort_node I J pending free before n (inl refl) h
  abort-Settled free before n (inr (inr (h, same))) =
      rw (abort_done I J n h.state) (refl, (h, same))

  -- What a round leaves at a child that is connected.
  pub at_child :
      (handle : Node Op Ledger → Node Op Ledger × Reply) (found : ℕ → Bool) (children : List ℕ)
      (nodes : ℕ → Node Op Ledger) (c : ℕ)
      → AreDistinct children
      → member c children ≡ true
      → found c ≡ true
      → (send_all handle found children nodes).nodes c ≡ (handle (nodes c)).0
  at_child handle found children nodes c distinct m f =
      send_all-nodes handle found children nodes c distinct ∙ rw (m) (rw (f) refl)

  pub past_child :
      (handle : Node Op Ledger → Node Op Ledger × Reply) (found : ℕ → Bool) (children : List ℕ)
      (nodes : ℕ → Node Op Ledger) (c : ℕ)
      → AreDistinct children
      → (member c children && found c) ≡ false
      → (send_all handle found children nodes).nodes c ≡ nodes c
  past_child handle found children nodes c distinct out =
      send_all-nodes handle found children nodes c distinct ∙ rw (out) refl

  abort_all_runs :
      (result b : Bool) (found : ℕ → Bool) (children : List ℕ) (nodes : ℕ → Node Op Ledger)
      (root : Node Op Ledger)
      → root.is_remote ≡ false
      → (abort I true root.object root.world).ending ≡ value true
      → (send_all (handle_abort I J) found children nodes).reply ≡ answers b
      → abort_all I J result found children nodes root ≡ record {
        outcome = returns result;
        nodes = (send_all (handle_abort I J) found children nodes).nodes;
        root = after root (abort I true root.object root.world);
      }
  unfolding abort_all
  abort_all_runs result b found children nodes root home e reply = ground arith

  pub abort_all_lem :
      (result : Bool) (found : ℕ → Bool) (children : List ℕ) (nodes : ℕ → Node Op Ledger)
      (root : Node Op Ledger) (before : ℕ → Node Op Ledger) (root0 : Node Op Ledger)
      (free : ℕ → Counters) (free0 : Counters)
      → AreDistinct children
      → root.is_remote ≡ false
      → Settled free0 root0 root
      → ((c : ℕ)
          → member c children ≡ true
          → found c ≡ true
          → Settled (free c) (before c) (nodes c))
      → ((c : ℕ) → member c children ≡ true → (nodes c).is_remote ≡ true)
      → ((abort_all I J result found children nodes root).outcome ≡ returns result)
        × IsRefused free0 root0 (abort_all I J result found children nodes root).root
        × ((c : ℕ)
            → member c children ≡ true
            → found c ≡ true
            → IsRefused
                (free c)
                (before c)
                ((abort_all I J result found children nodes root).nodes c))
        × ((c : ℕ)
            → (member c children && found c) ≡ false
            → (abort_all I J result found children nodes root).nodes c ≡ nodes c)
  abort_all_lem result found children nodes root before root0 free free0 distinct home settled held
        remote =
      let (e, gone) = abort-Settled free0 root0 root settled in
      let reply =
        (send_all-reply (handle_abort I J) found (λ c. is_known (nodes c)) children nodes distinct
          (λ c m f.
            (handle_abort-Settled (free c) (before c) (nodes c) (held c m f) (remote c m)).0)).0 in
      rw (abort_all_runs result _ found children nodes root home e reply) (
        refl,
        gone,
        λ c m f.
            rw (at_child (handle_abort I J) found children nodes c distinct m f)
              ((handle_abort-Settled (free c) (before c) (nodes c) (held c m f) (remote c m)).1),
        λ c out. past_child (handle_abort I J) found children nodes c distinct out,
      )
