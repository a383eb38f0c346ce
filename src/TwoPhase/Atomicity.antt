-- ===== src/TwoPhase/Atomicity.antt =====
-- A transaction over several nodes, as src/enclave/TransactionExecutor.cpp runs it, takes effect
-- everywhere or nowhere.
use credb.Prelude.{ℕ, ◌≡◌, ◌≢◌, Bool, true, false, ◌&&◌, List}
use credb.LockHandle.{Counters, Outcome}
use credb.Transaction.{Operations, prepare, prepared, broken}
use credb.Transaction.Locking.{KeepsLocks, validated}
use credb.Transaction.Commit.{Writes}
use credb.TwoPhase.{Node, Phase, returns, unblocked}
use credb.TwoPhase.Rounds.{member, AreDistinct, all_found}
use credb.TwoPhase.Nodes.{IsReady, IsHolding, IsRefused, IsDone, granted}

module _ {Op Ledger : Type 0} (I : Operations Op Ledger) (J : Writes Op Ledger) where
  -- Every node has committed, and its ledger has what its transaction writes.
  abbrev pub Committed :
      List ℕ
      → (ℕ → Node Op Ledger)
      → Node Op Ledger
      → (ℕ → Counters)
      → Counters
      → Phase Op Ledger
      → Type 0
  Committed children nodes root free free0 p =
      (p.outcome ≡ returns true)
      × IsDone I J free0 root p.root
      × ((c : ℕ) → member c children ≡ true → IsDone I J (free c) (nodes c) (p.nodes c))

  -- Every node that is connected has given the transaction up and its ledger is as it was, and the
  -- others are as they were.
  abbrev pub Refused :
      (ℕ → Bool)
      → List ℕ
      → (ℕ → Node Op Ledger)
      → Node Op Ledger
      → (ℕ → Counters)
      → Counters
      → Phase Op Ledger
      → Type 0
  Refused found children nodes root free free0 p =
      (p.outcome ≡ returns false)
      × IsRefused free0 root p.root
      × ((c : ℕ)
          → member c children ≡ true
          → found c ≡ true
          → IsRefused (free c) (nodes c) (p.nodes c))
      × ((c : ℕ) → (member c children && found c) ≡ false → p.nodes c ≡ nodes c)

  module _ (found : ℕ → Bool) (children : List ℕ) (nodes : ℕ → Node Op Ledger)
      (root : Node Op Ledger) (free : ℕ → Counters) (free0 : Counters)
      (distinct : AreDistinct children) (home : root.is_remote ≡ false) (keeps : KeepsLocks I)
      (ready0 : IsReady I J free0 (unblocked children root))
      (ready : (c : ℕ) → member c children ≡ true → IsReady I J (free c) (nodes c))
      (remote : (c : ℕ) → member c children ≡ true → (nodes c).is_remote ≡ true) where
    -- The coordinator's own validations answer.
    abbrev Decides : Type 0
    Decides =
        (o : Outcome)
        → (validated I (unblocked children root).object (unblocked children root).world).validity
          ≢ broken o

    abbrev vote : ℕ → Bool
    vote c = granted (prepare I (nodes c).object (nodes c).world).ending

    -- Every node is prepared, and every child is connected.
    abbrev Agreed : Phase Op Ledger → Type 0
    Agreed p =
        (p.outcome ≡ returns true)
        × (all_found found children ≡ true)
        × (p.root.is_remote ≡ false)
        × IsHolding prepared free0 (unblocked children root) p.root
        × ((c : ℕ)
            → member c children ≡ true
            → IsHolding prepared (free c) (nodes c) (p.nodes c) × ((p.nodes c).is_remote ≡ true))
