-- ===== src/TwoPhase/Runs.antt =====
-- How the phases of src/enclave/TransactionExecutor.cpp and `work` of src/enclave/TransactionProxy.cpp
-- run, by the answers of the nodes.
use credb.Prelude.{ℕ, ◌≡◌, refl, Bool, true, false, ◌&&◌, List, arith}
use credb.Transaction.{Operations, Done, value, prepare}
use credb.Transaction.Commit.{Writes, commit}
use credb.LockHandle.{Outcome}
use credb.Transaction.{no_lock}
use credb.TwoPhase.{
  stopped, Node, answers, returns, Links, after, send_all, handle_prepare, handle_commit, abort_all,
  unblocked, phase_one, phase_two, work,
}

module _ {Op Ledger : Type 0} (I : Operations Op Ledger) (J : Writes Op Ledger) where
  -- The nodes and the coordinator once the messages of the first phase are handled.
  abbrev pub asked : (ℕ → Bool) → List ℕ → (ℕ → Node Op Ledger) → ℕ → Node Op Ledger
  asked found children nodes = (send_all (handle_prepare I J) found children nodes).nodes

  abbrev pub local : List ℕ → Node Op Ledger → Done Op Ledger
  local children root = prepare I (unblocked children root).object (unblocked children root).world

  pub phase_one_agrees :
      (found found' : ℕ → Bool) (children : List ℕ) (nodes : ℕ → Node Op Ledger)
      (root : Node Op Ledger)
      → root.is_remote ≡ false
      → (local children root).ending ≡ value true
      → (send_all (handle_prepare I J) found children nodes).reply ≡ answers true
      → (send_all (handle_prepare I J) found children nodes).all_found ≡ true
      → phase_one I J found found' children nodes root ≡ record {
        outcome = returns true;
        nodes = asked found children nodes;
        root = after root (local children root);
      }
  unfolding phase_one
  phase_one_agrees found found' children nodes root home e reply all = ground arith

  pub phase_one_refuses :
      (found found' : ℕ → Bool) (children : List ℕ) (nodes : ℕ → Node Op Ledger)
      (root : Node Op Ledger) (f b y : Bool)
      → root.is_remote ≡ false
      → (local children root).ending ≡ value b
      → (send_all (handle_prepare I J) found children nodes).reply ≡ answers y
      → (send_all (handle_prepare I J) found children nodes).all_found ≡ f
      → (f && b && y) ≡ false
      → phase_one I J found found' children nodes root
        ≡ abort_all I J false found' children
            (asked found children nodes)
            (after root (local children root))
  unfolding phase_one
  phase_one_refuses found found' children nodes root f b y home e reply all no_one = ground arith

  -- An exception of the coordinator's own `prepare` leaves `phase_one`.
  pub phase_one_escapes :
      (found found' : ℕ → Bool) (children : List ℕ) (nodes : ℕ → Node Op Ledger)
      (root : Node Op Ledger) (o : Outcome)
      → root.is_remote ≡ false
      → (local children root).ending ≡ no_lock o
      → phase_one I J found found' children nodes root ≡ record {
        outcome = stopped;
        nodes = asked found children nodes;
        root = after root (local children root);
      }
  unfolding phase_one
  phase_one_escapes found found' children nodes root o home e = ground arith

  pub phase_two_runs :
      (b : Bool) (found : ℕ → Bool) (children : List ℕ) (nodes : ℕ → Node Op Ledger)
      (root : Node Op Ledger)
      → root.is_remote ≡ false
      → (commit I J root.object root.world).ending ≡ value true
      → (send_all (handle_commit I J) found children nodes).reply ≡ answers b
      → phase_two I J found children nodes root ≡ record {
        outcome = returns true;
        nodes = (send_all (handle_commit I J) found children nodes).nodes;
        root = after root (commit I J root.object root.world);
      }
  unfolding phase_two
  phase_two_runs b found children nodes root home e reply = ground arith

  pub work_agreed :
      (links : Links) (children : List ℕ) (nodes : ℕ → Node Op Ledger) (root : Node Op Ledger)
      → (phase_one I J links.preparing links.aborting children nodes root).outcome ≡ returns true
      → work I J links children nodes root
        ≡ phase_two I J links.committing children
            (phase_one I J links.preparing links.aborting children nodes root).nodes
            (phase_one I J links.preparing links.aborting children nodes root).root
  unfolding work phase_two
  work_agreed links children nodes root t = rw (t, work) refl

  pub work_refused :
      (links : Links) (children : List ℕ) (nodes : ℕ → Node Op Ledger) (root : Node Op Ledger)
      → (phase_one I J links.preparing links.aborting children nodes root).outcome ≡ returns false
      → work I J links children nodes root
        ≡ phase_one I J links.preparing links.aborting children nodes root
  unfolding work
  work_refused links children nodes root t = rw (t, work) refl

  pub work_escapes :
      (links : Links) (children : List ℕ) (nodes : ℕ → Node Op Ledger) (root : Node Op Ledger)
      → (phase_one I J links.preparing links.aborting children nodes root).outcome ≡ stopped
      → work I J links children nodes root
        ≡ phase_one I J links.preparing links.aborting children nodes root
  unfolding work
  work_escapes links children nodes root t = rw (t, work) refl
