-- ===== src/TwoPhase.antt =====
-- src/enclave/TransactionExecutor.cpp with the handlers of TransactionPrepare, TransactionAbort and
-- TransactionCommit in src/enclave/RemoteParty.cpp, `work` of src/enclave/TransactionProxy.cpp and
-- `wait_for` of src/enclave/wait.h: a transaction over several nodes. A message to a node that is
-- connected is handled before the coordinator waits for the answer; which nodes are connected is a
-- parameter of each phase.
pub mod Rounds
pub mod Nodes
pub mod Aborting
pub mod Runs
pub mod Atomicity
mod Examples
use credb.Prelude.{ℕ, Bool, true, false, ◌&&◌, not, List, [], ◌∷◌, ◌==◌, if◌then◌else◌}
use credb.LockHandle.{Handle, runtime_error, would_block}
use credb.Transaction.{
  Transaction, World, Operations, Done, Ending, value, invalid_state, no_such_transaction,
  write_failed, no_lock, prepare, abort, TransactionState, pending, prepared, aborted, committed,
}
use credb.Transaction.Commit.{Writes, commit}

-- A node as far as one transaction goes: the object that its manager has, or had, for it.
pub record Node (Op Ledger : Type 0) : Type 0 where
  pub object : Transaction Op
  pub is_remote : Bool
  pub world : World Ledger

-- What a handler answers; `stops` is log_fatal, an exception that is not caught, or a lock that it
-- waits for.
pub data Reply : Type 0 where
  answers : Bool → Reply
  stops : Reply

abbrev pub is_done : TransactionState → Bool
is_done committed = true
is_done aborted = true
is_done _ = false

abbrev pub update_node : {A : Type 0} → (ℕ → A) → ℕ → A → ℕ → A
update_node f i a j = if j == i then a else f j

-- `tx_mgr.get(...)` finds the transaction.
abbrev pub is_known : {Op Ledger : Type 0} → Node Op Ledger → Bool
is_known n = n.world.registered n.object.origin n.object.identifier

abbrev pub after : {Op Ledger : Type 0} → Node Op Ledger → Done Op Ledger → Node Op Ledger
after n d = record n { object = d.tx; world = d.world }

-- The answer to TransactionPrepare: an exception is caught, and counts as no.
abbrev pub prepare_reply : Ending → Reply
prepare_reply (value b) = answers b
prepare_reply invalid_state = answers false
prepare_reply no_such_transaction = answers false
prepare_reply write_failed = answers false
prepare_reply (no_lock runtime_error) = answers false
prepare_reply (no_lock would_block) = answers false
prepare_reply (no_lock _) = stops

-- The answers to TransactionAbort and TransactionCommit.
abbrev pub done_reply : Ending → Reply
done_reply (value b) = answers true
done_reply _ = stops

module _ {Op Ledger : Type 0} (I : Operations Op Ledger) (J : Writes Op Ledger) where
  unfoldable pub handle_prepare : Node Op Ledger → Node Op Ledger × Reply
  unfolding prepare
  handle_prepare n =
      if is_known n
      then (if n.is_remote
          then (let d = prepare I n.object n.world in (after n d, prepare_reply d.ending))
          else (n, stops))
      else (n, answers false)

  unfoldable pub handle_abort : Node Op Ledger → Node Op Ledger × Reply
  unfolding abort
  handle_abort n =
      if is_known n && not (is_done n.object.state)
      then (if n.is_remote
          then (let d = abort I true n.object n.world in (after n d, done_reply d.ending))
          else (n, stops))
      else (n, answers false)

  unfoldable pub handle_commit : Node Op Ledger → Node Op Ledger × Reply
  unfolding commit
  handle_commit n =
      if is_known n
      then (if n.is_remote
          then (let d = commit I J n.object n.world in (after n d, done_reply d.ending))
          else (n, stops))
      else (n, answers false)

-- What a round of messages leaves: the nodes, whether every child was found, and the answers.
pub record Round (Op Ledger : Type 0) : Type 0 where
  pub nodes : ℕ → Node Op Ledger
  pub all_found : Bool
  pub reply : Reply

-- The answers so far and one more: `wait_for` never returns if one of them does not come.
abbrev pub both : Reply → Reply → Reply
both stops r = stops
both (answers a) stops = stops
both (answers a) (answers b) = answers (a && b)

module _ {Op Ledger : Type 0} where
  -- The loops over `children`, with what each node makes of its message.
  unfoldable pub send_all :
      (Node Op Ledger → Node Op Ledger × Reply)
      → (ℕ → Bool)
      → List ℕ
      → (ℕ → Node Op Ledger)
      → Round Op Ledger
  send_all handle found [] nodes = record { nodes = nodes; all_found = true; reply = answers true }
  send_all handle found (c ∷ children) nodes =
      let r = handle (nodes c) in
      let rest =
        send_all handle found children (if found c then update_node nodes c r.0 else nodes) in
      if found c
      then record rest { reply = both r.1 rest.reply }
      else record rest { all_found = false }

-- Which children are connected in each phase.
pub record Links : Type 0 where
  pub preparing : ℕ → Bool
  pub aborting : ℕ → Bool
  pub committing : ℕ → Bool

-- How a phase ends: with its result, or not at all.
pub data Outcome : Type 0 where
  returns : Bool → Outcome
  stopped : Outcome

pub record Phase (Op Ledger : Type 0) : Type 0 where
  pub outcome : Outcome
  pub nodes : ℕ → Node Op Ledger
  pub root : Node Op Ledger

-- The end of a phase: the answers are waited for, once the coordinator's own part has returned.
abbrev pub wait_for : Ending → Reply → Bool → Outcome
wait_for (value b) (answers agreed) result = returns result
wait_for _ _ result = stopped

-- `is_distributed`.
abbrev pub is_distributed : List ℕ → Bool
is_distributed [] = false
is_distributed _ = true

module _ {Op Ledger : Type 0} where
  -- `set_blocking(false)`, if the transaction is distributed.
  abbrev pub unblocked : List ℕ → Node Op Ledger → Node Op Ledger
  unblocked children root = record root {
    object = record (root.object) {
      handle = record (root.object.handle) {
        nonblocking = if is_distributed children then true else root.object.handle.nonblocking;
      };
    };
  }

module _ {Op Ledger : Type 0} (I : Operations Op Ledger) (J : Writes Op Ledger) where
  -- `TransactionExecutor::abort`; `result` is what the caller returns then.
  unfoldable pub abort_all :
      Bool → (ℕ → Bool) → List ℕ → (ℕ → Node Op Ledger) → Node Op Ledger → Phase Op Ledger
  unfolding send_all handle_abort abort
  abort_all result found children nodes root =
      if root.is_remote
      then record { outcome = stopped; nodes = nodes; root = root }
      else (let sent = send_all (handle_abort I J) found children nodes in
          let d = abort I true root.object root.world in
          record {
            outcome = wait_for d.ending sent.reply result;
            nodes = sent.nodes;
            root = after root d;
          })

  -- `phase_one`, with the children that are connected at its start and when it aborts.
  unfoldable pub phase_one :
      (ℕ → Bool) → (ℕ → Bool) → List ℕ → (ℕ → Node Op Ledger) → Node Op Ledger → Phase Op Ledger
  unfolding send_all handle_prepare abort_all prepare
  phase_one found found' children nodes root =
      if root.is_remote
      then record { outcome = stopped; nodes = nodes; root = root }
      else (let sent = send_all (handle_prepare I J) found children nodes in
          let start = unblocked children root in
          let d = prepare I start.object start.world in
          let stop : Phase Op Ledger = record {
            outcome = stopped;
            nodes = sent.nodes;
            root = after root d;
          } in
          elim d.ending [
            | value granted ↦ elim sent.reply [
              | stops ↦ stop
              | answers agreed ↦
                  if sent.all_found && granted && agreed
                  then record { outcome = returns true; nodes = sent.nodes; root = after root d }
                  else abort_all false found' children sent.nodes (after root d)
            ]
            | _ ↦ stop
          ])

  -- `phase_two`: a child that is not connected is passed over.
  unfoldable pub phase_two :
      (ℕ → Bool) → List ℕ → (ℕ → Node Op Ledger) → Node Op Ledger → Phase Op Ledger
  unfolding send_all handle_commit commit
  phase_two found children nodes root =
      if root.is_remote
      then record { outcome = stopped; nodes = nodes; root = root }
      else (let sent = send_all (handle_commit I J) found children nodes in
          let d = commit I J root.object root.world in
          record {
            outcome = wait_for d.ending sent.reply true;
            nodes = sent.nodes;
            root = after root d;
          })

  -- `TransactionProxy::work`: the Boolean is the first part of its result.
  unfoldable pub work : Links → List ℕ → (ℕ → Node Op Ledger) → Node Op Ledger → Phase Op Ledger
  unfolding phase_one phase_two
  work links children nodes root =
      let first = phase_one links.preparing links.aborting children nodes root in
      elim first.outcome [
        | returns true ↦ phase_two links.committing children first.nodes first.root
        | returns false ↦ first
        | stopped ↦ first
      ]
