-- ===== src/TransactionManager.antt =====
-- src/enclave/TransactionManager.h, src/enclave/TransactionManager.cpp and src/enclave/Counter.h: the
-- table of the transactions that are not over, by the node that started them and their number there.
-- The transaction objects and the database of identities are parameters.
pub mod Numbers
mod Examples
use credb.Prelude.{
  ℕ, ◌+◌, ◌%◌, ◌^◌, Bool, true, false, ◌&&◌, Option, none, some, List, [], ◌∷◌, ◌==◌, if◌then◌else◌,
}

pub record Manager (T : Type 0) : Type 0 where
  pub next_id : ℕ
  pub transactions : List ((ℕ × ℕ) × T)

-- `Counter::next`: the number to give out, and the counter after it.
unfoldable pub next : ℕ → ℕ × ℕ
next n = (n, (n + 1) % 2 ^ 32)

unfoldable pub new_manager : {T : Type 0} → Manager T
new_manager = record { next_id = 1; transactions = [] }

abbrev pub same_key : ℕ × ℕ → ℕ × ℕ → Bool
same_key a b = a.0 == b.0 && a.1 == b.1

module _ {T : Type 0} where
  -- `std::unordered_map` keyed by the pair.
  unfoldable pub find : ℕ × ℕ → List ((ℕ × ℕ) × T) → Option T
  find k [] = none
  find k ((j, t) ∷ m) = if same_key k j then some t else find k m

  unfoldable pub insert : ℕ × ℕ → T → List ((ℕ × ℕ) × T) → List ((ℕ × ℕ) × T)
  insert k t [] = (k, t) ∷ []
  insert k t ((j, u) ∷ m) = if same_key k j then (k, t) ∷ m else (j, u) ∷ insert k t m

  unfoldable pub erase : ℕ × ℕ → List ((ℕ × ℕ) × T) → List ((ℕ × ℕ) × T)
  erase k [] = []
  erase k ((j, u) ∷ m) = let rest = erase k m in if same_key k j then rest else (j, u) ∷ rest

  -- `get`.
  unfoldable pub get : ℕ → ℕ → Manager T → Option T
  unfolding find
  get node_id tx_id m = find (node_id, tx_id) m.transactions

  -- `init_local_transaction`; `make` is the constructor, and `uid` the node's own identity.
  unfoldable pub init_local : (ℕ → ℕ → Bool → T) → ℕ → Manager T → Manager T × T
  unfolding next insert
  init_local make uid m =
      let (lid, next_id) = next m.next_id in
      let tx = make uid lid false in
      (record { next_id = next_id; transactions = insert (uid, lid) tx m.transactions }, tx)

  -- `init_remote_transaction`: none for the exception on a root that is unknown.
  unfoldable pub init_remote :
      (ℕ → ℕ → Bool → T) → (ℕ → Bool) → ℕ → ℕ → Manager T → Option (Manager T × T)
  unfolding find insert
  init_remote make has_identity root id m = elim (find (root, id) m.transactions) [
    | some tx ↦ some (m, tx)
    | none ↦
        if has_identity root
        then (let tx = make root id true in
            some (record m { transactions = insert (root, id) tx m.transactions }, tx))
        else none
  ]

  -- `remove_transaction`: none for the exception.
  unfoldable pub remove_transaction : ℕ → ℕ → Manager T → Option (Manager T)
  unfolding find erase
  remove_transaction root id m = elim (find (root, id) m.transactions) [
    | none ↦ none
    | some tx ↦ some (record m { transactions = erase (root, id) m.transactions })
  ]
