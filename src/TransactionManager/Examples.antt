-- ===== src/TransactionManager/Examples.antt =====
-- The theorems about src/enclave/TransactionManager.cpp at a table with two transactions.
use credb.Prelude.{ℕ, ◌≡◌, Bool, true, none, some, [], ◌∷◌, if◌then◌else◌, arith}
use credb.TransactionManager.{Manager, new_manager, same_key, get, init_local}
use credb.TransactionManager.Numbers.{Reach, start, own, init_local-fresh}

-- A transaction is where it was started, and its number there.
abbrev make : ℕ → ℕ → Bool → ℕ × ℕ
make root id is_remote = (root, id)

abbrev known : ℕ → Bool
known root = true

abbrev one : Manager (ℕ × ℕ)
one = (init_local make 7 new_manager).0

one-Reach : Reach make known 7 1 one
one-Reach = own 0 new_manager start

init_local-fresh_example :
    (get 7 one.next_id one ≡ none)
    × ((root id : ℕ)
        → get root id (init_local make 7 one).0 ≡ (
            if same_key (root, id) (7, one.next_id)
            then some (init_local make 7 one).1
            else get root id one))
init_local-fresh_example = init_local-fresh make known 7 1 one one-Reach (omega arith)

abbrev two : Manager (ℕ × ℕ)
two = record { next_id = 2; transactions = ((7, 1), (7, 1)) ∷ ((3, 4), (3, 4)) ∷ [] }
