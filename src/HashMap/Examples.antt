-- ===== src/HashMap/Examples.antt =====
-- Tests of src/enclave/HashMap.cpp, and the theorems about it at concrete maps.
use credb.Prelude.{ℕ, ◌≡◌, refl, none, some, [], ◌∷◌, arith, ℕ_discrete}
use credb.Node
use credb.Node.{
  Layout, has_key, find_entry, increment_version_no, byte_size, entries_size, update_entries,
}
use credb.Map.{
  Map, ok, err, staleness_detected, new_map, get_node, get_node_internal, read_page, get_successor,
  to_bucket,
}
use credb.Map.Samples.{
  numbers, no_values, first_node, second_node, two_pages, places, two_pages-Chain,
}
use credb.HashMap.{get, get_loop, set_value}
use credb.HashMap.Refinement.{
  InsertsInto, put, new_map-Represents, insert-Represents, get-Represents,
}
use credb.HashMap.Iterator.{set_value_stale}

program : Unit {0}
unfolding to_bucket has_key find_entry ℕ_discrete get get_loop Node.get get_node get_node_internal
    read_page get_successor
program = tt

-- The second page is reached.
get_second : get numbers 2 two_pages 8199 ≡ ok (some 80)
unfolding program
get_second = refl

get_missing : get numbers 2 two_pages 16391 ≡ ok none
unfolding program
get_missing = refl

new_map-next_page : Map.next_page (new_map {K = ℕ} {V = ℕ}) ≡ 1
unfolding new_map
new_map-next_page = refl

-- The map after one insertion.
abbrev one : InsertsInto numbers new_map 0 2 no_values 7 70
one =
    insert-Represents numbers new_map 0 2 no_values 7 70 (new_map-Represents numbers) (omega arith)
      (omega (arith, new_map-next_page)) (omega arith)

insert-Represents_example : InsertsInto numbers one.0 1 3 (put numbers 7 70 no_values) 8199 80
insert-Represents_example =
    insert-Represents numbers one.0 1 3 (put numbers 7 70 no_values) 8199 80 one.2 (omega arith)
      (omega (arith, one.4, new_map-next_page)) (omega arith)

get-Represents_example : get numbers 2 one.0 7 ≡ ok (put numbers 7 70 no_values 7)
get-Represents_example =
    get-Represents numbers one.0 1 2 (put numbers 7 70 no_values) 7 one.2 (omega arith)

set_value_stale_example :
    get numbers 2
      (set_value numbers two_pages
        (to_bucket numbers 8199)
        (record { page_no = 2; node = second_node })
        (record { page_no = 1; node = first_node } ∷ [])
        7
        72)
      8199
    ≡ err staleness_detected
unfolding to_bucket has_key find_entry ℕ_discrete
set_value_stale_example =
    set_value_stale numbers two_pages places 1 1 2 first_node second_node [] 7 8199 72
      two_pages-Chain refl refl
