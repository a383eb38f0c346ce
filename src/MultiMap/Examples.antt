-- ===== src/MultiMap/Examples.antt =====
-- Tests of src/enclave/MultiMap.cpp, and the theorems about it at concrete maps.
use credb.Prelude.{ℕ, ◌≡◌, refl, false, List, [], ◌∷◌, ℕ_discrete}
use credb.Node.{Node, has_entry, values_of}
use credb.Map.{
  Map, ok, err, staleness_detected, to_bucket, get_node, get_node_internal, read_page,
  get_successor,
}
use credb.Map.Samples.{
  numbers, first_node, second_node, lone_node, two_pages, one_page, places, one_page-Chain,
}
use credb.MultiMap.{
  union, member, insert, remove, find, find_union, find_union_loop, insert_values, estimate,
}
use credb.MultiMap.Remove.{remove_absent_stale}

abbrev both : List (ℕ × Node ℕ ℕ)
both = (1, first_node) ∷ (2, second_node) ∷ []

find_both : find numbers 2 two_pages 7 (5 ∷ []) union ≡ ok (71 ∷ 70 ∷ 5 ∷ [])
unfolding find find_union find_union_loop insert_values member values_of to_bucket get_node
    get_node_internal read_page get_successor ℕ_discrete
find_both = refl

remove_absent_stale_example :
    (m' : Map ℕ ℕ) × (remove numbers 1 one_page 7 99 ≡ ok (m', false))
    × (estimate numbers 5 m' 7 ≡ err staleness_detected)
    × (find_union numbers 5 m' 7 [] ≡ err staleness_detected)
    × (insert numbers 5 m' 7 71 ≡ err staleness_detected)
unfolding to_bucket has_entry ℕ_discrete
remove_absent_stale_example =
    remove_absent_stale numbers 0 5 one_page places 7 7 99 71 1 lone_node one_page-Chain refl refl
