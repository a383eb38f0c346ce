-- ===== src/MultiMap.antt =====
-- src/enclave/MultiMap.cpp: the secondary indexes, from hashed values to object keys. An
-- `unordered_set` is the list of its elements. The loops over a chain of pages take fuel.
pub mod Reads
pub mod Remove
mod Examples
use credb.Prelude.{
  ◌^◌, ◌%◌, ℕ, zero, suc, ◌+◌, ◌-◌, Bool, true, false, Option, none, some, List, [], ◌∷◌,
  if◌then◌else◌, ite,
}
use credb.Node
use credb.Node.{Layout, Node, has_entry, values_of, estimate_value_count, insert_multi, clear_node}
use credb.Map.{
  Map, Handle, Result, ok, err, invalid_state, no_fuel, ◌>>=◌, write_page, get_node, get_successor,
  to_bucket, num_buckets,
}

pub data SetOperation : Type 0 where
  intersect union : SetOperation

module _ {K V : Type 0} (L : Layout K V) where
  -- The `while(!created)` loop of `insert`.
  unfoldable pub insert_loop : ℕ → Map K V → Handle K V → K → V → Result (Map K V)
  insert_loop zero m node key value = err no_fuel
  insert_loop (suc fuel) m node key value =
      let (node', created) = insert_multi L key value node.node in
      let m' = write_page m node.page_no node' in
      elim created [
        | true ↦ ok m'
        | false ↦ get_successor m' (record node { node = node' }) true false >>= λ r. elim r.1 [
          | none ↦ err invalid_state
          | some next ↦ insert_loop fuel r.0 next key value
        ]
      ]

  unfoldable pub insert : ℕ → Map K V → K → V → Result (Map K V)
  unfolding insert_loop
  insert fuel m key value = get_node m (to_bucket L key) true false >>= λ r. elim r.1 [
    | none ↦ err invalid_state
    | some node ↦ insert_loop fuel r.0 node key value >>= λ m'.
        ok (record m' { size = (m'.size + 1) % 2 ^ 64 })
  ]

  -- The `while(node && !removed)` loop of `remove`.
  unfoldable pub remove_loop : ℕ → Map K V → Handle K V → K → V → Result (Map K V × Bool)
  remove_loop zero m node key value = err no_fuel
  remove_loop (suc fuel) m node key value =
      let (node', removed) = Node.remove L key value node.node in
      let m' = write_page m node.page_no node' in
      elim removed [
        | true ↦ ok (m', true)
        | false ↦ get_successor m' (record node { node = node' }) false true >>= λ r. elim r.1 [
          | none ↦ ok (r.0, false)
          | some next ↦ remove_loop fuel r.0 next key value
        ]
      ]

  -- `remove`.
  unfoldable pub remove : ℕ → Map K V → K → V → Result (Map K V × Bool)
  unfolding remove_loop
  remove fuel m key value = get_node m (to_bucket L key) false true >>= λ r. elim r.1 [
    | none ↦ ok (r.0, false)
    | some node ↦ remove_loop fuel r.0 node key value >>= λ d.
        if d.1
        then ok (record d.0 { size = (d.0.size + 2 ^ 64 - 1) % 2 ^ 64 }, true)
        else ok (d.0, false)
  ]

  unfoldable pub member : V → List V → Bool
  member v [] = false
  member v (w ∷ ws) = ite (L.dec_value v w) true (member v ws)

  -- `out.insert(v)` for each value in turn.
  unfoldable pub insert_values : List V → List V → List V
  unfolding member
  insert_values out [] = out
  insert_values out (v ∷ vs) = insert_values (if member v out then out else v ∷ out) vs

  -- The `while(node)` loop of `find_union`.
  unfoldable pub find_union_loop : ℕ → Map K V → Handle K V → K → List V → Result (List V)
  unfolding insert_values
  find_union_loop zero m node key out = err no_fuel
  find_union_loop (suc fuel) m node key out = get_successor m node false false >>= λ r.
      let out' = insert_values out (values_of L key node.node.entries) in
      elim r.1 [ none ↦ ok out' | some next ↦ find_union_loop fuel r.0 next key out' ]

  -- `find_union`.
  unfoldable pub find_union : ℕ → Map K V → K → List V → Result (List V)
  unfolding find_union_loop
  find_union fuel m key out = get_node m (to_bucket L key) false false >>= λ r. elim r.1 [
    | none ↦ ok out
    | some node ↦ find_union_loop fuel r.0 node key out
  ]

  -- The `while(node && !found)` loop of `find_intersect`, for one element.
  unfoldable pub find_entry_loop : ℕ → Map K V → Handle K V → K → V → Result Bool
  find_entry_loop zero m node key value = err no_fuel
  find_entry_loop (suc fuel) m node key value = elim (has_entry L key value node.node.entries) [
    | true ↦ ok true
    | false ↦ get_successor m node false false >>= λ r. elim r.1 [
      | none ↦ ok false
      | some next ↦ find_entry_loop fuel r.0 next key value
    ]
  ]

  unfoldable pub is_found : ℕ → Map K V → K → V → Result Bool
  unfolding find_entry_loop
  is_found fuel m key value = get_node m (to_bucket L key) false false >>= λ r. elim r.1 [
    | none ↦ ok false
    | some node ↦ find_entry_loop fuel r.0 node key value
  ]

  -- `find_intersect`: the elements that the chain does not hold under the key are erased.
  unfoldable pub find_intersect : ℕ → Map K V → K → List V → Result (List V)
  unfolding is_found
  find_intersect fuel m key [] = ok []
  find_intersect fuel m key (v ∷ out) = is_found fuel m key v >>= λ found.
      find_intersect fuel m key out >>= λ rest. ok (if found then v ∷ rest else rest)

  -- `find`.
  unfoldable pub find : ℕ → Map K V → K → List V → SetOperation → Result (List V)
  unfolding find_intersect find_union
  find fuel m key out intersect = find_intersect fuel m key out
  find fuel m key out union = find_union fuel m key out

  -- The loop of `estimate_value_count`.
  unfoldable pub count_loop : ℕ → Map K V → Handle K V → K → ℕ → Result ℕ
  count_loop zero m node key count = err no_fuel
  count_loop (suc fuel) m node key count = get_successor m node false false >>= λ r.
      let count' = count + estimate_value_count L key node.node.entries in
      elim r.1 [ none ↦ ok count' | some next ↦ count_loop fuel r.0 next key count' ]

  unfoldable pub estimate : ℕ → Map K V → K → Result ℕ
  unfolding count_loop
  estimate fuel m key = get_node m (to_bucket L key) false false >>= λ r. elim r.1 [
    | none ↦ ok 0
    | some node ↦ count_loop fuel r.0 node key 0
  ]

module _ {K V : Type 0} where
  -- The `while(n)` loop of `clear`.
  unfoldable pub clear_loop : ℕ → Map K V → Handle K V → Result (Map K V)
  clear_loop zero m node = err no_fuel
  clear_loop (suc fuel) m node =
      let (node', diff) = clear_node node.node in
      let m' = record (write_page m node.page_no node') {
        size = (m.size + 2 ^ 64 - diff) % 2 ^ 64;
      } in
      get_successor m' (record node { node = node' }) false false >>= λ r. elim r.1 [
        | none ↦ ok r.0
        | some next ↦ clear_loop fuel r.0 next
      ]

  -- One round of the loop of `clear` over the buckets.
  unfoldable pub clear_bucket : ℕ → Map K V → ℕ → Result (Map K V)
  unfolding clear_loop clear_node
  clear_bucket fuel m bid = get_node m bid false false >>= λ r. elim r.1 [
    | none ↦ ok r.0
    | some node ↦ clear_loop fuel r.0 node
  ]

  -- The loop of `clear`, with `rounds` buckets left.
  unfoldable pub clear_buckets : ℕ → ℕ → Map K V → Result (Map K V)
  unfolding clear_bucket
  clear_buckets fuel zero m = ok m
  clear_buckets fuel (suc rounds) m =
      clear_bucket fuel m (num_buckets - suc rounds) >>= λ m'. clear_buckets fuel rounds m'

  unfoldable pub clear : ℕ → Map K V → Result (Map K V)
  unfolding clear_buckets
  clear fuel m = clear_buckets fuel num_buckets m
