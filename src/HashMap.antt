-- ===== src/HashMap.antt =====
-- src/enclave/HashMap.cpp: the primary index, from keys to event identifiers. The loops over a chain
-- of pages take fuel; a map whose chain is shorter than the fuel does not run out.
pub mod Heads
pub mod Insert
pub mod Buckets
pub mod Reads
pub mod Refinement
pub mod Iterator
mod Examples
use credb.Prelude.{
  ℕ, zero, suc, ◌+◌, Bool, true, false, Option, none, some, List, [], ◌∷◌, if◌then◌else◌,
}
use credb.VersionNumber.{increment}
use credb.Node
use credb.Node.{Layout, Node, increment_version_no}
use credb.Map.{
  Map, Handle, Bucket, Result, ok, err, Error, invalid_state, no_fuel, ◌>>=◌, write_page,
  write_bucket, get_node, get_successor, to_bucket,
}

module _ {K V : Type 0} (L : Layout K V) where
  -- The `while(!done)` loop of `insert`, at a page of the chain.
  unfoldable pub insert_loop : ℕ → Map K V → Handle K V → K → V → Result (Map K V)
  insert_loop zero m node key value = err no_fuel
  insert_loop (suc fuel) m node key value =
      let (node', done) = Node.insert L key value node.node in
      let m' = write_page m node.page_no node' in
      elim done [
        | true ↦ ok m'
        | false ↦ get_successor m' (record node { node = node' }) true false >>= λ r. elim r.1 [
          | none ↦ err invalid_state
          | some next ↦ insert_loop fuel r.0 next key value
        ]
      ]

  -- `insert`: the map, and the change of the bucket that is written to `out_changes`.
  unfoldable pub insert : ℕ → Map K V → K → V → Result (Map K V × (ℕ × Bucket))
  unfolding insert_loop
  insert fuel m key value =
      let bid = to_bucket L key in
      get_node m bid true false >>= λ r. elim r.1 [
        | none ↦ err invalid_state
        | some node ↦ insert_loop fuel r.0 node key value >>= λ m'.
            ok (record m' { size = m'.size + 1 }, (bid, m'.buckets bid))
      ]

  -- The `while(node)` loop of `get`.
  unfoldable pub get_loop : ℕ → Map K V → Handle K V → K → Result (Option V)
  get_loop zero m node key = err no_fuel
  get_loop (suc fuel) m node key = elim (Node.get L key node.node) [
    | some value ↦ ok (some value)
    | none ↦ get_successor m node false false >>= λ r. elim r.1 [
      | none ↦ ok none
      | some next ↦ get_loop fuel r.0 next key
    ]
  ]

  -- `get`: `none` where the function returns false.
  unfoldable pub get : ℕ → Map K V → K → Result (Option V)
  unfolding get_loop
  get fuel m key = get_node m (to_bucket L key) false false >>= λ r. elim r.1 [
    | none ↦ ok none
    | some node ↦ get_loop fuel r.0 node key
  ]

  -- The loop of `iterator_t::set_value` over the pages above the last one.
  unfoldable pub increment_all : Map K V → List (Handle K V) → Map K V
  increment_all m [] = m
  increment_all m (node ∷ above) =
      increment_all (write_page m node.page_no (increment_version_no node.node)) above

  -- `iterator_t::set_value`, at an iterator in bucket `bid` whose pages are `current`, and above it
  -- those through which it was reached, nearest first.
  unfoldable pub set_value : Map K V → ℕ → Handle K V → List (Handle K V) → K → V → Map K V
  unfolding increment_all
  set_value m bid current above key new_value =
      let m1 = write_page m current.page_no (Node.insert L key new_value current.node).0 in
      let m2 = increment_all m1 above in
      let bucket = m2.buckets bid in
      write_bucket m2 bid (record bucket { version = increment bucket.version })
