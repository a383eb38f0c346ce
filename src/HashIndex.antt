-- ===== src/HashIndex.antt =====
-- `HashIndex` of src/enclave/Index.h and src/enclave/Index.cpp: a secondary index, which keeps the
-- keys of objects under the hash of the values that it indexes, in a MultiMap. The JSON documents
-- are parameters.
pub mod Finds
mod Examples
use credb.Prelude.{
  ℕ, zero, suc, Bool, true, false, ◌&&◌, not, Option, none, some, List, [], ◌∷◌, ◌==◌,
  if◌then◌else◌,
}
use credb.Prelude.Names.{Name, equal_names}
use credb.Node.{Layout}
use credb.Map.{Map, Result, ok, err, ◌>>=◌}
use credb.MultiMap
use credb.MultiMap.{SetOperation, intersect, union, member}

-- What stands in a predicate at a path followed by `.$in`.
pub data Operand (Doc : Type 0) : Type 0 where
  absent : Operand Doc
  elements : List Doc → Operand Doc
  no_array : Operand Doc

-- What the index calls of a document: the view at its path, if that is there, the hash, the operand
-- of `$in`, a document with one value at a path, and the keys of a map.
pub record Json (Doc K : Type 0) : Type 0 where
  pub view : Doc → Name → Option Doc
  pub hash : Doc → K
  pub operand : Doc → Name → Operand Doc
  pub wrap : Name → Doc → Doc
  pub keys : Doc → Option (List Name)

-- The constructor: none for the exception on any number of paths but one.
unfoldable pub new_hash_index : List Name → Option Name
new_hash_index [] = none
new_hash_index (path ∷ []) = some path
new_hash_index (path ∷ other ∷ paths) = none

-- What `find` answers, or the exception on an operand that is no array.
pub data Answer (V : Type 0) : Type 0 where
  answer : Result (List V) → Answer V
  not_an_array : Answer V

-- `"$in"`.
abbrev pub in_operator : Name
in_operator = 36 ∷ 105 ∷ 110 ∷ []

-- A key that is an operator other than `$in`.
abbrev pub is_other_operator : Name → Bool
is_other_operator [] = false
is_other_operator (c ∷ cs) = c == 36 && not (equal_names (c ∷ cs) in_operator)

-- The loop of `matches_query` over the keys of a map.
unfoldable pub has_no_operator : List Name → Bool
has_no_operator [] = true
has_no_operator (k ∷ ks) = if is_other_operator k then false else has_no_operator ks

module _ {Doc K V : Type 0} (J : Json Doc K) (L : Layout K V) (path : Name) where
  -- `matches_query`.
  unfoldable pub matches_query : Doc → Bool
  unfolding has_no_operator
  matches_query predicate = elim (J.view predicate path) [
    | none ↦ false
    | some view ↦ elim (J.keys view) [ none ↦ true | some keys ↦ has_no_operator keys ]
  ]

  -- `insert`.
  unfoldable pub insert : ℕ → Map K V → Doc → V → Result (Map K V × Bool)
  insert fuel m document key = elim (J.view document path) [
    | none ↦ ok (m, false)
    | some view ↦ MultiMap.insert L fuel m (J.hash view) key >>= λ m'. ok (m', true)
  ]

  -- `remove`.
  unfoldable pub remove : ℕ → Map K V → Doc → V → Result (Map K V × Bool)
  remove fuel m document key = elim (J.view document path) [
    | none ↦ ok (m, false)
    | some view ↦ MultiMap.remove L fuel m (J.hash view) key
  ]

  -- The loop of `find` over the elements of the operand.
  unfoldable pub find_each : ℕ → Map K V → List Doc → List V → Result (List V)
  find_each fuel m [] set = ok set
  find_each fuel m (d ∷ ds) set =
      MultiMap.find L fuel m (J.hash (J.wrap path d)) set union >>= λ set'. find_each fuel m ds set'

  -- The loop of `find` that intersects by hand.
  unfoldable pub retain : List V → List V → List V
  retain set [] = []
  retain set (v ∷ out) = let rest = retain set out in if member L v set then v ∷ rest else rest

  -- `find`.
  unfoldable pub find : ℕ → Map K V → Doc → List V → SetOperation → Answer V
  unfolding find_each retain
  find fuel m predicate out op = elim (J.operand predicate path) [
    | absent ↦ answer (MultiMap.find L fuel m (J.hash predicate) out op)
    | no_array ↦ not_an_array
    | elements ds ↦ elim op [
      | union ↦ answer (find_each fuel m ds out)
      | intersect ↦ answer (find_each fuel m ds [] >>= λ set. ok (retain set out))
    ]
  ]

  -- `estimate_value_count`.
  unfoldable pub estimate_value_count : ℕ → Map K V → Doc → Result ℕ
  estimate_value_count fuel m predicate = elim (J.operand predicate path) [
    | absent ↦ MultiMap.estimate L fuel m (J.hash predicate)
    | _ ↦ ok 0
  ]
