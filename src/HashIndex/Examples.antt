-- ===== src/HashIndex/Examples.antt =====
-- `find` of src/enclave/Index.cpp over a small map.
use credb.Prelude.{
  ℕ, ◌%◌, ◌≡◌, ◌<◌, ◌⊎◌, inl, inr, refl, none, some, List, [], ◌∷◌, arith, length, ◌==◌,
  if◌then◌else◌, Bool-cases,
}
use credb.Prelude.Names.{Name}
use credb.Node.{Node}
use credb.Map.{ok, to_bucket}
use credb.Map.Samples.{numbers, first_node, second_node, two_pages, places, two_pages-Chain}
use credb.MultiMap.{intersect, member}
use credb.MultiMap.Reads.{IsBucket}
use credb.HashIndex.{Json, Operand, absent, elements, no_array, answer, not_an_array, find}
use credb.HashIndex.Finds.{find-member, is_stored, combine}

-- A document is a list of numbers, and more than one number is an operand of `$in`.
abbrev operand : List ℕ → Operand (List ℕ)
operand (a ∷ b ∷ cs) = elements ((a ∷ []) ∷ (b ∷ []) ∷ [])
operand _ = absent

abbrev first : List ℕ → ℕ
first [] = 0
first (a ∷ rest) = a

abbrev lists : Json (List ℕ) ℕ
lists = record {
  view = λ d path. some d;
  hash = first;
  operand = λ d path. operand d;
  wrap = λ path d. d;
  keys = λ d. none;
}

abbrev path : Name
path = 97 ∷ []

abbrev buckets : ℕ → List (ℕ × Node ℕ ℕ)
buckets k = if k % 8192 == 7 then (1, first_node) ∷ (2, second_node) ∷ [] else []

chains : (k : ℕ) → IsBucket numbers two_pages places k (buckets k) × (length (buckets k) < 3)
unfolding to_bucket
chains k = elim (Bool-cases (k % 8192 == 7)) [
  | inl here ↦
      let e : k % 8192 ≡ 7 = ground arith in rw (here) (rw (e) (two_pages-Chain, omega arith))
  | inr away ↦ rw (away) ((refl, refl), omega arith)
]

find-member_example :
    ((lists.operand (7 ∷ 8 ∷ []) path ≡ no_array)
      × (find lists numbers path 3 two_pages (7 ∷ 8 ∷ []) (71 ∷ 5 ∷ []) intersect ≡ not_an_array))
    ⊎ ((result : List ℕ) × (find lists numbers path 3 two_pages (7 ∷ 8 ∷ []) (71 ∷ 5 ∷ []) intersect
          ≡ answer (ok result))
        × ((v : ℕ)
            → member numbers v result
              ≡ combine lists numbers path intersect
                  (member numbers v (71 ∷ 5 ∷ []))
                  (is_stored lists numbers path buckets v (7 ∷ 8 ∷ []))))
find-member_example =
    find-member lists numbers path 3 two_pages places buckets chains (7 ∷ 8 ∷ []) (71 ∷ 5 ∷ [])
      intersect
