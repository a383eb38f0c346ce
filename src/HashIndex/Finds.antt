-- ===== src/HashIndex/Finds.antt =====
-- What `find` of src/enclave/Index.cpp answers.
use credb.Prelude.{
  ℕ, ◌≡◌, ◌<◌, ◌⊎◌, refl, ap, ◌∙◌, Bool, false, ◌&&◌, ◌||◌, List, [], ◌∷◌, arith, length, map, inl,
  inr,
}
use credb.Prelude.Names.{Name}
use credb.Node.{Layout, Node}
use credb.Map.{Map, ok}
use credb.Map.Chains.{Ghost}
use credb.MultiMap.{SetOperation, intersect, union, member}
use credb.MultiMap.Reads.{
  IsBucket, values_in, keep_values, member-keep_values, find_union-member, find_intersect-member,
}
use credb.HashIndex.{
  Json, Operand, absent, elements, no_array, answer, not_an_array, find_each, retain, find,
}

module _ {Doc K V : Type 0} (J : Json Doc K) (L : Layout K V) (path : Name) where
  -- The hashes that a predicate asks for.
  abbrev pub hashes : Doc → Operand Doc → List K
  hashes predicate absent = J.hash predicate ∷ []
  hashes predicate (elements ds) = map (λ d. J.hash (J.wrap path d)) ds
  hashes predicate no_array = []

  -- The value is stored under one of the hashes, on the pages of its bucket.
  pub is_stored : (K → List (ℕ × Node K V)) → V → List K → Bool
  is_stored buckets v [] = false
  is_stored buckets v (k ∷ ks) = member L v (values_in L k (buckets k)) || is_stored buckets v ks

  abbrev pub combine : SetOperation → Bool → Bool → Bool
  combine union before found = before || found
  combine intersect before found = before && found

  retain-keep_values : (set out : List V) → retain J L path set out ≡ keep_values L set out
  unfolding retain keep_values
  retain-keep_values set [] = refl
  retain-keep_values set (v ∷ out) = rw (retain-keep_values set out) refl

  module _ (fuel : ℕ) (m : Map K V) (g : Ghost) (buckets : K → List (ℕ × Node K V))
      (chains : (k : K) → IsBucket L m g k (buckets k) × (length (buckets k) < fuel)) where
    find_each-member :
        (ds : List Doc) (set : List V)
        → (result : List V) × (find_each J L path fuel m ds set ≡ ok result)
          × ((v : V)
              → member L v result
                ≡ (member L v set || is_stored buckets v (map (λ d. J.hash (J.wrap path d)) ds)))
    unfolding find_each is_stored
    find_each-member [] set = (set, refl, λ v. ground arith)
    find_each-member (d ∷ ds) set =
        let k = J.hash (J.wrap path d) in
        let (set', done, members) =
          find_union-member L fuel m g k (buckets k) set (chains k).0 (chains k).1 in
        let (result, rest, all) = find_each-member ds set' in
        (result, rw (done) rest, λ v. ground (arith, members v, all v))

    -- What `find` answers, by the operand of `$in`.
    abbrev Answers : Doc → List V → SetOperation → Operand Doc → Type 0
    Answers predicate out op operand =
        ((operand ≡ no_array) × (find J L path fuel m predicate out op ≡ not_an_array))
        ⊎ ((result : List V) × (find J L path fuel m predicate out op ≡ answer (ok result))
            × ((v : V)
                → member L v result
                  ≡ combine op (member L v out) (is_stored buckets v (hashes predicate operand))))

    found :
        (predicate : Doc) (out : List V) (operand : Operand Doc) (op : SetOperation)
        → J.operand predicate path ≡ operand
        → Answers predicate out op operand
    unfolding find is_stored member
    found predicate out no_array op e = inl (refl, rw (e, find) refl)
    found predicate out absent union e =
        let k = J.hash predicate in
        let (result, done, members) =
          find_union-member L fuel m g k (buckets k) out (chains k).0 (chains k).1 in
        inr (result, rw (e, find) (ap answer done), λ v. ground (arith, members v))
    found predicate out absent intersect e =
        let k = J.hash predicate in
        let (result, done, members) =
          find_intersect-member L fuel m g k (buckets k) out (chains k).0 (chains k).1 in
        inr (result, rw (e, find) (ap answer done), λ v. ground (arith, members v))
    found predicate out (elements ds) union e =
        let (result, done, members) = find_each-member ds out in
        inr (result, rw (e, find) (ap answer done), members)
    found predicate out (elements ds) intersect e =
        let (set, done, members) = find_each-member ds [] in
        inr (
          retain J L path set out,
          rw (e, find) (rw (done) refl),
          λ v.
              rw (retain-keep_values set out)
                (member-keep_values L v set out ∙ ap (λ b. member L v out && b) (members v)),
        )

    -- Whether or not the predicate uses `$in`, `find` ends, if every bucket is in step and has
    -- fewer pages than there is fuel: with `Union` it adds to the caller's set the keys that are
    -- stored under a hash that the predicate asks for, and with `Intersect` it keeps those of the set
    -- that are. It throws exactly on an operand of `$in` that is no array.
    pub find-member :
        (predicate : Doc) (out : List V) (op : SetOperation)
        → ((J.operand predicate path ≡ no_array)
            × (find J L path fuel m predicate out op ≡ not_an_array))
          ⊎ ((result : List V) × (find J L path fuel m predicate out op ≡ answer (ok result))
              × ((v : V)
                  → member L v result
                    ≡ combine op
                        (member L v out)
                        (is_stored buckets v (hashes predicate (J.operand predicate path)))))
    find-member predicate out op = found predicate out (J.operand predicate path) op refl
