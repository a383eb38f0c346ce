-- ===== src/Map/Samples.antt =====
-- Small maps on which the theorems about src/enclave/HashMap.cpp and src/enclave/MultiMap.cpp are
-- tried: keys and values are numbers, an entry takes 16 bytes and the header of a node 100.
use credb.Prelude.{ℕ, ◌-◌, refl, Option, none, some, [], ◌∷◌, arith, ℕ_discrete}
use credb.VersionNumber.{VersionNumber, initial}
use credb.Node.{Layout, Node, invalid_page_no}
use credb.Map.{Map, update}
use credb.Map.Chains.{Ghost, Chain}

abbrev pub numbers : Layout ℕ ℕ
numbers = record {
  dec_key = ℕ_discrete;
  dec_value = ℕ_discrete;
  hash = λ k. k;
  entry_size = λ k v. 16;
  node_base = 100;
}

abbrev pub no_values : ℕ → Option ℕ
no_values k = none

abbrev pub version_of : ℕ → VersionNumber
version_of v = record { value = v }

-- The keys 7 and 8199 share the bucket 7.
abbrev pub first_node : Node ℕ ℕ
first_node = record {
  version = version_of 3;
  successor = 2;
  successor_version = version_of 1;
  count = 1;
  entries = (7, 70) ∷ [];
}

abbrev pub second_node : Node ℕ ℕ
second_node = record {
  version = version_of 1;
  successor = invalid_page_no;
  successor_version = initial;
  count = 2;
  entries = (8199, 80) ∷ (7, 71) ∷ [];
}

abbrev pub lone_node : Node ℕ ℕ
lone_node = record first_node { successor = invalid_page_no; successor_version = initial }

-- A bucket of two pages, and one of a single page.
abbrev pub two_pages : Map ℕ ℕ
two_pages = record {
  pages = update (update (λ p. none) 1 (some first_node)) 2 (some second_node);
  next_page = 3;
  buckets =
      update (λ b. record { page_no = invalid_page_no; version = initial }) 7
        (record { page_no = 1; version = version_of 3 });
  size = 3;
}

abbrev pub one_page : Map ℕ ℕ
one_page = record two_pages {
  pages = update (λ p. none) 1 (some lone_node);
  next_page = 2;
  size = 1;
}

abbrev pub places : Ghost
places = record { owner = λ p. 7; place = λ p. p - 1 }

pub two_pages-Chain :
    Chain two_pages places 7 0 1 (version_of 3) ((1, first_node) ∷ (2, second_node) ∷ [])
two_pages-Chain = (
  refl,
  omega arith,
  omega arith,
  refl,
  refl,
  refl,
  refl,
  (refl, omega arith, omega arith, refl, refl, refl, refl, (refl, refl)),
)

pub one_page-Chain : Chain one_page places 7 0 1 (version_of 3) ((1, lone_node) ∷ [])
one_page-Chain = (refl, omega arith, omega arith, refl, refl, refl, refl, (refl, refl))
