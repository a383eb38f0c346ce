-- ===== src/Prelude/Names.antt =====
-- Names, keys and paths as lists of characters, and a map keyed by them in no particular order.
use Prim.Native.Nat.{ℕ}
use mathlib.Core.Path.{◌≡◌, refl, subst}
use mathlib.Core.Bool.{Bool, true, false, ◌&&◌}
use mathlib.Core.List.{List, [], ◌∷◌, ◌++◌}
use mathlib.Core.Option.{Option, none, some}
use mathlib.Core.Logic.{◌↔◌}
use native.Mathlib.Omega.{arith}
use credb.Prelude.Tests.{◌==◌, if◌then◌else◌}

abbrev pub Name : Type 0
Name = List ℕ

abbrev pub is_empty : Name → Bool
is_empty [] = true
is_empty _ = false

abbrev pub equal_names : Name → Name → Bool
equal_names [] [] = true
equal_names [] (d ∷ ds) = false
equal_names (c ∷ cs) [] = false
equal_names (c ∷ cs) (d ∷ ds) = c == d && equal_names cs ds

pub equal_names_eq : (m n : Name) → equal_names m n ≡ true → m ≡ n
equal_names_eq [] [] h = refl
equal_names_eq [] (d ∷ n) h = cc
equal_names_eq (c ∷ m) [] h = cc
equal_names_eq (c ∷ m) (d ∷ n) h =
    let head : c ≡ d = ground arith in
    let tail : equal_names m n ≡ true = ground arith in rw (head, equal_names_eq m n tail) refl

pub equal_names_self : (n : Name) → equal_names n n ≡ true
equal_names_self [] = refl
equal_names_self (c ∷ n) = ground (arith, equal_names_self n)

pub equal_names_iff : (m n : Name) → (equal_names m n ≡ true) ↔ (m ≡ n)
equal_names_iff m n =
    (equal_names_eq m n, λ e. subst (λ (k : Name). equal_names m k ≡ true) e (equal_names_self m))

-- Under a common prefix names are told apart by what follows it.
pub equal_names-append : (p m n : Name) → equal_names (p ++ m) (p ++ n) ≡ equal_names m n
equal_names-append [] m n = refl
equal_names-append (c ∷ p) m n = ground (arith, equal_names-append p m n)

-- `std::unordered_map` keyed by a name.
module _ {ℓ} {V : Type ℓ} where
  abbrev pub find_name : Name → List (Name × V) → Option V
  find_name k [] = none
  find_name k ((j, v) ∷ m) = if equal_names k j then some v else find_name k m

  abbrev pub insert_name : Name → V → List (Name × V) → List (Name × V)
  insert_name k v [] = (k, v) ∷ []
  insert_name k v ((j, w) ∷ m) = if equal_names k j then (k, v) ∷ m else (j, w) ∷ insert_name k v m

  abbrev pub erase_name : Name → List (Name × V) → List (Name × V)
  erase_name k [] = []
  erase_name k ((j, w) ∷ m) =
      let rest = erase_name k m in if equal_names k j then rest else (j, w) ∷ rest

  pub find_name-insert :
      (k j : Name) (v : V) (m : List (Name × V))
      → find_name j (insert_name k v m) ≡ (if equal_names j k then some v else find_name j m)
  find_name-insert k j v [] = refl
  find_name-insert k j v ((i, w) ∷ m) = ground (
    arith,
    equal_names_iff j k,
    equal_names_iff k i,
    equal_names_iff j i,
    find_name-insert k j v m,
  )

  pub find_name-erase :
      (k j : Name) (m : List (Name × V))
      → find_name j (erase_name k m) ≡ (if equal_names j k then none else find_name j m)
  find_name-erase k j [] = ground arith
  find_name-erase k j ((i, w) ∷ m) =
      ground (
        arith,
        equal_names_iff j k,
        equal_names_iff k i,
        equal_names_iff j i,
        find_name-erase k j m,
      )
