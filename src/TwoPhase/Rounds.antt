-- ===== src/TwoPhase/Rounds.antt =====
-- What a round of messages of src/enclave/TransactionExecutor.cpp leaves at each node, and which
-- answer it gives.
use credb.Prelude.{
  ℕ, ◌≡◌, inl, inr, refl, ◌∙◌, Bool, true, false, ◌&&◌, ◌||◌, List, [], ◌∷◌, ◌==◌, if◌then◌else◌,
  arith, Bool-cases, ==_of_eq, subst,
}
use credb.TwoPhase.{Node, Reply, answers, send_all, update_node}

unfoldable pub member : ℕ → List ℕ → Bool
member c [] = false
member c (d ∷ ds) = c == d || member c ds

-- No child is in the list twice.
abbrev pub AreDistinct : List ℕ → Type 0
AreDistinct [] = Unit
AreDistinct (c ∷ children) = (member c children ≡ false) × AreDistinct children

-- Every child that is connected votes yes, and every child is connected.
unfoldable pub all_yes : (ℕ → Bool) → (ℕ → Bool) → List ℕ → Bool
all_yes found vote [] = true
all_yes found vote (c ∷ children) =
    (if found c then vote c else true) && all_yes found vote children

unfoldable pub all_found : (ℕ → Bool) → List ℕ → Bool
all_found found [] = true
all_found found (c ∷ children) = found c && all_found found children

pub all_found-member :
    (found : ℕ → Bool) (children : List ℕ) (c : ℕ)
    → all_found found children ≡ true
    → member c children ≡ true
    → found c ≡ true
unfolding all_found member
all_found-member found [] c a m = cc
all_found-member found (d ∷ children) c a m = elim (Bool-cases (c == d)) [
  | inl same ↦ let e : c ≡ d = ground arith in rw (e) (ground (arith, a))
  | inr other ↦ all_found-member found children c (ground (arith, a)) (ground (arith, m))
]

pub all_yes-member :
    (found vote : ℕ → Bool) (children : List ℕ) (c : ℕ)
    → all_yes found vote children ≡ true
    → member c children ≡ true
    → found c ≡ true
    → vote c ≡ true
unfolding all_yes member
all_yes-member found vote [] c a m f = cc
all_yes-member found vote (d ∷ children) c a m f = elim (Bool-cases (c == d)) [
  | inl same ↦
      let e : c ≡ d = ground arith in
      let f' = subst (λ (x : ℕ). found x ≡ true) e f in rw (e) (ground (arith, a))
  | inr other ↦ all_yes-member found vote children c (ground (arith, a)) (ground (arith, m)) f
]

module _ {Op Ledger : Type 0} (handle : Node Op Ledger → Node Op Ledger × Reply)
    (found : ℕ → Bool) where
  pub send_all-nodes :
      (children : List ℕ) (nodes : ℕ → Node Op Ledger) (c : ℕ)
      → AreDistinct children
      → (send_all handle found children nodes).nodes c
        ≡ (if member c children && found c then (handle (nodes c)).0 else nodes c)
  unfolding send_all member
  send_all-nodes [] nodes c distinct = refl
  send_all-nodes (d ∷ children) nodes c (once, distinct) = elim (Bool-cases (found d)) [
    | inl f ↦ rw (f) (
        send_all-nodes children (update_node nodes d (handle (nodes d)).0) c distinct
        ∙ elim (Bool-cases (c == d)) [
          | inl same ↦ let e : c ≡ d = ground arith in rw (same) (rw (e) (rw (once) (rw (f) refl)))
          | inr other ↦ rw (other) refl
        ])
    | inr f ↦ rw (f) (
        send_all-nodes children nodes c distinct ∙ elim (Bool-cases (c == d)) [
          | inl same ↦ let e : c ≡ d = ground arith in rw (same) (rw (e) (rw (once) (rw (f) refl)))
          | inr other ↦ rw (other) refl
        ])
  ]

  -- The answers of the children that are connected, all together.
  pub send_all-reply :
      (vote : ℕ → Bool) (children : List ℕ) (nodes : ℕ → Node Op Ledger)
      → AreDistinct children
      → ((c : ℕ)
          → member c children ≡ true
          → found c ≡ true
          → (handle (nodes c)).1 ≡ answers (vote c))
      → ((send_all handle found children nodes).reply ≡ answers (all_yes found vote children))
        × ((send_all handle found children nodes).all_found ≡ all_found found children)
  unfolding send_all member all_yes all_found
  send_all-reply vote [] nodes distinct votes = (refl, refl)
  send_all-reply vote (d ∷ children) nodes (once, distinct) votes = elim (Bool-cases (found d)) [
    | inl f ↦ rw (f) (
        let rest =
          send_all-reply vote children (update_node nodes d (handle (nodes d)).0) distinct (λ c m g.
            elim (Bool-cases (c == d)) [
              | inl same ↦
                  let e : c ≡ d = ground arith in
                  let m' = subst (λ (x : ℕ). member x children ≡ true) e m in cc
              | inr other ↦ rw (other) (votes c (ground (arith, m)) g)
            ]) in
        let first = votes d (rw (==_of_eq d d refl) refl) f in
        (ground (arith, first, rest.0), rest.1))
    | inr f ↦ rw (f) (
        let rest =
          send_all-reply vote children nodes distinct (λ c m g. votes c (ground (arith, m)) g) in
        (rest.0, refl))
  ]
