-- ===== src/EventId/Sets.antt =====
-- `std::set<event_id_t>`, sorted by `operator<` of include/credb/event_id.h.
use credb.Prelude.{
  ◌≡◌, inl, inr, Bool-cases, refl, true, false, List, [], ◌∷◌, arith, if◌then◌else◌, All, ◌++◌,
}
use credb.EventId.{EventId, lt}

-- `insert`: an element that neither precedes nor follows one of the set is taken for it.
unfoldable pub set_insert : EventId → List EventId → List EventId
set_insert x [] = x ∷ []
set_insert x (y ∷ ys) =
    if lt x y then x ∷ y ∷ ys else if lt y x then y ∷ set_insert x ys else y ∷ ys

-- The elements inserted one by one.
unfoldable pub insert_all : List EventId → List EventId → List EventId
unfolding set_insert
insert_all [] set = set
insert_all (x ∷ xs) set = insert_all xs (set_insert x set)

-- Each element precedes all those behind it.
abbrev pub IsSorted : List EventId → Type 0
IsSorted [] = Unit
IsSorted (x ∷ xs) = All (λ (y : EventId). lt x y ≡ true) xs × IsSorted xs

-- Events of one shard only.
abbrev pub InShard : EventId → List EventId → Type 0
InShard x = All (λ (e : EventId). e.shard ≡ x.shard)

lt_shards : (x y : EventId) → lt x y ≡ true → x.shard ≡ y.shard
unfolding lt
lt_shards x y h = ground arith

lt_asymm : (x y : EventId) → lt x y ≡ true → lt y x ≡ false
unfolding lt
lt_asymm x y h = ground arith

set_insert-InShard :
    (z x y : EventId) (ys : List EventId) → InShard z (y ∷ ys) → InShard z (set_insert x (y ∷ ys))
unfolding set_insert
set_insert-InShard z x y [] h = ground (arith, lt_shards x y, lt_shards y x)
set_insert-InShard z x y (w ∷ ws) h =
    ground (arith, lt_shards x y, lt_shards y x, set_insert-InShard z x w ws h.1)

set_insert-nonempty :
    (x y : EventId) (ys : List EventId)
    → (z : EventId) × (zs : List EventId) × (set_insert x (y ∷ ys) ≡ z ∷ zs)
unfolding set_insert
set_insert-nonempty x y ys = elim (Bool-cases (lt x y)) [
  | inl e ↦ (x, y ∷ ys, rw e)
  | inr n ↦ elim (Bool-cases (lt y x)) [
    | inl e ↦ (y, set_insert x ys, rw (n, e))
    | inr e ↦ (y, ys, rw (n, e))
  ]
]

insert_all-InShard :
    (z : EventId) (xs : List EventId) (y : EventId) (ys : List EventId)
    → InShard z (y ∷ ys)
    → InShard z (insert_all xs (y ∷ ys))
unfolding insert_all
insert_all-InShard z [] y ys h = h
insert_all-InShard z (x ∷ xs) y ys h =
    let (w, ws, e) = set_insert-nonempty x y ys in
    let k = set_insert-InShard z x y ys h in rw (e) (insert_all-InShard z xs w ws (rw e at k))

-- A set of events holds events of one shard alone, that of the first event inserted: an event of any
-- other shard is dropped.
insert_all-one_shard : (x : EventId) (xs : List EventId) → InShard x (insert_all (x ∷ xs) [])
unfolding insert_all set_insert
insert_all-one_shard x xs = insert_all-InShard x xs x [] (refl, tt)

-- The list `acc` precedes the event.
abbrev pub Precede : List EventId → EventId → Type 0
Precede acc x = All (λ (e : EventId). lt e x ≡ true) acc

-- An event behind all elements of the set goes to its end.
pub set_insert_last :
    (x : EventId) (acc : List EventId) → Precede acc x → set_insert x acc ≡ acc ++ x ∷ []
unfolding set_insert
set_insert_last x [] h = refl
set_insert_last x (y ∷ ys) h = ground (arith, lt_asymm y x, set_insert_last x ys h.1)

pub Precede-append :
    (acc : List EventId) (x : EventId) (xs : List EventId)
    → All (Precede acc) xs
    → All (λ (y : EventId). lt x y ≡ true) xs
    → All (Precede (acc ++ x ∷ [])) xs
Precede-append acc x [] h k = tt
Precede-append acc x (y ∷ ys) h k = (snoc acc y h.0 k.0, Precede-append acc x ys h.1 k.1)
  where
    snoc : (l : List EventId) (z : EventId) → Precede l z → lt x z ≡ true → Precede (l ++ x ∷ []) z
    snoc [] z p q = (q, tt)
    snoc (w ∷ ws) z p q = (p.0, snoc ws z p.1 q)
