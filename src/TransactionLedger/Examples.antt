-- ===== src/TransactionLedger/Examples.antt =====
-- The record of a transaction that read and wrote one object each, in a new ledger.
use credb.Prelude.{
  ◌==◌, true, Bool, ℕ, zero, suc, ◌≡◌, refl, Option, none, some, List, [], ◌∷◌, ◌++◌, length,
  get_elem?, arith,
}
use credb.EventId.{EventId}
use credb.TransactionHandle.{OpSet}
use credb.EventId.{lt, order, event_eq}
use credb.ObjectEvent.{LedgerPos}
use credb.Block.Layout.{new_block-Holds}
use credb.Block.{new_block}
use credb.Ledger.Sealing.{new_block_lem}
use credb.TransactionHandle.{write_ops}
use credb.TransactionLedger.{
  ◌>>=◌, ok, insert, get, local_ops, generate_block, TransactionLedger, Codec, new_ledger,
}
use credb.TransactionLedger.Inserts.{Sound, others-Sound}
use credb.TransactionLedger.Records.{IsCodec, get-insert}

split : ℕ → List ℕ → List ℕ × List ℕ
split zero xs = ([], xs)
split (suc n) [] = ([], [])
split (suc n) (x ∷ xs) = let (ys, zs) = split n xs in (x ∷ ys, zs)

split-append : (xs ys : List ℕ) → split (length xs) (xs ++ ys) ≡ (xs, ys)
unfolding split
split-append [] ys = refl
split-append (x ∷ xs) ys = rw (split-append xs ys) refl

decode_parts : List ℕ → Option (List ℕ × List ℕ)
unfolding split
decode_parts [] = none
decode_parts (n ∷ xs) = some (split n xs)

-- A document that holds the number of the first integers, and then all of them.
abbrev parts : Codec
parts = record {
  encode = λ origin identifier reads writes. length reads ∷ reads ++ writes;
  decode = decode_parts;
}

parts-IsCodec : IsCodec parts
unfolding decode_parts
parts-IsCodec = record {
  decodes = λ origin identifier reads writes. rw (split-append reads writes) refl;
}

abbrev event : ℕ → ℕ → ℕ → EventId
event s b i = record { shard = s; index = i; block = b }

abbrev ops : OpSet
ops = record { reads = event 1 2 3 ∷ event 1 2 9 ∷ []; writes = event 1 1 7 ∷ [] }

-- The first page of the ledger is page 1, and other components took the pages up to 4.
abbrev own : ℕ → Bool
own p = p == 1

abbrev first : TransactionLedger
first = new_ledger 1

abbrev start : TransactionLedger
start = record first { next_page = 5 }

first-Sound : Sound first own (λ p. [])
unfolding new_ledger generate_block
first-Sound = record {
  page = λ p k. (new_block, (let e : p ≡ 1 = ground (arith, k) in rw (e) refl), new_block-Holds);
  below = λ p k. (let e : p ≡ 1 = ground (arith, k) in omega (arith, e));
  pending = refl;
  open_block = λ b at.
      let same : new_block ≡ b = ground (arith, at) in
      rw (← same) (new_block_lem.0, omega (arith, new_block_lem.1));
}

start-Sound : Sound start own (λ p. [])
unfolding new_ledger generate_block
start-Sound = others-Sound first own (λ p. []) 5 (omega arith) first-Sound

get-insert_example :
    (l' : TransactionLedger) × (pos : LedgerPos) × (own' : ℕ → Bool) × (g' : ℕ → List (List ℕ))
    × (insert parts 5 8 ops start ≡ ok (l', pos))
    × Sound l' own' g'
    × ((get parts l' pos >>= λ bytes. local_ops parts bytes) ≡ ok ops)
    × ((q : LedgerPos) (e : List ℕ)
        → own q.block ≡ true
        → get_elem? {A = List ℕ} [] q.index ≡ some e
        → get parts l' q ≡ get parts start q)
unfolding lt order event_eq write_ops
get-insert_example =
    get-insert parts start own (λ p. []) 5 8 ops start-Sound (omega arith) parts-IsCodec
      (omega arith)
      ((omega arith, omega arith, omega arith), ((omega arith, omega arith, omega arith), tt))
      ((refl, tt), (tt, tt)) ((omega arith, omega arith, omega arith), tt) (tt, tt)
