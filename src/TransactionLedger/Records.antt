-- ===== src/TransactionLedger/Records.antt =====
-- A record that src/enclave/TransactionLedger.cpp inserts is read back, and so are all before it.
use credb.Prelude.{
  Bool, ◌-◌, ℕ, ◌^◌, ◌<◌, ◌≡◌, refl, sym, ◌∙◌, inl, inr, true, some, List, [], ◌∷◌, ◌==◌, length,
  get_elem?, arith, Bool-cases, ==_of_eq, All, subst,
}
use credb.ObjectEvent.{LedgerPos}
use credb.EventId.Sets.{IsSorted}
use credb.TransactionHandle.{OpSet, write_ops, read_ops}
use credb.TransactionHandle.RoundTrip.{Fits, read_ops-write_ops}
use credb.Ledger.Appends.{get_elem?-append, get_elem?-last}
use credb.TransactionLedger.{TransactionLedger, Codec, ok, ◌>>=◌, insert, get, local_ops}
use credb.TransactionLedger.Inserts.{Sound, added, get-Sound, bytes_of, insert_lem}

-- The document of a record gives back the integers that were written to it.
pub record IsCodec (C : Codec) : Type 0 where
  pub decodes :
      (origin identifier : ℕ) (reads writes : List ℕ)
      → C.decode (C.encode origin identifier reads writes) ≡ some (reads, writes)

local_ops-decoded :
    (C : Codec) (bytes reads writes : List ℕ) (ops : OpSet)
    → C.decode bytes ≡ some (reads, writes)
    → read_ops reads ≡ some ops.reads
    → read_ops writes ≡ some ops.writes
    → local_ops C bytes ≡ ok ops
unfolding local_ops
local_ops-decoded C bytes reads writes ops decoded r w =
    rw (local_ops, decoded) (rw (r) (rw (w) refl))

local_ops_lem :
    (C : Codec) (origin identifier : ℕ) (ops : OpSet)
    → IsCodec C
    → All Fits ops.reads
    → IsSorted ops.reads
    → All Fits ops.writes
    → IsSorted ops.writes
    → local_ops C (bytes_of C origin identifier ops) ≡ ok ops
local_ops_lem C origin identifier ops codec f1 s1 f2 s2 =
    local_ops-decoded C (bytes_of C origin identifier ops) (write_ops ops.reads)
      (write_ops ops.writes) ops
      (codec.decodes origin identifier (write_ops ops.reads) (write_ops ops.writes))
      (read_ops-write_ops ops.reads f1 s1) (read_ops-write_ops ops.writes f2 s2)

-- What an insertion keeps of the records.
added-Extends :
    (g : ℕ → List (List ℕ)) (pending : ℕ) (e : List ℕ) (p i : ℕ) (x : List ℕ)
    → get_elem? (g p) i ≡ some x
    → get_elem? (added g pending e p) i ≡ some x
added-Extends g pending e p i x found = elim (Bool-cases (p == pending)) [
  | inl here ↦ rw (here) (
      get_elem?-append (g pending) (e ∷ []) i x
        (subst (λ h. get_elem? (g h) i ≡ some x) (grind (arith, here)) found))
  | inr away ↦ rw (away) found
]

added-last :
    (g : ℕ → List (List ℕ)) (pending : ℕ) (e : List ℕ)
    → get_elem? (added g pending e pending) (length (g pending)) ≡ some e
added-last g pending e =
    let self : (pending == pending) ≡ true = ==_of_eq _ _ refl in
    rw (self) (get_elem?-last (g pending) e)

-- `insert` of the record of a transaction succeeds on a sound ledger, which is sound again. At the
-- position that it returns the ledger then has a record whose local operations are those that were
-- inserted, and at the position of each earlier record `get` answers as before, also if the block
-- was closed. The pages may be any of those of the buffer manager, if its counter does not wrap around. The conditions are that the document is read back as it was written, that the record
-- takes less than 2 ^ 31 bytes, and that the two sets are in order and their numbers fit.
pub get-insert :
    (C : Codec) (l : TransactionLedger) (own : ℕ → Bool) (g : ℕ → List (List ℕ))
    (origin identifier : ℕ) (ops : OpSet)
    → Sound l own g
    → l.next_page < 2 ^ 32 - 1
    → IsCodec C
    → length (bytes_of C origin identifier ops) < 2 ^ 31
    → All Fits ops.reads
    → IsSorted ops.reads
    → All Fits ops.writes
    → IsSorted ops.writes
    → (l' : TransactionLedger) × (pos : LedgerPos) × (own' : ℕ → Bool) × (g' : ℕ → List (List ℕ))
      × (insert C origin identifier ops l ≡ ok (l', pos))
      × Sound l' own' g'
      × ((get C l' pos >>= λ bytes. local_ops C bytes) ≡ ok ops)
      × ((q : LedgerPos) (e : List ℕ)
          → own q.block ≡ true
          → get_elem? (g q.block) q.index ≡ some e
          → get C l' q ≡ get C l q)
get-insert C l own g origin identifier ops sound room codec short f1 s1 f2 s2 =
    let e = bytes_of C origin identifier ops in
    let i = insert_lem C l own g origin identifier ops sound room short in
    let pos : LedgerPos = record { block = l.pending_block; index = length (g l.pending_block) } in
    let k = sound.pending in
    (
      i.after,
      pos,
      i.own_after,
      i.ghost,
      i.done,
      i.sound,
      rw
          (get-Sound C i.after i.own_after i.ghost pos e i.sound (i.grows l.pending_block k)
            (rw (i.keeps l.pending_block k) (added-last g l.pending_block e)))
          (local_ops_lem C origin identifier ops codec f1 s1 f2 s2),
      λ q x known found.
          get-Sound C i.after i.own_after i.ghost q x i.sound (i.grows q.block known)
            (rw (i.keeps q.block known) (added-Extends g l.pending_block e q.block q.index x found))
          ∙ sym (get-Sound C l own g q x sound known found),
    )
