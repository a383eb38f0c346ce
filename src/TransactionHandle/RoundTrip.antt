-- ===== src/TransactionHandle/RoundTrip.antt =====
-- An operation set is read back as it was written: `write_op_set` of
-- src/enclave/TransactionLedger.cpp against `read_ops` of src/enclave/TransactionHandle.h.
use credb.Prelude.{
  ℕ, ◌≡◌, ◌≢◌, ◌<◌, ◌^◌, ◌%◌, refl, ap, ◌∙◌, some, none, List, [], ◌∷◌, ◌++◌, arith, All,
  append_assoc, append-nil, length, ◌↔◌,
}
use credb.EventId.{EventId}
use credb.EventId.Sets.{set_insert, set_insert_last, IsSorted, Precede, Precede-append}
use credb.TransactionHandle.{write_ops, read_ops, read_ops_into, cut_event}

-- The fields fit their machine types.
abbrev pub Fits : EventId → Type 0
Fits e = (e.shard < 2 ^ 16) × (e.index < 2 ^ 16) × (e.block < 2 ^ 32)

cut : (e : EventId) → Fits e → cut_event e.shard e.block e.index ≡ e
cut e h = ground arith

read_ops_into-write_ops :
    (acc es : List EventId)
    → All Fits es
    → IsSorted es
    → All (Precede acc) es
    → read_ops_into acc (write_ops es) ≡ some (acc ++ es)
unfolding write_ops read_ops_into
read_ops_into-write_ops acc [] f s h = rw append-nil
read_ops_into-write_ops acc (e ∷ es) f s h =
    rw (cut e f.0, set_insert_last e acc h.0)
      (read_ops_into-write_ops (acc ++ e ∷ []) es f.1 s.1 (Precede-append acc e es h.1 s.0)
        ∙ ap some (append_assoc acc (e ∷ []) es))

-- A sorted set of events whose fields fit their types is read back exactly.
pub read_ops-write_ops :
    (es : List EventId) → All Fits es → IsSorted es → read_ops (write_ops es) ≡ some es
unfolding read_ops
read_ops-write_ops es f s = read_ops_into-write_ops [] es f s (all_precede es)
  where
    all_precede : (xs : List EventId) → All (Precede []) xs
    all_precede [] = tt
    all_precede (x ∷ xs) = (tt, all_precede xs)

read_ops_into-none_iff :
    (acc : List EventId) (doc : List ℕ) → (read_ops_into acc doc ≡ none) ↔ (length doc % 3 ≢ 0)
unfolding read_ops_into
read_ops_into-none_iff acc [] = (λ e. cc, λ n. absurd (n (omega arith)))
read_ops_into-none_iff acc (s ∷ []) = (λ e. omega arith, λ n. refl)
read_ops_into-none_iff acc (s ∷ b ∷ []) = (λ e. omega arith, λ n. refl)
read_ops_into-none_iff acc (s ∷ b ∷ i ∷ rest) =
    let (to, from) = read_ops_into-none_iff (set_insert (cut_event s b i) acc) rest in
    (λ e. let n = to e in omega arith, λ n. from (omega arith))

-- A list of integers is refused exactly when its length is no multiple of three.
pub read_ops-none_iff : (doc : List ℕ) → (read_ops doc ≡ none) ↔ (length doc % 3 ≢ 0)
unfolding read_ops
read_ops-none_iff doc = read_ops_into-none_iff [] doc
