-- ===== src/Block/Insert.antt =====
-- `Block::insert` appends an event, and makes the index larger before the last entry is used.
use credb.Prelude.{
  ℕ, zero, suc, ◌+◌, ◌-◌, ◌*◌, ◌%◌, ◌^◌, ◌≡◌, ◌<◌, refl, ap, ◌∙◌, sym, List, [], ◌∷◌, ◌++◌, length,
  length-append, length-replicate, arith, append_assoc, set, true, false, append-nil, leb, Bool,
  Bool-cases, inl, inr,
}
use credb.Block.{
  Block, Result, ok, err, header_size, entry_bytes, file_increase, insert, append_event, make_space,
  num_entries, index_size, end_pos,
}
use credb.Block.Layout.{
  concat, offsets, Holds, zeros, length-offsets, concat-append, offsets-append, set-append,
}

-- Room for one more event and, if need be, for a larger index.
pub record HasRoom (events : List (List ℕ)) (spare : ℕ) (event : List ℕ) : Type 0 where
  pub files : length events + spare + file_increase < 2 ^ 16
  pub bytes :
      header_size
        + (length events + spare + file_increase) * entry_bytes
        + length (concat events)
        + length event
      < 2 ^ 32

zeros-append : (n k : ℕ) → zeros n ++ zeros k ≡ zeros (n + k)
zeros-append zero k = let e : k ≡ 0 + k = omega arith in ap zeros e
zeros-append (suc n) k =
    let e : suc (n + k) ≡ suc n + k = omega arith in ap (◌∷◌ 0) (zeros-append n k) ∙ ap zeros e

make_space-Holds :
    (b : Block) (es : List (List ℕ)) (e : List ℕ) (h : Holds b es)
    → HasRoom es h.spare e
    → Holds (make_space b) es
unfolding make_space
make_space-Holds b es e h r = record {
  spare = h.spare + file_increase;
  spare_positive = omega arith;
  count = h.count;
  bytes = h.bytes;
  entries =
      rw (h.entries, append_assoc)
        (ap (λ t. offsets header_size es ++ t) (zeros-append h.spare file_increase));
  files = omega (arith, h.files, r.files);
  files_fit = omega (arith, r.files);
  bytes_fit = omega (arith, r.bytes);
}

append_event-Holds :
    (b : Block) (es : List (List ℕ)) (e : List ℕ) (idx_size spare : ℕ) (h : Holds b es)
    → h.spare ≡ suc (suc spare)
    → idx_size ≡ length b.index * entry_bytes
    → header_size + (length es + h.spare) * entry_bytes + length (concat es) + length e < 2 ^ 32
    → Holds (append_event b idx_size e).0 (es ++ e ∷ [])
      × ((append_event b idx_size e).1 ≡ length es)
unfolding append_event end_pos
append_event-Holds b es e idx_size spare h two size fits = (
  record {
    spare = suc spare;
    spare_positive = omega arith;
    count = omega (arith, h.count, h.files_fit, length-append es (e ∷ []));
    bytes = rw (h.bytes, concat-append es (e ∷ []), append-nil);
    entries =
        ap (λ l. set l b.file_pos ((end_pos b - idx_size) % 2 ^ 32))
          (h.entries ∙ ap (λ (t : ℕ). offsets header_size es ++ zeros t) two)
        ∙ set-append (offsets header_size es) (zeros (suc spare)) b.file_pos
            ((end_pos b - idx_size) % 2 ^ 32) 0
            (omega (arith, length-offsets header_size es, h.count))
        ∙ ap (λ (t : ℕ). offsets header_size es ++ t ∷ zeros (suc spare)) here
        ∙ sym (
            ap (λ l. l ++ zeros (suc spare)) (offsets-append header_size es e)
            ∙ append_assoc (offsets header_size es) ((header_size + length (concat es)) ∷ [])
                (zeros (suc spare)));
    files = omega (arith, h.files, length-append es (e ∷ []));
    files_fit = omega (arith, h.files_fit, length-append es (e ∷ []));
    bytes_fit = omega (
      arith,
      fits,
      length-append es (e ∷ []),
      ap length (concat-append es (e ∷ [])),
      length-append (concat es) (e ++ []),
      length-append e [],
    );
  },
  omega (arith, h.count, h.files_fit),
)
  where
    here : (end_pos b - idx_size) % 2 ^ 32 ≡ header_size + length (concat es)
    here = omega (arith, size, fits, ap length h.bytes)

pub length-index : (b : Block) (es : List (List ℕ)) (h : Holds b es) → length b.index ≡ b.num_files
length-index b es h = omega (
  arith,
  ap length h.entries,
  length-append (offsets header_size es) (zeros h.spare),
  length-offsets header_size es,
  length-replicate {A = ℕ} h.spare 0,
  h.files,
)

insert_grows :
    (b : Block) (e : List ℕ)
    → b.is_sealed ≡ false
    → leb b.num_files (num_entries b) ≡ true
    → insert b e ≡ ok (append_event (make_space b) (index_size b + file_increase * entry_bytes) e)
unfolding insert
insert_grows b e u f = ground arith

insert_fits :
    (b : Block) (e : List ℕ)
    → b.is_sealed ≡ false
    → leb b.num_files (num_entries b) ≡ false
    → insert b e ≡ ok (append_event b (index_size b) e)
unfolding insert
insert_fits b e u f = ground arith

sealed_after : Result (Block × ℕ) → Bool
sealed_after (ok r) = r.0.is_sealed
sealed_after (err e) = false

-- A block that is not sealed is not sealed by `insert`.
pub insert_unsealed :
    (b : Block) (e : List ℕ) (b' : Block) (i : ℕ)
    → b.is_sealed ≡ false
    → insert b e ≡ ok (b', i)
    → b'.is_sealed ≡ false
unfolding append_event make_space sealed_after
insert_unsealed b e b' i u h = sym (ap sealed_after h) ∙ after
  where
    after : sealed_after (insert b e) ≡ false
    after = elim (Bool-cases (leb b.num_files (num_entries b))) [
      | inl f ↦ ap sealed_after (insert_grows b e u f) ∙ u
      | inr f ↦ ap sealed_after (insert_fits b e u f) ∙ u
    ]

-- Into a block that is not sealed and has room, `insert` appends the event: the block then holds
-- the events it held and the new one behind them, and the index returned is the number of those
-- before.
pub insert-Holds :
    (b : Block) (es : List (List ℕ)) (e : List ℕ)
    → (h : Holds b es) → b.is_sealed ≡ false
    → HasRoom es h.spare e
    → (b' : Block) × (insert b e ≡ ok (b', length es)) × Holds b' (es ++ e ∷ [])
unfolding insert num_entries index_size make_space
insert-Holds b es e h unsealed room = by_spare h.spare refl
  where
    full : h.spare ≡ 1 → leb b.num_files (num_entries b) ≡ true
    full k = ground (arith, h.count, h.files, h.files_fit)

    not_full : (s : ℕ) → h.spare ≡ suc (suc s) → leb b.num_files (num_entries b) ≡ false
    not_full s k = ground (arith, h.count, h.files, h.files_fit)

    larger :
        h.spare ≡ 1
        → index_size b + file_increase * entry_bytes ≡ length (make_space b).index * entry_bytes
    larger k = omega (arith, length-index b es h, length-append b.index (zeros file_increase))

    by_spare :
        (s : ℕ)
        → h.spare ≡ s
        → (b' : Block) × (insert b e ≡ ok (b', length es)) × Holds b' (es ++ e ∷ [])
    by_spare zero k = absurd (omega (arith, h.spare_positive))
    by_spare (suc zero) k =
        let large = make_space-Holds b es e h room in
        let idx_size = index_size b + file_increase * entry_bytes in
        let (holds, pos) =
          append_event-Holds (make_space b) es e idx_size 49 large (omega (arith, k)) (larger k)
            (omega (arith, room.bytes)) in
        (
          (append_event (make_space b) idx_size e).0,
          insert_grows b e unsealed (full k)
              ∙ ap (λ p. ok ((append_event (make_space b) idx_size e).0, p)) pos,
          holds,
        )
    by_spare (suc (suc s)) k =
        let (holds, pos) =
          append_event-Holds b es e (index_size b) s h k (omega (arith, length-index b es h))
            (omega (arith, room.bytes)) in
        (
          (append_event b (index_size b) e).0,
          insert_fits b e unsealed (not_full s k)
              ∙ ap (λ p. ok ((append_event b (index_size b) e).0, p)) pos,
          holds,
        )
