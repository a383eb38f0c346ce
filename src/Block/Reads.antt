-- ===== src/Block/Reads.antt =====
-- `Block::get` returns the bytes of each event that was inserted, also after the block was read back.
use credb.Prelude.{
  ℕ, zero, suc, ◌+◌, ◌%◌, ◌^◌, ◌≡◌, ◌<◌, ◌≤◌, refl, ap, subst, ◌∙◌, sym, List, [], ◌∷◌, ◌++◌,
  length, length-append, arith, some, some-injective, inl, inr, get_elem?, take, drop, dec_lt, ◌⊎◌,
}
use credb.Block.{
  Block, ok, err, out_of_bounds, no_such_entry, header_size, get, index_word, index_size, end_pos,
  reload, count_files, slice, num_entries,
}
use credb.Block.Insert.{length-index}
use credb.Block.Layout.{concat, offsets, Holds, zeros}

-- The events before place `i`.
abbrev before : ℕ → List (List ℕ) → List (List ℕ)
before = take

get_elem?-zeros : (n i : ℕ) → i < n → get_elem? (zeros n) i ≡ some 0
get_elem?-zeros zero i h = elim h [ ]
get_elem?-zeros (suc n) zero h = refl
get_elem?-zeros (suc n) (suc i) h = get_elem?-zeros n i (omega arith)

-- The offset of an event lies behind all bytes of those before it; the place after the last has none.
get_elem?-index :
    (o : ℕ) (es : List (List ℕ)) (n i : ℕ)
    → i < length es
    → get_elem? (offsets o es ++ zeros n) i ≡ some (o + length (concat (take i es)))
get_elem?-index o [] n i h = elim h [ ]
get_elem?-index o (e ∷ es) n zero h = let k : o ≡ o + 0 = omega arith in ap some k
get_elem?-index o (e ∷ es) n (suc i) h =
    get_elem?-index (o + length e) es n i (omega arith)
    ∙ ap some (omega (arith, length-append e (concat (take i es))))

get_elem?-index_zero :
    (o : ℕ) (es : List (List ℕ)) (n i : ℕ)
    → length es ≤ i
    → i < length es + n
    → get_elem? (offsets o es ++ zeros n) i ≡ some 0
get_elem?-index_zero o [] n i h k = get_elem?-zeros n i (omega arith)
get_elem?-index_zero o (e ∷ es) n zero h k = absurd (omega arith)
get_elem?-index_zero o (e ∷ es) n (suc i) h k =
    get_elem?-index_zero (o + length e) es n i (omega arith) (omega arith)

drop-append_more : (f xs ys : List ℕ) → drop (length (f ++ xs)) (f ++ ys) ≡ drop (length xs) ys
drop-append_more [] xs ys = refl
drop-append_more (x ∷ f) xs ys = drop-append_more f xs ys

take-append : (xs ys : List ℕ) → take (length xs) (xs ++ ys) ≡ xs
take-append [] [] = refl
take-append [] (y ∷ ys) = refl
take-append (x ∷ xs) ys = ap (◌∷◌ x) (take-append xs ys)

-- The bytes of the event at place `i`.
slice-concat :
    (es : List (List ℕ)) (i : ℕ) (e : List ℕ)
    → get_elem? es i ≡ some e
    → slice (length (concat (take i es))) (length e) (concat es) ≡ e
slice-concat [] i e h = cc
slice-concat (f ∷ es) zero e h =
    subst (λ t. take (length t) (f ++ concat es) ≡ t) (some-injective f e h)
      (take-append f (concat es))
slice-concat (f ∷ es) (suc i) e h =
    ap (take (length e)) (drop-append_more f (concat (take i es)) (concat es))
    ∙ slice-concat es i e h

length-take-suc :
    (es : List (List ℕ)) (i : ℕ) (e : List ℕ)
    → get_elem? es i ≡ some e
    → length (concat (take (suc i) es)) ≡ length (concat (take i es)) + length e
length-take-suc [] i e h = cc
length-take-suc (f ∷ es) zero e h =
    omega (arith, ap length (some-injective f e h), length-append f [])
length-take-suc (f ∷ es) (suc i) e h = omega (
  arith,
  length-take-suc es i e h,
  length-append f (concat (take (suc i) es)),
  length-append f (concat (take i es)),
)

take_all : (es : List (List ℕ)) (i : ℕ) → length es ≤ i → take i es ≡ es
take_all [] zero h = refl
take_all [] (suc i) h = refl
take_all (e ∷ es) zero h = absurd (omega arith)
take_all (e ∷ es) (suc i) h = ap (◌∷◌ e) (take_all es i (omega arith))

in_range : (es : List (List ℕ)) (i : ℕ) (e : List ℕ) → get_elem? es i ≡ some e → i < length es
in_range [] i e h = cc
in_range (f ∷ es) zero e h = omega arith
in_range (f ∷ es) (suc i) e h = omega (arith, in_range es i e h)

-- `get`, from the two words of the index that it reads.
get_by_words :
    (b : Block) (i start size next : ℕ)
    → i < b.num_files
    → index_word b i ≡ header_size + start
    → index_word b (i + 1) ≡ next
    → (next ≡ 0) × (end_pos b ≡ header_size + start + size + index_size b)
      ⊎ (next ≡ header_size + start + size)
    → header_size + start + size + index_size b < 2 ^ 32
    → get b i ≡ ok (slice start size b.payload)
unfolding get index_size
get_by_words b i start size next h first second stop fits = ground arith

index_word_found : (b : Block) (i o : ℕ) → get_elem? b.index i ≡ some o → index_word b i ≡ o
unfolding index_word
index_word_found b i o e = rw (e, index_word)

length-concat-take : (es : List (List ℕ)) (n : ℕ) → length (concat (take n es)) ≤ length (concat es)
length-concat-take [] zero = omega arith
length-concat-take [] (suc n) = omega arith
length-concat-take (e ∷ es) zero = omega arith
length-concat-take (e ∷ es) (suc n) = omega (
  arith,
  length-concat-take es n,
  length-append e (concat (take n es)),
  length-append e (concat es),
)

index_word-offset :
    (b : Block) (es : List (List ℕ)) (i : ℕ)
    → Holds b es
    → i < length es
    → index_word b i ≡ header_size + length (concat (take i es))
index_word-offset b es i h l =
    index_word_found b i _
      (ap (λ idx. get_elem? idx i) h.entries ∙ get_elem?-index header_size es h.spare i l)

index_word-zero :
    (b : Block) (es : List (List ℕ)) (i : ℕ) (h : Holds b es)
    → length es ≤ i
    → i < length es + h.spare
    → index_word b i ≡ 0
index_word-zero b es i h l k =
    index_word_found b i 0
      (ap (λ idx. get_elem? idx i) h.entries ∙ get_elem?-index_zero header_size es h.spare i l k)

-- A block answers with the bytes of each event that it holds, at its index.
pub get-Holds :
    (b : Block) (es : List (List ℕ)) (i : ℕ) (e : List ℕ)
    → Holds b es
    → get_elem? es i ≡ some e
    → get b i ≡ ok e
unfolding index_size end_pos
get-Holds b es i e h found = elim (dec_lt (suc i) (length es)) [
  | yes inner ↦
      get_by_words b i start (length e) (index_word b (i + 1)) (omega (arith, l, h.files))
        (index_word-offset b es i h l) refl
        (inr (
          ap (index_word b) next_place
          ∙ index_word-offset b es (suc i) h inner
          ∙ omega (arith, length-take-suc es i e found)))
        (omega (arith, total, h.bytes_fit, h.files))
      ∙ result
  | no last ↦
      get_by_words b i start (length e) 0 (omega (arith, l, h.files)) (index_word-offset b es i h l)
        (index_word-zero b es (i + 1) h (omega arith) (omega (arith, l, h.spare_positive)))
        (inl (refl, omega (arith, length-index b es h, ap length h.bytes, whole last)))
        (omega (arith, total, h.bytes_fit, h.files))
      ∙ result
]
  where
    start : ℕ
    start = length (concat (take i es))

    l : i < length es
    l = in_range es i e found

    total : start + length e ≤ length (concat es)
    total = omega (arith, length-take-suc es i e found, length-concat-take es (suc i))

    next_place : i + 1 ≡ suc i
    next_place = omega arith

    whole : ¬ (suc i < length es) → length (concat es) ≡ start + length e
    whole last =
        ap (λ l. length (concat l)) (sym (take_all es (suc i) (omega arith)))
        ∙ length-take-suc es i e found

    result : ok (slice start (length e) b.payload) ≡ ok e
    result = ap ok (ap (slice start (length e)) h.bytes ∙ slice-concat es i e found)

-- An index at which no event is held is refused.
pub get-refuses :
    (b : Block) (es : List (List ℕ)) (i : ℕ)
    → Holds b es
    → length es ≤ i
    → (get b i ≡ err out_of_bounds) ⊎ (get b i ≡ err no_such_entry)
unfolding get
get-refuses b es i h l = elim (dec_lt i (length es + h.spare)) [
  | yes k ↦ inr (ground (arith, index_word-zero b es i h l k, h.files))
  | no k ↦ inl (ground (arith, h.files))
]

count_files-index :
    (rounds : ℕ) (o : ℕ) (es : List (List ℕ)) (n pos : ℕ)
    → 0 < o
    → 0 < n
    → length es < rounds
    → pos + length es < 2 ^ 16
    → count_files rounds (offsets o es ++ zeros n) pos ≡ pos + length es
unfolding count_files
count_files-index zero o es n pos z s r f = absurd (omega arith)
count_files-index (suc r) o [] zero pos z s k f = absurd (omega arith)
count_files-index (suc r) o [] (suc n) pos z s k f = omega arith
count_files-index (suc r) zero (e ∷ es) n pos z s k f = absurd (omega arith)
count_files-index (suc r) (suc o) (e ∷ es) n pos z s k f =
    ap (λ (t : ℕ). count_files r (offsets (suc o + length e) es ++ zeros n) t) (step (omega arith))
    ∙ count_files-index r (suc o + length e) es n (pos + 1) (omega arith) s (omega arith)
        (omega arith)
    ∙ omega arith
  where
    step : pos + 1 < 2 ^ 16 → (pos + 1) % 2 ^ 16 ≡ pos + 1
    step h = omega arith

-- A block that is written out and read back is the same block: the constructor finds again how many
-- events the index holds.
pub reload-Holds : (b : Block) (es : List (List ℕ)) → Holds b es → reload b ≡ b
unfolding reload
reload-Holds b es h =
    ap (λ (t : ℕ). record b { file_pos = t })
      (ap (λ idx. count_files b.num_files idx 0) h.entries
        ∙ count_files-index b.num_files header_size es h.spare 0 (omega arith) h.spare_positive
            (omega (arith, h.files, h.spare_positive)) (omega (arith, h.files_fit))
        ∙ omega (arith, h.count))

-- `num_entries` is one more than the number of events that the block holds.
pub num_entries-Holds :
    (b : Block) (es : List (List ℕ)) → Holds b es → num_entries b ≡ length es + 1
unfolding num_entries
num_entries-Holds b es h = omega (arith, h.count, h.files_fit, h.spare_positive)
