-- ===== src/Block/Layout.antt =====
-- Which events a block holds, and where: the invariant of src/enclave/Block.inl.
use credb.Prelude.{
  ℕ, zero, suc, ◌+◌, ◌*◌, ◌^◌, ◌≡◌, ◌<◌, refl, ap, ◌∙◌, sym, List, [], ◌∷◌, ◌++◌, length,
  length-append, replicate, arith, append_assoc, set,
}
use credb.Block.{Block, header_size, entry_bytes, new_block}

-- The events one behind the other.
abbrev pub concat : List (List ℕ) → List ℕ
concat [] = []
concat (e ∷ es) = e ++ concat es

-- The offset of each event, the first at `o`.
abbrev pub offsets : ℕ → List (List ℕ) → List ℕ
offsets o [] = []
offsets o (e ∷ es) = o ∷ offsets (o + length e) es

-- The unused entries of an index.
abbrev pub zeros : ℕ → List ℕ
zeros n = replicate n 0

-- The block holds the events: their bytes fill the buffer, the index holds their offsets and zeros
-- behind those, and at least one zero is left.
pub record Holds (b : Block) (events : List (List ℕ)) : Type 0 where
  pub spare : ℕ
  pub spare_positive : 0 < spare
  pub count : b.file_pos ≡ length events
  pub bytes : b.payload ≡ concat events
  pub entries : b.index ≡ offsets header_size events ++ zeros spare
  pub files : b.num_files ≡ length events + spare
  pub files_fit : length events + spare < 2 ^ 16
  pub bytes_fit :
      header_size + (length events + spare) * entry_bytes + length (concat events) < 2 ^ 32

pub length-offsets : (o : ℕ) (es : List (List ℕ)) → length (offsets o es) ≡ length es
length-offsets o [] = refl
length-offsets o (e ∷ es) = ap suc (length-offsets (o + length e) es)

pub concat-append : (es fs : List (List ℕ)) → concat (es ++ fs) ≡ concat es ++ concat fs
concat-append [] fs = refl
concat-append (e ∷ es) fs =
    ap (λ t. e ++ t) (concat-append es fs) ∙ sym (append_assoc e (concat es) (concat fs))

pub offsets-append :
    (o : ℕ) (es : List (List ℕ)) (e : List ℕ)
    → offsets o (es ++ e ∷ []) ≡ offsets o es ++ (o + length (concat es)) ∷ []
offsets-append o [] e = ap (λ (t : ℕ). t ∷ []) (omega arith)
offsets-append o (f ∷ es) e = ap (◌∷◌ o) (
    offsets-append (o + length f) es e
    ∙ ap (λ (t : ℕ). offsets (o + length f) es ++ t ∷ [])
        (omega (arith, length-append f (concat es))))

-- An entry written at the place of the first zero.
pub set-append :
    (xs ys : List ℕ) (n : ℕ) (v w : ℕ) → length xs ≡ n → set (xs ++ w ∷ ys) n v ≡ xs ++ v ∷ ys
set-append [] ys zero v w h = refl
set-append [] ys (suc n) v w h = absurd (omega arith)
set-append (x ∷ xs) ys zero v w h = absurd (omega arith)
set-append (x ∷ xs) ys (suc n) v w h = ap (◌∷◌ x) (set-append xs ys n v w (omega arith))

-- A new block holds no event.
pub new_block-Holds : Holds new_block []
unfolding new_block
new_block-Holds = record {
  spare = 50;
  spare_positive = omega arith;
  count = refl;
  bytes = refl;
  entries = refl;
  files = refl;
  files_fit = omega arith;
  bytes_fit = omega arith;
}
