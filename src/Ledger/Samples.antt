-- ===== src/Ledger/Samples.antt =====
-- Documents, a codec and secondary indexes on which the theorems about src/enclave/Ledger.cpp are tried:
-- a document is a number, and an index the list of its entries.
use credb.Prelude.{
  ℕ, zero, suc, ◌+◌, ◌≡◌, refl, ap, true, Option, none, some, List, [], ◌∷◌, ◌==◌, length, drop,
}
use credb.ObjectEvent.{Event, Field, integer, text, document}
use credb.Ledger.{Calls, Name}
use credb.Ledger.Layout.{IsCodec}

-- A field is a mark and its numbers; each character of a text has a mark of its own.
abbrev encode_text : List ℕ → List ℕ → List ℕ
encode_text [] rest = 0 ∷ rest
encode_text (c ∷ cs) rest = 1 ∷ c ∷ encode_text cs rest

abbrev encode : Event ℕ → List ℕ
encode [] = []
encode (integer i ∷ e) = 0 ∷ i ∷ encode e
encode (document d ∷ e) = 1 ∷ d ∷ encode e
encode (text s ∷ e) = 2 ∷ encode_text s (encode e)

abbrev with_field : Field ℕ → Option (Event ℕ) → Option (Event ℕ)
with_field f none = none
with_field f (some e) = some (f ∷ e)

abbrev with_char : ℕ → Option (List ℕ × Event ℕ) → Option (List ℕ × Event ℕ)
with_char c none = none
with_char c (some (cs, e)) = some (c ∷ cs, e)

abbrev with_text : Option (List ℕ × Event ℕ) → Option (Event ℕ)
with_text none = none
with_text (some (cs, e)) = some (text cs ∷ e)

abbrev at_end : Option (Event ℕ) → Option (List ℕ × Event ℕ)
at_end none = none
at_end (some e) = some ([], e)

abbrev mutual
  decode : List ℕ → Option (Event ℕ)
  decode [] = some []
  decode (zero ∷ i ∷ bytes) = with_field (integer i) (decode bytes)
  decode (suc zero ∷ d ∷ bytes) = with_field (document d) (decode bytes)
  decode (suc (suc zero) ∷ bytes) = with_text (decode_text bytes)
  decode _ = none

  decode_text : List ℕ → Option (List ℕ × Event ℕ)
  decode_text (zero ∷ bytes) = at_end (decode bytes)
  decode_text (suc zero ∷ c ∷ bytes) = with_char c (decode_text bytes)
  decode_text _ = none

decode_text-encode_text :
    (s : List ℕ) (bytes : List ℕ) (e : Event ℕ)
    → decode bytes ≡ some e
    → decode_text (encode_text s bytes) ≡ some (s, e)
decode_text-encode_text [] bytes e h = ap at_end h
decode_text-encode_text (c ∷ s) bytes e h = ap (with_char c) (decode_text-encode_text s bytes e h)

decode-encode : (e : Event ℕ) → decode (encode e) ≡ some e
decode-encode [] = refl
decode-encode (integer i ∷ e) = ap (with_field (integer i)) (decode-encode e)
decode-encode (document d ∷ e) = ap (with_field (document d)) (decode-encode e)
decode-encode (text s ∷ e) = ap with_text (decode_text-encode_text s (encode e) e (decode-encode e))

abbrev pub Entries : Type 0
Entries = List (ℕ × Name)

abbrev pub numbers : Calls ℕ Entries
numbers = record {
  hash = length;
  encode = encode;
  decode = decode;
  valid = λ doc. true;
  add = λ path x doc. x + doc;
  insert = λ path x doc. x;
  view = λ doc path. none;
  compare = λ index x y. x == y;
  index_insert = λ doc key index. (doc, key) ∷ index;
  index_remove = λ doc key index. drop 1 index;
  run_policy = λ l policy context collection key path type. true;
}

pub numbers-IsCodec : IsCodec numbers
numbers-IsCodec = record { decode-encode = decode-encode }
