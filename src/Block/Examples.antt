-- ===== src/Block/Examples.antt =====
-- Tests of src/enclave/Block.inl, and the theorems about it at concrete blocks.
use credb.Prelude.{ℕ, ◌≡◌, refl, List, [], ◌∷◌, arith}
use credb.Block.{Block, ok, new_block, insert, get, reload}
use credb.Block.Layout.{Holds}
use credb.Block.Insert.{HasRoom, insert-Holds}
use credb.Block.Reads.{get-Holds, reload-Holds}

abbrev first : List ℕ
first = 11 ∷ 12 ∷ 13 ∷ []

abbrev second : List ℕ
second = 21 ∷ 22 ∷ []

abbrev no_events : Holds new_block []
unfolding new_block
no_events = record {
  spare = 50;
  spare_positive = omega arith;
  count = refl;
  bytes = refl;
  entries = refl;
  files = refl;
  files_fit = omega arith;
  bytes_fit = omega arith;
}

room : HasRoom [] no_events.spare first
unfolding no_events
room = record { files = omega arith; bytes = omega arith }

abbrev with_first : (b : Block) × (insert new_block first ≡ ok (b, 0)) × Holds b (first ∷ [])
unfolding new_block no_events
with_first = insert-Holds new_block [] first no_events refl room

insert-Holds_example : (b : Block) × (insert new_block first ≡ ok (b, 0)) × Holds b (first ∷ [])
unfolding new_block no_events
insert-Holds_example = insert-Holds new_block [] first no_events refl room

get-Holds_example : get with_first.0 0 ≡ ok first
get-Holds_example = get-Holds with_first.0 (first ∷ []) 0 first with_first.2 refl

reload-Holds_example : reload with_first.0 ≡ with_first.0
reload-Holds_example = reload-Holds with_first.0 (first ∷ []) with_first.2
