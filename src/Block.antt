-- ===== src/Block.antt =====
-- src/enclave/Block.h and src/enclave/Block.inl: a block of the ledger, one buffer that holds a header,
-- an index of offsets and the events one behind the other.
pub mod Layout
pub mod Insert
pub mod Reads
mod Examples
use credb.Prelude.{
  ℕ, zero, suc, ◌+◌, ◌-◌, ◌*◌, ◌%◌, ◌^◌, Bool, true, false, not, Option, none, some, List, [], ◌∷◌,
  ◌++◌, leb, ltb, ◌==◌, if◌then◌else◌, length, get_elem?, get_or, set, take, drop, replicate,
}

pub data Error : Type 0 where
  sealed_block not_sealed out_of_bounds no_such_entry : Error

pub data Result (A : Type 0) : Type 0 where
  ok : A → Result A
  err : Error → Result A

-- `m_data`: the fields of `header_t`, the index, and the bytes behind it; and `m_file_pos`. The
-- position of `m_data` is its end between the operations.
pub record Block : Type 0 where
  pub is_sealed : Bool
  pub num_files : ℕ
  pub index : List ℕ
  pub payload : List ℕ
  pub file_pos : ℕ

-- `sizeof(header_t)`, a `bool` and an aligned `uint16_t`; `sizeof(block_entry_size_t)`.
abbrev pub header_size : ℕ
header_size = 4

abbrev pub entry_bytes : ℕ
entry_bytes = 4

-- `FILE_INCREASE`, and the size of the first index.
abbrev pub file_increase : ℕ
file_increase = 50

-- The constructor of a new block, with `init`.
unfoldable pub new_block : Block
new_block = record {
  is_sealed = false;
  num_files = file_increase;
  index = replicate file_increase 0;
  payload = [];
  file_pos = 0;
}

-- The loop of the constructor that reads a block back: the entries before the first zero offset.
unfoldable pub count_files : ℕ → List ℕ → ℕ → ℕ
count_files zero idx pos = pos
count_files (suc rounds) [] pos = pos
count_files (suc rounds) (zero ∷ idx) pos = pos
count_files (suc rounds) (suc o ∷ idx) pos = count_files rounds idx ((pos + 1) % 2 ^ 16)

-- `serialize` copies `m_data`, and the constructor takes it back.
unfoldable pub reload : Block → Block
unfolding count_files
reload b = record b { file_pos = count_files b.num_files b.index 0 }

-- `is_pending`, `num_entries`, `index_size`, and `m_data.pos()`.
unfoldable pub is_pending : Block → Bool
is_pending b = not b.is_sealed

unfoldable pub num_entries : Block → ℕ
num_entries b = (b.file_pos + 1) % 2 ^ 16

unfoldable pub index_size : Block → ℕ
index_size b = b.num_files * entry_bytes

unfoldable pub end_pos : Block → ℕ
end_pos b = header_size + length b.index * entry_bytes + length b.payload

-- A 32-bit word read from bytes, the lowest first.
unfoldable pub word_at : List ℕ → ℕ
word_at bytes =
    get_or bytes 0 0
    + 256 * get_or bytes 1 0
    + 65536 * get_or bytes 2 0
    + 16777216 * get_or bytes 3 0

-- `idx[i]`: one past the index it is the first word behind it.
unfoldable pub index_word : Block → ℕ → ℕ
unfolding word_at
index_word b i = elim (get_elem? b.index i) [ some offset ↦ offset | none ↦ word_at b.payload ]

-- The bytes of `m_data` from an offset behind the index on.
abbrev pub slice : ℕ → ℕ → List ℕ → List ℕ
slice offset size bytes = take size (drop offset bytes)

-- `get`: the bytes on which the handle is a view.
unfoldable pub get : Block → ℕ → Result (List ℕ)
unfolding index_word index_size end_pos
get b pos =
    if leb b.num_files pos
    then err out_of_bounds
    else (let idx_size = index_size b in
        let offset = index_word b pos in
        let next = index_word b (pos + 1) in
        let stop = if next == 0 then end_pos b % 2 ^ 32 else (next + idx_size) % 2 ^ 32 in
        let start = (offset + idx_size) % 2 ^ 32 in
        if offset == 0
        then err no_such_entry
        else ok
            (slice (start - header_size - idx_size) ((stop + 2 ^ 32 - start) % 2 ^ 32) b.payload))

unfoldable pub seal : Block → Result Block
seal b = if b.is_sealed then err sealed_block else ok (record b { is_sealed = true })

unfoldable pub unseal : Block → Result Block
unseal b = if b.is_sealed then ok (record b { is_sealed = false }) else err not_sealed

-- The branch of `insert` that makes the index larger.
unfoldable pub make_space : Block → Block
make_space b = record b {
  num_files = (b.num_files + file_increase) % 2 ^ 16;
  index = b.index ++ replicate file_increase 0;
}

-- The rest of `insert`; the offset is `pos - idx_size`.
unfoldable pub append_event : Block → ℕ → List ℕ → Block × ℕ
unfolding end_pos
append_event b idx_size event =
    let file_pos' = (b.file_pos + 1) % 2 ^ 16 in
    (
      record b {
        index = set b.index b.file_pos ((end_pos b - idx_size) % 2 ^ 32);
        payload = b.payload ++ event;
        file_pos = file_pos';
      },
      (file_pos' + 2 ^ 16 - 1) % 2 ^ 16,
    )

-- `insert`: the block, and the index of the event.
unfoldable pub insert : Block → List ℕ → Result (Block × ℕ)
unfolding make_space append_event num_entries index_size
insert b event =
    let idx_size = index_size b in
    if b.is_sealed
    then err sealed_block
    else if leb b.num_files (num_entries b)
    then ok (append_event (make_space b) (idx_size + file_increase * entry_bytes) event)
    else ok (append_event b idx_size event)
