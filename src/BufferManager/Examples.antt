-- ===== src/BufferManager/Examples.antt =====
-- Tests of src/enclave/BufferManager.cpp, and the theorems about it on a shard with two pages: one in
-- memory, changed and without pins, and one on disk.
use credb.Prelude.{
  ℕ, ◌≡◌, ◌⊎◌, refl, some, List, [], ◌∷◌, arith, true, false, ltb, if◌then◌else◌, ◌==◌,
}
use credb.Prelude.{◌<◌, ◌-◌}
use credb.BufferManager.{
  fatal, unload_page, ok, waits, Format, Meta, Shard, check_evict, get_page, flush_page,
  discard_cache, discard_all_cache,
}
use credb.BufferManager.Contents.{IsFormat, IsSynced, Keeps, content, on_disk, flush_page-Keeps}
use credb.BufferManager.Eviction.{AreEvictable, Fewer, sizes, Left, check_evict-Evicted}
use credb.BufferManager.Pins.{Pinned, get_page-Pinned}
use credb.BufferManager.Discards.{discard_cache-content, discard_all_cache-evict_list}

-- A page is one number.
abbrev first_of : List ℕ → ℕ
first_of [] = 0
first_of (x ∷ xs) = x

abbrev numbers : Format ℕ
numbers = record {
  serialize = λ page. page ∷ [];
  load = λ p bytes. first_of bytes;
  byte_size = λ page. 40;
  meta_size = 60;
}

numbers-IsFormat : IsFormat numbers
numbers-IsFormat = record { load-serialize = λ p page. refl }

abbrev changed : Meta ℕ
changed = record { page = 11; is_dirty = true; cnt_pin = 0; size = 100 }

abbrev shard : Shard ℕ
shard = record {
  metas = (1, changed) ∷ [];
  evict_list = 1 ∷ [];
  loaded_size = 100;
  buffer_size = 100;
  disk = λ p. some (20 ∷ []);
}

shard-IsSynced : IsSynced numbers shard
shard-IsSynced p meta found clean = absurd (ground arith)

check_evict-Evicted_example :
    ((check_evict numbers 2 shard ≡ waits)
      × (80 < shard.loaded_size - sizes shard.metas shard.evict_list))
    ⊎ ((s' : Shard ℕ) × (check_evict numbers 2 shard ≡ ok s')
        × Keeps numbers shard s'
        × AreEvictable s'.metas s'.evict_list
        × Fewer numbers shard s'
        × (ltb 80 s'.loaded_size ≡ false)
        × Left shard s')
check_evict-Evicted_example =
    check_evict-Evicted numbers 2 shard numbers-IsFormat shard-IsSynced
      ((changed, refl, refl), tt, tt) (omega arith)

get_page-Pinned_example :
    (get_page numbers 2 2 shard ≡ waits)
    ⊎ ((s' : Shard ℕ) × (get_page numbers 2 2 shard ≡ ok (s', 20)) × Pinned numbers shard s' 2 20)
get_page-Pinned_example =
    get_page-Pinned numbers 2 shard 2 20 numbers-IsFormat shard-IsSynced
      ((changed, refl, refl), tt, tt) (omega arith) (omega arith) refl

flush_page-Keeps_example :
    (s' : Shard ℕ) × (flush_page numbers 1 shard ≡ ok s')
    × Keeps numbers shard s'
    × (on_disk numbers 1 (s'.disk 1) ≡ some 11)
flush_page-Keeps_example =
    flush_page-Keeps numbers 1 shard changed numbers-IsFormat shard-IsSynced refl

discard_cache-content_example :
    (s' : Shard ℕ) × (discard_cache numbers 1 shard ≡ ok s')
    × ((q : ℕ) → content numbers s' q ≡ (if 1 == q then some 20 else content numbers shard q))
discard_cache-content_example = discard_cache-content numbers 1 shard changed refl refl

discard_all_cache-evict_list_example :
    (s' : Shard ℕ) × (discard_all_cache numbers shard ≡ ok s')
    × (s'.metas ≡ [])
    × (s'.evict_list ≡ 1 ∷ [])
    × (s'.loaded_size ≡ 0)
    × (unload_page numbers 1 s' ≡ fatal)
discard_all_cache-evict_list_example =
    discard_all_cache-evict_list numbers shard 1 [] refl (refl, tt)
