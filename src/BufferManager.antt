-- ===== src/BufferManager.antt =====
-- src/enclave/BufferManager.h, src/enclave/BufferManager.inl, src/enclave/BufferManager.cpp and
-- src/enclave/Page.h: one shard of the buffer manager, which keeps pages in memory, counts who uses
-- them, and writes them to disk before it drops them. A call is one step: the locks are left out.
pub mod Contents
pub mod Eviction
pub mod Pins
pub mod Discards
mod Examples
use credb.Prelude.{
  ℕ, zero, suc, ◌+◌, ◌-◌, ◌*◌, ◌/◌, ◌≡◌, Bool, true, false, ◌||◌, not, Option, none, some, List, [],
  ◌∷◌, ◌++◌, ltb, ◌==◌, if◌then◌else◌, lookup, insert, erase,
}
use credb.Node.{invalid_page_no}

-- How a call ends: with a value, by `log_fatal` or `abort`, or waiting for a page to be unpinned.
pub data Result (A : Type 0) : Type 0 where
  ok : A → Result A
  fatal waits no_fuel : Result A

infixl 5 ◌>>=◌
abbrev pub ◌>>=◌ : {A B : Type 0} → Result A → (A → Result B) → Result B
ok a >>= f = f a
fatal >>= f = fatal
waits >>= f = waits
no_fuel >>= f = no_fuel

-- What the pages provide: `serialize`, the constructor that reads a page back, `byte_size`, and
-- `sizeof(internal_page_meta_t)`.
pub record Format (P : Type 0) : Type 0 where
  pub serialize : P → List ℕ
  pub load : ℕ → List ℕ → P
  pub byte_size : P → ℕ
  pub meta_size : ℕ

-- `internal_page_meta_t`. Its iterator into the list of evictable pages is the end of the list exactly
-- when the page is not in it.
pub record Meta (P : Type 0) : Type 0 where
  pub page : P
  pub is_dirty : Bool
  pub cnt_pin : ℕ
  pub size : ℕ

-- `shard_t`, and the pages on disk: `m_metas`, `m_evict_list` with its back first, `m_loaded_size` and
-- `m_buffer_size`.
pub record Shard (P : Type 0) : Type 0 where
  pub metas : List (ℕ × Meta P)
  pub evict_list : List ℕ
  pub loaded_size : ℕ
  pub buffer_size : ℕ
  pub disk : ℕ → Option (List ℕ)

abbrev pub contains : ℕ → List ℕ → Bool
contains p [] = false
contains p (q ∷ qs) = p == q || contains p qs

abbrev pub unlist : ℕ → List ℕ → List ℕ
unlist p [] = []
unlist p (q ∷ qs) = if q == p then qs else q ∷ unlist p qs

abbrev pub update : {A : Type 0} → (ℕ → A) → ℕ → A → ℕ → A
update f i a j = if j == i then a else f j

module _ {P : Type 0} (F : Format P) where
  -- The constructor of a meta, with `size` of the page.
  abbrev pub new_meta : P → Meta P
  new_meta page = record {
    page = page;
    is_dirty = false;
    cnt_pin = 0;
    size = F.meta_size + F.byte_size page;
  }

  -- `pin_page`.
  unfoldable pub pin_page : ℕ → Meta P → Shard P → Shard P
  pin_page p meta s = record s {
    metas = insert p (record meta { cnt_pin = meta.cnt_pin + 1 }) s.metas;
    evict_list = if meta.cnt_pin == 0 then unlist p s.evict_list else s.evict_list;
  }

  -- `unpin_page`.
  unfoldable pub unpin_page : ℕ → Shard P → Result (Shard P)
  unpin_page p s = elim (lookup p s.metas) [
    | none ↦ fatal
    | some meta ↦
        if meta.cnt_pin == 0
        then fatal
        else ok (record s {
          metas = insert p (record meta { cnt_pin = meta.cnt_pin - 1 }) s.metas;
          evict_list =
              if meta.cnt_pin == 1
              then (if contains p s.evict_list then s.evict_list else s.evict_list ++ p ∷ [])
              else s.evict_list;
        })
  ]

  -- `mark_page_dirty`, after the page was changed to `page` in memory.
  unfoldable pub mark_page_dirty : ℕ → P → Shard P → Result (Shard P)
  mark_page_dirty p page s = elim (lookup p s.metas) [
    | none ↦ fatal
    | some meta ↦
        let size' = F.meta_size + F.byte_size page in
        ok (record s {
          metas = insert p (record meta { page = page; is_dirty = true; size = size' }) s.metas;
          loaded_size = s.loaded_size + size' - meta.size;
        })
  ]

  -- `flush_page_internal`: what it leaves on the disk.
  unfoldable pub flushed : ℕ → Meta P → (ℕ → Option (List ℕ)) → ℕ → Option (List ℕ)
  flushed p meta disk = if meta.is_dirty then update disk p (some (F.serialize meta.page)) else disk

  -- `flush_page`.
  unfoldable pub flush_page : ℕ → Shard P → Result (Shard P)
  unfolding flushed
  flush_page p s = elim (lookup p s.metas) [
    | none ↦ fatal
    | some meta ↦ ok (record s {
      metas = insert p (record meta { is_dirty = false }) s.metas;
      disk = flushed p meta s.disk;
    })
  ]

  -- `unload_page`.
  unfoldable pub unload_page : ℕ → Shard P → Result (Shard P)
  unfolding flushed
  unload_page p s = elim (lookup p s.metas) [
    | none ↦ fatal
    | some meta ↦
        if meta.cnt_pin == 0
        then ok (record s {
          metas = erase p s.metas;
          loaded_size = s.loaded_size - meta.size;
          disk = flushed p meta s.disk;
        })
        else fatal
  ]

  -- The loop of `check_evict`; an empty list makes it wait.
  unfoldable pub evict_loop : ℕ → ℕ → Shard P → Result (Shard P)
  unfolding unload_page
  evict_loop zero expected s = no_fuel
  evict_loop (suc fuel) expected s =
      if ltb expected s.loaded_size
      then (elim s.evict_list [
        | [] ↦ waits
        | q ∷ qs ↦
            unload_page q (record s { evict_list = qs }) >>= λ s'. evict_loop fuel expected s'
      ])
      else ok s

  -- `check_evict`: down to four fifths of the buffer's size.
  unfoldable pub check_evict : ℕ → Shard P → Result (Shard P)
  unfolding evict_loop
  check_evict fuel s =
      if ltb s.loaded_size s.buffer_size then ok s else evict_loop fuel (s.buffer_size * 4 / 5) s

  -- `get_page_internal`, by `get_page`: the shard, and the page of the handle.
  unfoldable pub get_page : ℕ → ℕ → Shard P → Result (Shard P × P)
  unfolding pin_page check_evict
  get_page fuel p s = if p == invalid_page_no then fatal else (elim (lookup p s.metas) [
    | some meta ↦ ok (pin_page p meta s, meta.page)
    | none ↦ check_evict fuel s >>= λ s1. elim (s1.disk p) [
      | none ↦ fatal
      | some bytes ↦
          let meta = new_meta (F.load p bytes) in
          ok (
            pin_page p meta (record s1 {
              metas = insert p meta s1.metas;
              loaded_size = s1.loaded_size + meta.size;
            }),
            meta.page,
          )
    ]
  ])

  -- `new_page`.
  unfoldable pub new_page : ℕ → ℕ → P → Shard P → Result (Shard P)
  unfolding pin_page check_evict
  new_page fuel p page s = check_evict fuel s >>= λ s1.
      let meta = record (new_meta page) { is_dirty = true } in
      ok (
        pin_page p meta
          (record s1 { metas = insert p meta s1.metas; loaded_size = s1.loaded_size + meta.size }))

  -- The loop of `clear_cache` over the pages: those without pins are unloaded.
  unfoldable pub clear_loop : List ℕ → Shard P → Result (Shard P)
  unfolding unload_page
  clear_loop [] s = ok s
  clear_loop (p ∷ ps) s = elim (lookup p s.metas) [
    | none ↦ clear_loop ps s
    | some meta ↦
        if meta.cnt_pin == 0
        then (unload_page p (record s { evict_list = unlist p s.evict_list }) >>= λ s'.
            clear_loop ps s')
        else clear_loop ps s
  ]

  abbrev pub pages_of : List (ℕ × Meta P) → List ℕ
  pages_of [] = []
  pages_of ((p, meta) ∷ metas) = p ∷ pages_of metas

  -- `clear_cache`.
  unfoldable pub clear_cache : Shard P → Result (Shard P)
  unfolding clear_loop
  clear_cache s = clear_loop (pages_of s.metas) s

  -- `discard_cache` of a page.
  unfoldable pub discard_cache : ℕ → Shard P → Result (Shard P)
  discard_cache p s = elim (lookup p s.metas) [
    | none ↦ ok s
    | some meta ↦
        if meta.cnt_pin == 0
        then ok (record s {
          metas = erase p s.metas;
          evict_list = unlist p s.evict_list;
          loaded_size = s.loaded_size - meta.size;
        })
        else fatal
  ]

  -- The loop of `discard_all_cache` from the first meta on: what is left of the table is what is to
  -- come. The list of evictable pages is no part of it.
  unfoldable pub discard_loop : List (ℕ × Meta P) → Shard P → Result (Shard P)
  discard_loop [] s = ok s
  discard_loop ((p, meta) ∷ metas) s =
      if meta.cnt_pin == 0
      then discard_loop metas (record s { metas = metas; loaded_size = s.loaded_size - meta.size })
      else fatal

  -- `discard_all_cache`.
  unfoldable pub discard_all_cache : Shard P → Result (Shard P)
  unfolding discard_loop
  discard_all_cache s = discard_loop s.metas s
