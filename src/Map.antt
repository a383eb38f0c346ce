-- ===== src/Map.antt =====
-- src/enclave/AbstractMap.h: the buckets of a map, each a chain of pages, with a version number for
-- each page kept where the page is referred to.
pub mod Chains
pub mod Changes
pub mod Samples
use credb.Prelude.{
  ℕ, zero, suc, ◌+◌, ◌-◌, ◌%◌, ◌^◌, ◌≡◌, Bool, true, false, ◌&&◌, ◌||◌, not, Option, none, some,
  List, [], ◌∷◌, ltb, ◌==◌, if◌then◌else◌,
}
use credb.VersionNumber
use credb.VersionNumber.{VersionNumber, initial, increment, lt}
use credb.Node.{
  Layout, Node, new_node, invalid_page_no, increment_version_no, increment_successor_version,
  set_successor,
}

pub data Error : Type 0 where
  staleness_detected invalid_state no_fuel : Error

pub data Result (A : Type 0) : Type 0 where
  ok : A → Result A
  err : Error → Result A

infixl 5 ◌>>=◌
abbrev pub ◌>>=◌ : {A B : Type 0} → Result A → (A → Result B) → Result B
ok a >>= f = f a
err e >>= f = err e

-- `NUM_BUCKETS`, `NUM_SHARDS`.
abbrev pub num_buckets : ℕ
num_buckets = 8192

abbrev pub num_shards : ℕ
num_shards = 64

-- `bucket_t`.
pub record Bucket : Type 0 where
  pub page_no : ℕ
  pub version : VersionNumber

-- A map and the pages of its buffer manager: `m_buckets`, `m_size`, the next page number of the
-- buffer, and what the buffer holds, in memory or on disk.
pub record Map (K V : Type 0) : Type 0 where
  pub pages : ℕ → Option (Node K V)
  pub next_page : ℕ
  pub buckets : ℕ → Bucket
  pub size : ℕ

-- A valid `PageHandle`: the page and what it holds.
pub record Handle (K V : Type 0) : Type 0 where
  pub page_no : ℕ
  pub node : Node K V

abbrev pub update : {A : Type 0} → (ℕ → A) → ℕ → A → ℕ → A
update f i a j = if j == i then a else f j

module _ {K V : Type 0} where
  -- The constructor, over an empty buffer.
  unfoldable pub new_map : Map K V
  new_map = record {
    pages = λ p. none;
    next_page = 1;
    buckets = λ b. record { page_no = invalid_page_no; version = initial };
    size = 0;
  }

  abbrev pub write_page : Map K V → ℕ → Node K V → Map K V
  write_page m p n = record m { pages = update m.pages p (some n) }

  abbrev pub write_bucket : Map K V → ℕ → Bucket → Map K V
  write_bucket m b v = record m { buckets = update m.buckets b v }

  -- `m_buffer.new_page`.
  unfoldable pub new_page : Map K V → Map K V × Handle K V
  new_page m = (
    record (write_page m m.next_page new_node) { next_page = (m.next_page + 1) % 2 ^ 32 },
    record { page_no = m.next_page; node = new_node },
  )

  -- The branch of `get_node_internal` that reads a page of a buffer which is not remote.
  unfoldable pub read_page : Map K V → ℕ → VersionNumber → Result (Handle K V)
  unfolding VersionNumber.eq
  read_page m page_no expected_version = elim (m.pages page_no) [
    | none ↦ err invalid_state
    | some node ↦
        if VersionNumber.eq node.version expected_version
        then ok (record { page_no = page_no; node = node })
        else err staleness_detected
  ]

  -- `get_node_internal`; the `none` in a result is the invalid handle.
  unfoldable pub get_node_internal :
      Map K V → ℕ → VersionNumber → Bool → Result (Map K V × Option (Handle K V))
  unfolding new_page read_page
  get_node_internal m page_no expected_version create =
      if page_no == invalid_page_no
      then (if create then (let (m', node) = new_page m in ok (m', some node)) else ok (m, none))
      else (read_page m page_no expected_version >>= λ node. ok (m, some node))

  -- `get_node`.
  unfoldable pub get_node : Map K V → ℕ → Bool → Bool → Result (Map K V × Option (Handle K V))
  unfolding get_node_internal
  get_node m bid create modify =
      let bucket = m.buckets bid in
      let will_modify = create || (modify && not (bucket.page_no == invalid_page_no)) in
      get_node_internal m bucket.page_no bucket.version create >>= λ r.
      if will_modify
      then (elim r.1 [
        | none ↦ err invalid_state
        | some node ↦ ok (
          write_bucket r.0 bid
              (record { page_no = node.page_no; version = increment bucket.version }),
          some node,
        )
      ])
      else ok r

  -- `get_successor`.
  unfoldable pub get_successor :
      Map K V → Handle K V → Bool → Bool → Result (Map K V × Option (Handle K V))
  unfolding get_node_internal increment_version_no increment_successor_version set_successor
  get_successor m prev create modify =
      let succ = prev.node.successor in
      let will_modify = create || (modify && not (succ == invalid_page_no)) in
      let node1 = if will_modify then increment_version_no prev.node else prev.node in
      let m1 = if will_modify then write_page m prev.page_no node1 else m in
      get_node_internal m1 succ node1.successor_version create >>= λ r.
      if will_modify
      then (elim r.1 [
        | none ↦ err invalid_state
        | some node ↦ ok (
          write_page r.0 prev.page_no
              (increment_successor_version (set_successor node.page_no node1)),
          some node,
        )
      ])
      else ok r

  -- `to_bucket`; `static_cast<bucketid_t>` keeps a number below `NUM_BUCKETS` as it is.
  unfoldable pub to_bucket : Layout K V → K → ℕ
  to_bucket L key = L.hash key % num_buckets

  -- `apply_changes`: an update that is older than the bucket is ignored.
  unfoldable pub apply_changes : Map K V → ℕ → Bucket → Map K V
  apply_changes m bid new_val =
      if lt new_val.version (m.buckets bid).version then m else write_bucket m bid new_val
