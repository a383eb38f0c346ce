-- ===== src/Node.antt =====
-- src/enclave/HashMapNode.h and src/enclave/MultiMapNode.h: a page of entries, with its header.
pub mod Laws
use credb.Prelude.{
  ℕ, zero, suc, ◌+◌, ◌-◌, Bool, true, false, ◌&&◌, ◌||◌, Option, none, some, List, [], ◌∷◌, ◌++◌,
  ite, ltb, leb, if◌then◌else◌, get_elem?,
}
use credb.VersionNumber.{VersionNumber, initial, increment}

-- What the nodes take from their types: the comparison of keys and of values, the hash function, the
-- bytes that an entry occupies, and those of the node object and its header.
pub record Layout (K V : Type 0) : Type 0 where
  pub dec_key : Discrete K
  pub dec_value : Discrete V
  pub hash : K → ℕ
  pub entry_size : K → V → ℕ
  pub node_base : ℕ

-- `MAX_NODE_SIZE`.
abbrev pub max_node_size : ℕ
max_node_size = 1024

-- `INVALID_PAGE_NO`, which is `static_cast<page_no_t>(-1)` on 32 bits.
abbrev pub invalid_page_no : ℕ
invalid_page_no = 4294967295

-- `m_data`: the fields of `header_t`, then the entries.
pub record Node (K V : Type 0) : Type 0 where
  pub version : VersionNumber
  pub successor : ℕ
  pub successor_version : VersionNumber
  pub count : ℕ
  pub entries : List (K × V)

module _ {K V : Type 0} where
  -- The constructor of a new page.
  abbrev pub new_node : Node K V
  new_node = record {
    version = initial;
    successor = invalid_page_no;
    successor_version = initial;
    count = 0;
    entries = [];
  }

  unfoldable pub increment_version_no : Node K V → Node K V
  increment_version_no n = record n { version = increment n.version }

  unfoldable pub increment_successor_version : Node K V → Node K V
  increment_successor_version n = record n { successor_version = increment n.successor_version }

  unfoldable pub set_successor : ℕ → Node K V → Node K V
  set_successor succ n = record n { successor = succ }

  -- `get(pos)`; `none` is the exception.
  unfoldable pub get_at : ℕ → Node K V → Option (K × V)
  get_at pos n = get_elem? n.entries pos

  -- `MultiMapNode::clear`: the node, and the number of entries that it held.
  unfoldable pub clear_node : Node K V → Node K V × ℕ
  clear_node n = (record n { count = 0; entries = [] }, n.count)

module _ {K V : Type 0} (L : Layout K V) where
  unfoldable pub entries_size : List (K × V) → ℕ
  entries_size [] = 0
  entries_size ((k, v) ∷ es) = L.entry_size k v + entries_size es

  unfoldable pub byte_size : Node K V → ℕ
  byte_size n = L.node_base + entries_size n.entries

  -- The loop of `get(key, value_out)`: the value of the first entry with the key.
  unfoldable pub find_entry : K → List (K × V) → Option V
  find_entry key [] = none
  find_entry key ((k, v) ∷ es) = ite (L.dec_key key k) (some v) (find_entry key es)

  unfoldable pub get : K → Node K V → Option V
  get key n = find_entry key n.entries

  -- The loop of `HashMapNode::insert`: every entry with the key is overwritten, and `updated` tells
  -- whether there was one.
  unfoldable pub update_entries : K → V → List (K × V) → List (K × V)
  update_entries key value [] = []
  update_entries key value ((k, v) ∷ es) =
      ite (L.dec_key key k) (k, value) (k, v) ∷ update_entries key value es

  unfoldable pub has_key : K → List (K × V) → Bool
  has_key key [] = false
  has_key key ((k, v) ∷ es) = ite (L.dec_key key k) true (has_key key es)

  -- `HashMapNode::insert`: `false` if the key is new and the node is full.
  unfoldable pub insert : K → V → Node K V → Node K V × Bool
  insert key value n =
      let view = update_entries key value n.entries in
      if has_key key n.entries
      then (record n { entries = view; version = increment n.version }, true)
      else if ltb (byte_size (record n { entries = view })) max_node_size
      then (
        record n {
          entries = view ++ (key, value) ∷ [];
          count = n.count + 1;
          version = increment n.version;
        },
        true,
      )
      else (record n { entries = view }, false)

  unfoldable pub has_entry : K → V → List (K × V) → Bool
  has_entry key value [] = false
  has_entry key value ((k, v) ∷ es) =
      ite (L.dec_key key k) (ite (L.dec_value value v) true (has_entry key value es))
        (has_entry key value es)

  -- The loop of `MultiMapNode::remove`: the first entry that matches is cut out.
  unfoldable pub remove_entry : K → V → List (K × V) → List (K × V)
  remove_entry key value [] = []
  remove_entry key value ((k, v) ∷ es) =
      ite (L.dec_key key k) (ite (L.dec_value value v) es ((k, v) ∷ remove_entry key value es))
        ((k, v) ∷ remove_entry key value es)

  -- `MultiMapNode::remove`.
  unfoldable pub remove : K → V → Node K V → Node K V × Bool
  remove key value n =
      if has_entry key value n.entries
      then (
        record n {
          entries = remove_entry key value n.entries;
          count = n.count - 1;
          version = increment n.version;
        },
        true,
      )
      else (n, false)

  -- `MultiMapNode::insert`.
  unfoldable pub insert_multi : K → V → Node K V → Node K V × Bool
  insert_multi key value n = if leb max_node_size (byte_size n) then (n, false) else (
    record n {
      entries = n.entries ++ (key, value) ∷ [];
      count = n.count + 1;
      version = increment n.version;
    },
    true,
  )

  -- `MultiMapNode::find_union`: the values of the key, in the order in which `out` receives them.
  unfoldable pub values_of : K → List (K × V) → List V
  values_of key [] = []
  values_of key ((k, v) ∷ es) = ite (L.dec_key key k) (v ∷ values_of key es) (values_of key es)

  -- `MultiMapNode::estimate_value_count`.
  unfoldable pub estimate_value_count : K → List (K × V) → ℕ
  estimate_value_count key [] = 0
  estimate_value_count key ((k, v) ∷ es) =
      ite (L.dec_key key k) (suc (estimate_value_count key es)) (estimate_value_count key es)
