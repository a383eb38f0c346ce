-- ===== src/MultiMap/Reads.antt =====
-- What the reading operations of src/enclave/MultiMap.cpp answer on a chain that is in step.
use credb.Prelude.{
  ℕ, zero, suc, ◌+◌, ◌≡◌, ◌<◌, inl, inr, refl, List, [], ◌∷◌, ◌++◌, arith, false, length,
  length-append, sym, ◌∙◌, ap, if◌then◌else◌, ◌||◌, ◌&&◌, Bool-cases, append-nil,
}
use credb.Node.{Layout, Node, values_of, estimate_value_count, has_entry}
use credb.Map.{Map, ok, get_node, to_bucket}
use credb.Map.Chains.{Ghost, Chain}
use credb.HashMap.Reads.{
  get_node_internal_reads, get_node_internal_ends, get_successor_ends, get_successor_reads,
}
use credb.MultiMap.{
  count_loop, estimate, find_union_loop, find_union, insert_values, find_entry_loop, is_found,
  member, find, union, intersect, find_intersect,
}

module _ {K V : Type 0} (L : Layout K V) where
  -- All values stored under the key, along a chain.
  pub values_in : K → List (ℕ × Node K V) → List V
  values_in key [] = []
  values_in key ((q, n) ∷ ns) = values_of L key n.entries ++ values_in key ns

  estimate-length :
      (key : K) (es : List (K × V)) → estimate_value_count L key es ≡ length (values_of L key es)
  unfolding estimate_value_count values_of
  estimate-length key [] = refl
  estimate-length key ((k, v) ∷ es) = ground (arith, estimate-length key es)

  insert_values-append :
      (out vs ws : List V)
      → insert_values L out (vs ++ ws) ≡ insert_values L (insert_values L out vs) ws
  unfolding insert_values
  insert_values-append out [] ws = refl
  insert_values-append out (v ∷ vs) ws =
      insert_values-append (if member L v out then out else v ∷ out) vs ws

  count_loop-length :
      (fuel : ℕ) (m : Map K V) (g : Ghost) (b i q : ℕ) (n : Node K V) (ns : List (ℕ × Node K V))
      (key : K) (count : ℕ)
      → Chain m g b i n.successor n.successor_version ns
      → length ns < fuel
      → count_loop L fuel m (record { page_no = q; node = n }) key count
        ≡ ok (count + length (values_in key ((q, n) ∷ ns)))
  unfolding count_loop values_in
  count_loop-length zero m g b i q n ns key count c l = absurd (omega arith)
  count_loop-length (suc f) m g b i q n [] key count c l =
      rw (get_successor_ends m (record { page_no = q; node = n }) c.0) (
        ap ok (
          omega
            (arith, estimate-length key n.entries, length-append (values_of L key n.entries) [])))
  count_loop-length (suc f) m g b i q n ((p, n2) ∷ ns) key count c l =
      rw
        (get_successor_reads m (record { page_no = q; node = n }) n2 (ground (arith, c))
          (rw (← c.0) c.3) c.6)
        (count_loop-length f m g b (suc i) n.successor n2 ns key
            (count + estimate_value_count L key n.entries) c.7 (omega arith)
          ∙ ap ok (
              omega (
                arith,
                estimate-length key n.entries,
                length-append (values_of L key n.entries) (values_in key ((p, n2) ∷ ns)),
              )))

  member_eq : (v w : V) (out : List V) → v ≡ w → member L w out ≡ member L v out
  member_eq v w out e = rw e

  union_loop-insert_values :
      (fuel : ℕ) (m : Map K V) (g : Ghost) (b i q : ℕ) (n : Node K V) (ns : List (ℕ × Node K V))
      (key : K) (out : List V)
      → Chain m g b i n.successor n.successor_version ns
      → length ns < fuel
      → find_union_loop L fuel m (record { page_no = q; node = n }) key out
        ≡ ok (insert_values L out (values_in key ((q, n) ∷ ns)))
  unfolding find_union_loop values_in
  union_loop-insert_values zero m g b i q n ns key out c l = absurd (omega arith)
  union_loop-insert_values (suc f) m g b i q n [] key out c l =
      rw (get_successor_ends m (record { page_no = q; node = n }) c.0, append-nil)
  union_loop-insert_values (suc f) m g b i q n ((p, n2) ∷ ns) key out c l =
      rw
        (get_successor_reads m (record { page_no = q; node = n }) n2 (ground (arith, c))
          (rw (← c.0) c.3) c.6)
        (union_loop-insert_values f m g b (suc i) n.successor n2 ns key
            (insert_values L out (values_of L key n.entries)) c.7 (omega arith)
          ∙ ap ok (
              sym (
                insert_values-append out (values_of L key n.entries)
                  (values_in key ((p, n2) ∷ ns)))))

  -- The bucket of the key is a chain of the given nodes, in step.
  abbrev pub IsBucket : Map K V → Ghost → K → List (ℕ × Node K V) → Type 0
  IsBucket m g key ns =
      Chain m g (to_bucket L key) 0 (m.buckets (to_bucket L key)).page_no
        (m.buckets (to_bucket L key)).version ns

  -- On a bucket in step, with more fuel than it has pages, the number that `estimate_value_count`
  -- gives is the exact number of entries with the key.
  pub estimate-values_in :
      (fuel : ℕ) (m : Map K V) (g : Ghost) (key : K) (ns : List (ℕ × Node K V))
      → IsBucket m g key ns
      → length ns < fuel
      → estimate L fuel m key ≡ ok (length (values_in key ns))
  unfolding estimate get_node values_in
  estimate-values_in fuel m g key [] c l = rw (
      get_node_internal_ends m (m.buckets (to_bucket L key)).page_no
        (m.buckets (to_bucket L key)).version c.0)
  estimate-values_in fuel m g key ((q, n) ∷ ns) c l =
      rw
        (get_node_internal_reads m (m.buckets (to_bucket L key)).page_no
          (m.buckets (to_bucket L key)).version n false (ground (arith, c)) (rw (← c.0) c.3) c.6)
        (count_loop-length fuel m g (to_bucket L key) 1 (m.buckets (to_bucket L key)).page_no n ns
            key 0 c.7 (omega arith)
          ∙ ap ok (omega arith))

  find_union-insert_values :
      (fuel : ℕ) (m : Map K V) (g : Ghost) (key : K) (ns : List (ℕ × Node K V)) (out : List V)
      → IsBucket m g key ns
      → length ns < fuel
      → find_union L fuel m key out ≡ ok (insert_values L out (values_in key ns))
  unfolding find_union get_node values_in insert_values
  find_union-insert_values fuel m g key [] out c l = rw (
      get_node_internal_ends m (m.buckets (to_bucket L key)).page_no
        (m.buckets (to_bucket L key)).version c.0)
  find_union-insert_values fuel m g key ((q, n) ∷ ns) out c l =
      rw
        (get_node_internal_reads m (m.buckets (to_bucket L key)).page_no
          (m.buckets (to_bucket L key)).version n false (ground (arith, c)) (rw (← c.0) c.3) c.6)
        (union_loop-insert_values fuel m g (to_bucket L key) 1 (m.buckets (to_bucket L key)).page_no
          n ns key out c.7 (omega arith))

  member-insert_values :
      (v : V) (out vs : List V)
      → member L v (insert_values L out vs) ≡ (member L v out || member L v vs)
  unfolding insert_values member
  member-insert_values v out [] = ground arith
  member-insert_values v out (w ∷ vs) = ground (
    arith,
    member-insert_values v (if member L w out then out else w ∷ out) vs,
    member_eq v w out,
  )

  -- On a bucket in step, with more fuel than it has pages, `find` with `Union` ends with a set
  -- that holds what the caller's set held and every value stored under the key, and nothing else.
  pub find_union-member :
      (fuel : ℕ) (m : Map K V) (g : Ghost) (key : K) (ns : List (ℕ × Node K V)) (out : List V)
      → IsBucket m g key ns
      → length ns < fuel
      → (result : List V) × (find L fuel m key out union ≡ ok result)
        × ((v : V) → member L v result ≡ (member L v out || member L v (values_in key ns)))
  unfolding find
  find_union-member fuel m g key ns out c l = (
    insert_values L out (values_in key ns),
    find_union-insert_values fuel m g key ns out c l,
    λ v. member-insert_values v out (values_in key ns),
  )

  has_entry-member :
      (key : K) (v : V) (es : List (K × V)) → has_entry L key v es ≡ member L v (values_of L key es)
  unfolding has_entry values_of member
  has_entry-member key v [] = refl
  has_entry-member key v ((k, w) ∷ es) = ground (arith, has_entry-member key v es)

  member-append :
      (v : V) (xs ys : List V) → member L v (xs ++ ys) ≡ (member L v xs || member L v ys)
  unfolding member
  member-append v [] ys = refl
  member-append v (x ∷ xs) ys = ground (arith, member-append v xs ys)

  entry_loop-member :
      (fuel : ℕ) (m : Map K V) (g : Ghost) (b i q : ℕ) (n : Node K V) (ns : List (ℕ × Node K V))
      (key : K) (v : V)
      → Chain m g b i n.successor n.successor_version ns
      → length ns < fuel
      → find_entry_loop L fuel m (record { page_no = q; node = n }) key v
        ≡ ok (member L v (values_in key ((q, n) ∷ ns)))
  unfolding find_entry_loop values_in
  entry_loop-member zero m g b i q n ns key v c l = absurd (omega arith)
  entry_loop-member (suc f) m g b i q n [] key v c l =
      elim (Bool-cases (has_entry L key v n.entries)) [
        | inl e ↦
            rw (e, find_entry_loop, append-nil, ← has_entry-member key v n.entries) (ap ok (sym e))
        | inr e ↦
            rw (e, find_entry_loop, append-nil, ← has_entry-member key v n.entries)
              (rw (get_successor_ends m (record { page_no = q; node = n }) c.0) (ap ok (sym e)))
      ]
  entry_loop-member (suc f) m g b i q n ((p, n2) ∷ ns) key v c l =
      elim (Bool-cases (has_entry L key v n.entries)) [
        | inl e ↦ rw (e, find_entry_loop, member-append, ← has_entry-member key v n.entries, e)
        | inr e ↦
            rw (e, find_entry_loop, member-append, ← has_entry-member key v n.entries, e)
              (rw
                (get_successor_reads m (record { page_no = q; node = n }) n2 (ground (arith, c))
                  (rw (← c.0) c.3) c.6)
                (entry_loop-member f m g b (suc i) n.successor n2 ns key v c.7 (omega arith)))
      ]

  is_found-member :
      (fuel : ℕ) (m : Map K V) (g : Ghost) (key : K) (ns : List (ℕ × Node K V)) (v : V)
      → IsBucket m g key ns
      → length ns < fuel
      → is_found L fuel m key v ≡ ok (member L v (values_in key ns))
  unfolding is_found get_node values_in member
  is_found-member fuel m g key [] v c l = rw (
      get_node_internal_ends m (m.buckets (to_bucket L key)).page_no
        (m.buckets (to_bucket L key)).version c.0)
  is_found-member fuel m g key ((q, n) ∷ ns) v c l =
      rw
        (get_node_internal_reads m (m.buckets (to_bucket L key)).page_no
          (m.buckets (to_bucket L key)).version n false (ground (arith, c)) (rw (← c.0) c.3) c.6)
        (entry_loop-member fuel m g (to_bucket L key) 1 (m.buckets (to_bucket L key)).page_no n ns
          key v c.7 (omega arith))

  -- The elements of a set that are values of the key.
  unfoldable pub keep_values : List V → List V → List V
  keep_values vs [] = []
  keep_values vs (v ∷ out) = if member L v vs then v ∷ keep_values vs out else keep_values vs out

  intersect-keep_values :
      (fuel : ℕ) (m : Map K V) (g : Ghost) (key : K) (ns : List (ℕ × Node K V)) (out : List V)
      → IsBucket m g key ns
      → length ns < fuel
      → find_intersect L fuel m key out ≡ ok (keep_values (values_in key ns) out)
  unfolding find_intersect keep_values
  intersect-keep_values fuel m g key ns [] c l = refl
  intersect-keep_values fuel m g key ns (v ∷ out) c l =
      rw (is_found-member fuel m g key ns v c l, intersect-keep_values fuel m g key ns out c l)

  pub member-keep_values :
      (v : V) (vs out : List V)
      → member L v (keep_values vs out) ≡ (member L v out && member L v vs)
  unfolding keep_values member
  member-keep_values v vs [] = refl
  member-keep_values v vs (w ∷ out) = ground (arith, member-keep_values v vs out, member_eq v w vs)

  -- On a bucket in step, with more fuel than it has pages, `find` with `Intersect` ends with the
  -- set of the elements that the caller's set held and that are stored under the key.
  pub find_intersect-member :
      (fuel : ℕ) (m : Map K V) (g : Ghost) (key : K) (ns : List (ℕ × Node K V)) (out : List V)
      → IsBucket m g key ns
      → length ns < fuel
      → (result : List V) × (find L fuel m key out intersect ≡ ok result)
        × ((v : V) → member L v result ≡ (member L v out && member L v (values_in key ns)))
  unfolding find
  find_intersect-member fuel m g key ns out c l = (
    keep_values (values_in key ns) out,
    intersect-keep_values fuel m g key ns out c l,
    λ v. member-keep_values v (values_in key ns) out,
  )
