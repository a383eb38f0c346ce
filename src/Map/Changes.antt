-- ===== src/Map/Changes.antt =====
-- `apply_changes` of src/enclave/AbstractMap.h, by which a downstream server follows the buckets of its
-- upstream, when two notifications arrive in either order.
use credb.Prelude.{ℕ, ◌+◌, ◌≡◌, ◌<◌, arith, ap, ◌∙◌, true, false, sym, subst}
use credb.VersionNumber.{VersionNumber, window_size, lt}
use credb.VersionNumber.Order.{IsValid, advance, advance-IsValid, advance-add, lt-advance}
use credb.Map.{Map, Bucket, apply_changes, write_bucket}

module _ {K V : Type 0} where
  -- Two changes of a bucket, `i` and `i + k` versions ahead of the version that the server has,
  -- leave the newer one in the bucket whichever is applied first, and no other bucket changes. The
  -- version is one that the counter can hold, `i` and `k` are positive, and `i + k` is below the
  -- window size.
  apply_changes-order :
      (m : Map K V) (bid : ℕ) (older newer : Bucket) (i k : ℕ)
      → IsValid (m.buckets bid).version
      → older.version ≡ advance i (m.buckets bid).version
      → newer.version ≡ advance k older.version
      → 0 < i
      → 0 < k
      → i + k < window_size
      → ((b : ℕ)
          → (apply_changes (apply_changes m bid older) bid newer).buckets b
            ≡ (write_bucket m bid newer).buckets b)
        × ((b : ℕ)
            → (apply_changes (apply_changes m bid newer) bid older).buckets b
              ≡ (write_bucket m bid newer).buckets b)
  unfolding apply_changes
  apply_changes-order m bid older newer i k valid e f zi zk small = (
    (λ b. ground (arith, older_new, newer_new, newer_late)),
    (λ b. ground (arith, older_new, newer_new, newer_late, older_early)),
  )
    where
      v : VersionNumber
      v = (m.buckets bid).version

      older_valid : IsValid older.version
      older_valid = subst IsValid (sym e) (advance-IsValid i v valid)

      both : newer.version ≡ advance (i + k) v
      both = f ∙ ap (advance k) e ∙ advance-add i k v

      older_new : lt older.version v ≡ false
      older_new = subst (λ x. lt x v ≡ false) (sym e) (lt-advance v i valid zi (omega arith)).1

      newer_new : lt newer.version v ≡ false
      newer_new =
          subst (λ x. lt x v ≡ false) (sym both) (lt-advance v (i + k) valid (omega arith) small).1

      newer_late : lt newer.version older.version ≡ false
      newer_late =
          subst (λ x. lt x older.version ≡ false) (sym f)
            (lt-advance older.version k older_valid zk (omega arith)).1

      older_early : lt older.version newer.version ≡ true
      older_early =
          subst (λ x. lt older.version x ≡ true) (sym f)
            (lt-advance older.version k older_valid zk (omega arith)).0
