-- ===== src/VersionNumber/Order.antt =====
-- What `operator<` of version_number.h says about two numbers, and about a number and its successors.
use credb.Prelude.{ap, ◌∙◌, ℕ, zero, suc, ◌+◌, ◌%◌, ◌<◌, ◌≡◌, ◌↔◌, ◌⊎◌, true, false, arith}
use credb.VersionNumber.{eq, VersionNumber, max_value, window_size, increment, lt}

-- A number that the counter can hold: `MAX_VALUE` itself is never reached.
abbrev pub IsValid : VersionNumber → Type 0
IsValid v = v.value < max_value

-- `k` calls of `increment`.
pub advance : ℕ → VersionNumber → VersionNumber
advance zero v = v
advance (suc k) v = increment (advance k v)

value-advance :
    (k : ℕ) (v : VersionNumber) → IsValid v → (advance k v).value ≡ (v.value + k) % max_value
unfolding advance increment
value-advance zero v h = omega arith
value-advance (suc k) v h = omega (arith, value-advance k v h)

pub advance-IsValid : (k : ℕ) (v : VersionNumber) → IsValid v → IsValid (advance k v)
advance-IsValid k v h = omega (arith, value-advance k v h)

pub advance-add : (i k : ℕ) (v : VersionNumber) → advance k (advance i v) ≡ advance (i + k) v
unfolding advance
advance-add i zero v = ap (λ n. advance n v) (omega arith)
advance-add i (suc k) v =
    let e : suc (i + k) ≡ i + suc k = omega arith in
    ap increment (advance-add i k v) ∙ ap (λ n. advance n v) e

-- A version that the counter can hold is older than each of its next 32766 successors, across the
-- wrap-around, and never newer.
pub lt-advance :
    (v : VersionNumber) (k : ℕ)
    → IsValid v
    → 0 < k
    → k < window_size
    → (lt v (advance k v) ≡ true) × (lt (advance k v) v ≡ false)
unfolding lt
lt-advance v k h p q = ground (arith, value-advance k v h)

-- Two versions that the counter can hold are never each older than the other, and neither is older
-- exactly when they are equal or lie the window size apart.
pub lt_trichotomy :
    (a b : VersionNumber)
    → IsValid a
    → IsValid b
    → (¬ ((lt a b ≡ true) × (lt b a ≡ true)))
      × ((lt a b ≡ false) × (lt b a ≡ false)
          ↔ (a.value ≡ b.value)
            ⊎ (a.value ≡ b.value + window_size)
            ⊎ (b.value ≡ a.value + window_size))
unfolding lt
lt_trichotomy a b h k = (ground arith, (ground arith, ground arith))

-- The check of a version that the counter can hold against one that lies `k` increments ahead,
-- `==`, takes the two for the same exactly when `k` is a multiple of 65535.
pub eq-advance :
    (v : VersionNumber) (k : ℕ) → IsValid v → (eq v (advance k v) ≡ true) ↔ (k % max_value ≡ 0)
unfolding eq
eq-advance v k valid =
    (λ e. ground (arith, value-advance k v valid), λ z. ground (arith, value-advance k v valid))
