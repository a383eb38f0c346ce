-- ===== src/VersionNumber.antt =====
-- src/enclave/version_number.h: `version_number`, a counter that may wrap around.
pub mod Order
use credb.Prelude.{ℕ, ◌+◌, ◌-◌, ◌%◌, ◌<◌, Bool, false, ltb, ◌==◌, if◌then◌else◌}

-- `m_value`, of type `uint16_t`.
pub record VersionNumber : Type 0 where
  pub value : ℕ

-- `MAX_VALUE`, which is `UINT_LEAST16_MAX`.
abbrev pub max_value : ℕ
max_value = 65535

-- `WINDOW_SIZE`, which is `MAX_VALUE / 2`.
abbrev pub window_size : ℕ
window_size = 32767

-- `version_number(0)`.
abbrev pub initial : VersionNumber
initial = record { value = 0 }

unfoldable pub increment : VersionNumber → VersionNumber
increment v = record { value = (v.value + 1) % max_value }

unfoldable pub eq : VersionNumber → VersionNumber → Bool
eq first second = first.value == second.value

-- `operator<`.
unfoldable pub lt : VersionNumber → VersionNumber → Bool
unfolding eq
lt first second =
    if eq first second
    then false
    else if ltb first.value second.value
    then ltb (second.value - first.value) window_size
    else ltb window_size (first.value - second.value)
