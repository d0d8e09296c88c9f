-- ===== src/Base/Err.antt =====
-- The error codes of ESP-IDF's esp_err.h that the firmware compares with or returns.
use native.Mathlib.Decide.{ℕ_discrete}
use Prim.Native.Nat.{ℕ}
use mathlib.Core.Bool.{Bool, true, false}

-- `esp_err_t`. A code that no part of the program names is `other`.
pub data EspErr : Type 0 where
  ok fail no_mem invalid_arg invalid_state invalid_size not_found not_supported timeout : EspErr
  invalid_response : EspErr
  other : ℕ → EspErr

pub EspErr-discrete : Discrete EspErr
EspErr-discrete = hlevel ℕ_discrete

-- The test `err == ESP_OK`.
abbrev pub is_ok : EspErr → Bool
is_ok ok = true
is_ok _ = false
