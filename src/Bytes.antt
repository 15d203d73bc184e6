-- ===== src/Bytes.antt =====
-- The encodings of Go's standard library that the gateway uses, on texts of bytes.
pub mod Base64
pub mod Base32
pub mod Hex
use log_monitor_tenex.Prelude.{ℕ, Bool, true, Text, ◌≡◌, ltb, all}

-- Every character is a byte.
abbrev pub is_byte : ℕ → Bool
is_byte b = ltb b 256

abbrev pub IsBytes : Text → Type 0
IsBytes s = all is_byte s ≡ true
