-- ===== src/Prelude/Word.antt =====
-- Bounds of the unsigned machine integers.
use Prim.Native.Nat.{ℕ, ◌^◌, ◌<◌}

abbrev pub IsByte : ℕ → Type 0
IsByte n = n < 256

abbrev pub IsU16 : ℕ → Type 0
IsU16 n = n < 2 ^ 16

abbrev pub IsU64 : ℕ → Type 0
IsU64 n = n < 2 ^ 64

abbrev pub IsU128 : ℕ → Type 0
IsU128 n = n < 2 ^ 128
