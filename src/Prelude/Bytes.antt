-- ===== src/Prelude/Bytes.antt =====
-- Big-endian words, as `to_be_bytes` and `from_be_bytes` write and read them.
use Prim.Native.Nat.{ℕ, ◌+◌, ◌*◌, ◌/◌, ◌%◌, ◌^◌, ◌<◌}
use mathlib.Core.Path.{◌≡◌}
use mathlib.Core.List.{List, [], ◌∷◌}
use native.Mathlib.Omega.{arith}

abbrev pub IsByte : ℕ → Type 0
IsByte b = b < 256

abbrev pub u16_of : ℕ → ℕ → ℕ
u16_of a b = a * 256 + b

abbrev pub u32_of : ℕ → ℕ → ℕ → ℕ → ℕ
u32_of a b c d = ((a * 256 + b) * 256 + c) * 256 + d

abbrev pub u16_bytes : ℕ → List ℕ
u16_bytes n = (n / 256 % 256) ∷ (n % 256) ∷ []

abbrev pub u24_bytes : ℕ → List ℕ
u24_bytes n = (n / 65536 % 256) ∷ (n / 256 % 256) ∷ (n % 256) ∷ []

abbrev pub u32_bytes : ℕ → List ℕ
u32_bytes n = (n / 16777216 % 256) ∷ (n / 65536 % 256) ∷ (n / 256 % 256) ∷ (n % 256) ∷ []

pub u16_round : (n : ℕ) → n < 65536 → u16_of (n / 256 % 256) (n % 256) ≡ n
u16_round n h = omega arith

pub u32_round :
    (n : ℕ)
    → n < 4294967296
    → u32_of (n / 16777216 % 256) (n / 65536 % 256) (n / 256 % 256) (n % 256) ≡ n
u32_round n h = omega arith

-- The length prefix of a list that fits in it.
abbrev pub u32_prefix : ℕ → ℕ
u32_prefix n =
    u32_of (n % 2 ^ 32 / 16777216 % 256) (n % 2 ^ 32 / 65536 % 256) (n % 2 ^ 32 / 256 % 256)
      (n % 2 ^ 32 % 256)

pub u32_prefix-eq : (n : ℕ) → n < 4294967296 → u32_prefix n ≡ n
u32_prefix-eq n h = omega arith
