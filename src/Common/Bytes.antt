-- ===== src/Common/Bytes.antt =====
-- Bytes as numbers below 256, and the big- and little-endian words of Rust's `to_be_bytes`,
-- `from_be_bytes`, `to_le_bytes` and `from_le_bytes`.
use Prim.Native.Nat.{ℕ, ◌+◌, ◌*◌, ◌/◌, ◌%◌, ◌<◌}
use mathlib.Core.Path.{◌≡◌}
use mathlib.Core.List.{List, [], ◌∷◌}
use native.Mathlib.Omega.{arith}
use project_argo.Common.Lists.{get_or, All}

abbrev pub IsByte : ℕ → Type 0
IsByte b = b < 256

abbrev pub AreBytes : List ℕ → Type 0
AreBytes bs = All IsByte bs

-- `bytes[i]`, read only where the code has checked that `i` is in range.
abbrev pub byte_at : List ℕ → ℕ → ℕ
byte_at bs i = get_or bs i 0

abbrev pub be16 : ℕ → ℕ → ℕ
be16 hi lo = hi * 256 + lo

abbrev pub be16_bytes : ℕ → List ℕ
be16_bytes v = (v / 256 % 256) ∷ (v % 256) ∷ []

abbrev pub be32 : ℕ → ℕ → ℕ → ℕ → ℕ
be32 a b c d = ((a * 256 + b) * 256 + c) * 256 + d

abbrev pub be32_bytes : ℕ → List ℕ
be32_bytes v = (v / 16777216 % 256) ∷ (v / 65536 % 256) ∷ (v / 256 % 256) ∷ (v % 256) ∷ []

abbrev pub le16 : ℕ → ℕ → ℕ
le16 lo hi = hi * 256 + lo

abbrev pub le16_bytes : ℕ → List ℕ
le16_bytes v = (v % 256) ∷ (v / 256 % 256) ∷ []

pub be16-be16_bytes : (v : ℕ) → v < 65536 → be16 (v / 256 % 256) (v % 256) ≡ v
be16-be16_bytes v h = omega arith

pub be32-be32_bytes :
    (v : ℕ)
    → v < 4294967296
    → be32 (v / 16777216 % 256) (v / 65536 % 256) (v / 256 % 256) (v % 256) ≡ v
be32-be32_bytes v h = omega arith

pub le16-le16_bytes : (v : ℕ) → v < 65536 → le16 (v % 256) (v / 256 % 256) ≡ v
le16-le16_bytes v h = omega arith
