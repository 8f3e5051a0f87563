-- ===== src/CarPlay/Defs.antt =====
-- native/carplay/src/protocol/mod.rs, `Error`, and `Result` over it.
use mathlib.Core.Path.{◌≡◌, refl}

pub data Error : Type 0 where
  bounds malformed bad_checksum unsupported state sequence timeout rejected : Error

pub data Result {ℓ} (A : Type ℓ) : Type ℓ where
  err : Error → Result A
  ok : A → Result A

infixl 5 ◌>>=◌ ◌>>◌
abbrev pub ◌>>=◌ {ℓ μ} : {A : Type ℓ} → {B : Type μ} → Result A → (A → Result B) → Result B
err reason >>= next = err reason
ok answer >>= next = next answer

abbrev pub ◌>>◌ {μ} : {B : Type μ} → Result (Unit {0}) → Result B → Result B
err reason >> rest = err reason
ok t >> rest = rest

-- The parts of a chain that succeeds.
pub bind-ok {ℓ μ} :
    {A : Type ℓ} {B : Type μ} (m : Result A) (next : A → Result B) (b : B)
    → (m >>= next) ≡ ok b
    → (a : A) × (m ≡ ok a) × (next a ≡ ok b)
bind-ok (ok a) next b e = (a, refl, e)
bind-ok (err reason) next b e = cc
