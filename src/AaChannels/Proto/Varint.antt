-- ===== src/AaChannels/Proto/Varint.antt =====
-- A number that was written as a varint is read back, whatever follows it.
use project_argo.Common.{
  ℕ, zero, suc, ◌+◌, ◌*◌, ◌/◌, ◌%◌, ◌^◌, ◌≤◌, ◌<◌, ◌≡◌, ap, ◌∙◌, List, ◌∷◌, ◌++◌, arith, ltb, ◌==◌,
  bit_and, bit_or, Bool-cases, lt→ltb, inl, inr, false,
}
use native.Mathlib.Nat.{mod-eq_of_lt}
use native.Mathlib.Numerals.{towards_suc}
use project_argo.Common.Bits.{bit_and_127, bit_or_128, bit_or_apart}
use project_argo.AaChannels.Proto.{var, read_var, found, shl}

pow_7 : (s : ℕ) → 2 ^ (s + 7) ≡ 128 * 2 ^ s
pow_7 s = simp towards_suc (omega arith)

div_mod : (v : ℕ) → 128 * (v / 128) + v % 128 ≡ v
div_mod v = omega arith

-- The group that is added does not meet the bits read so far.
group_added :
    (s value d : ℕ)
    → value < 2 ^ s
    → d * 2 ^ s < 2 ^ 64
    → bit_or value (shl d s) ≡ value + d * 2 ^ s
group_added s value d h k = rw (mod-eq_of_lt k) (bit_or_apart s value d h)

-- At the last shift only one bit is left.
last_group : (s v : ℕ) → s ≡ 63 → v * 2 ^ s < 2 ^ 64 → v < 2
last_group s v e h = let k : v * 2 ^ 63 < 2 ^ 64 = rw e at h in omega arith

var_more : (m v : ℕ) → ltb v 128 ≡ false → var (suc m) v ≡ bit_or (v % 256) 128 ∷ var m (v / 128)
unfolding var
var_more m v t = rw t

read_var_more :
    (n s value byte : ℕ) (rest : List ℕ)
    → (s == 63) ≡ false
    → ltb byte 128 ≡ false
    → read_var (suc n) s value (byte ∷ rest)
      ≡ read_var n (s + 7) (bit_or value (shl (bit_and byte 127) s)) rest
unfolding read_var
read_var_more n s value byte rest e f = rw (e, f)

read_var-var_from :
    (n m s value v : ℕ) (rest : List ℕ)
    → s + 7 * n ≡ 63
    → value < 2 ^ s
    → v * 2 ^ s < 2 ^ 64
    → n ≤ m
    → read_var (suc n) s value (var m v ++ rest) ≡ found (value + v * 2 ^ s, rest)
unfolding read_var var
read_var-var_from zero zero s value v rest e h k l =
    let few : v < 2 = last_group s v (omega arith) k in
    let low : bit_and (v % 256) 127 ≡ v = omega (arith, bit_and_127 (v % 256)) in
    rw low (rw (group_added s value v h k) (ground arith))
read_var-var_from zero (suc m) s value v rest e h k l =
    let few : v < 2 = last_group s v (omega arith) k in
    let low : bit_and (v % 256) 127 ≡ v = omega (arith, bit_and_127 (v % 256)) in
    rw (lt→ltb v 128 (omega arith), low) (rw (group_added s value v h k) (ground arith))
read_var-var_from (suc n) zero s value v rest e h k l = absurd (omega arith)
read_var-var_from (suc n) (suc m) s value v rest e h k l = elim (Bool-cases (ltb v 128)) [
  | inl t ↦
      let few : v < 128 = ground (arith, t) in
      let low : bit_and (v % 256) 127 ≡ v = omega (arith, bit_and_127 (v % 256)) in
      rw (t, low) (rw (group_added s value v h k) (ground arith))
  | inr t ↦
      let many : 128 ≤ v = ground (arith, t) in
      let byte = bit_or (v % 256) 128 in
      let b : byte ≡ v % 128 + 128 = omega (arith, bit_or_128 (v % 256)) in
      let low : bit_and byte 127 ≡ v % 128 = omega (arith, b, bit_and_127 byte) in
      let part : (v % 128) * 2 ^ s ≤ v * 2 ^ s = grind arith in
      let split : (v / 128) * (128 * 2 ^ s) + (v % 128) * 2 ^ s ≡ v * 2 ^ s =
        omega (arith, ap (λ (t : ℕ). t * 2 ^ s) (div_mod v)) in
      let top : (v % 128) * 2 ^ s ≤ 127 * 2 ^ s = grind arith in
      let scaled : (v / 128) * 2 ^ (s + 7) ≡ (v / 128) * (128 * 2 ^ s) =
        ap (λ (t : ℕ). (v / 128) * t) (pow_7 s) in
      let ih : read_var (suc n) (s + 7) (value + (v % 128) * 2 ^ s) (var m (v / 128) ++ rest)
          ≡ found (value + (v % 128) * 2 ^ s + (v / 128) * 2 ^ (s + 7), rest) =
        read_var-var_from n m (s + 7) (value + (v % 128) * 2 ^ s) (v / 128) rest (omega arith)
          (omega (arith, pow_7 s)) (omega arith) (omega arith) in
      let early : (s == 63) ≡ false = ground arith in
      let goes_on : ltb byte 128 ≡ false = ground (arith, b) in
      let added : bit_or value (shl (bit_and byte 127) s) ≡ value + (v % 128) * 2 ^ s =
        rw low (group_added s value (v % 128) h (omega arith)) in
      ap (λ t. read_var (suc (suc n)) s value (t ++ rest)) (var_more m v t)
      ∙ read_var_more (suc n) s value byte (var m (v / 128) ++ rest) early goes_on
      ∙ ap (λ t. read_var (suc n) (s + 7) t (var m (v / 128) ++ rest)) added
      ∙ ih
      ∙ ap (λ (x : ℕ). found (x, rest)) (omega arith)
]

-- Any 64-bit number is read back from its ten groups at most.
pub read_var-var :
    (v : ℕ) (rest : List ℕ) → v < 2 ^ 64 → read_var 10 0 0 (var 10 v ++ rest) ≡ found (v, rest)
read_var-var v rest h =
    read_var-var_from 9 10 0 0 v rest (omega arith) (omega arith) (omega arith) (omega arith)
    ∙ ap (λ (x : ℕ). found (x, rest)) (omega arith)
