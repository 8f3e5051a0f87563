-- ===== src/AaChannels/Proto/RoundTrip.antt =====
-- What `Proto` writes, `numbers` reads.
use project_argo.Common.{
  ℕ, zero, suc, ◌+◌, ◌*◌, ◌/◌, ◌%◌, ◌^◌, ◌≤◌, ◌<◌, ◌≡◌, refl, sym, ap, ◌∙◌, List, [], ◌∷◌, ◌++◌,
  append-nil, append_assoc, arith, ltb, bit_or, length, length-append, drop-length, All, Bool-cases,
  inl, inr,
}
use project_argo.Common.Bits.{bit_or_2}
use project_argo.AaChannels.Proto.{
  Field, numeric, bytewise, write, write_all, build, var, number, bytes, found, ◌>>=◌, Fields,
  insert, field_value, one_field, numbers_loop, numbers,
}
use project_argo.AaChannels.Proto.Varint.{read_var-var}

-- A field number of a protobuf message, and a value of 64 bits.
abbrev pub IsField : Field → Type 0
IsField (numeric f v) = (0 < f) × (f ≤ 0x1fffffff) × (v < 2 ^ 64)
IsField (bytewise f b) = (0 < f) × (f ≤ 0x1fffffff) × (length b < 2 ^ 64)

-- The numeric fields, the newest first.
unfoldable pub numeric_fields : Fields → List Field → Fields
numeric_fields m [] = m
numeric_fields m (numeric f v ∷ fs) = numeric_fields (insert f v m) fs
numeric_fields m (bytewise f b ∷ fs) = numeric_fields m fs

abbrev pub field_bytes : Field → List ℕ
field_bytes (numeric f v) = var 10 (f * 8) ++ var 10 v
field_bytes (bytewise f b) = var 10 (bit_or (f * 8) 2) ++ (var 10 (length b) ++ b)

abbrev pub all_bytes : List Field → List ℕ
all_bytes [] = []
all_bytes (f ∷ fs) = field_bytes f ++ all_bytes fs

write-field_bytes : (proto : List ℕ) (f : Field) → write proto f ≡ proto ++ field_bytes f
unfolding write number bytes
write-field_bytes proto (numeric f v) = append_assoc proto (var 10 (f * 8)) (var 10 v)
write-field_bytes proto (bytewise f b) = simp append_assoc

pub write_all-all_bytes :
    (fs : List Field) (proto : List ℕ) → write_all proto fs ≡ proto ++ all_bytes fs
unfolding write_all
write_all-all_bytes [] proto = sym (append-nil proto)
write_all-all_bytes (f ∷ fs) proto =
    write_all-all_bytes fs (write proto f)
    ∙ ap (λ t. t ++ all_bytes fs) (write-field_bytes proto f)
    ∙ append_assoc proto (field_bytes f) (all_bytes fs)

abbrev taken : Field → Fields → Fields
taken (numeric f v) m = insert f v m
taken (bytewise f b) m = m

one_field-field_bytes :
    (f : Field) (m : Fields) (rest : List ℕ)
    → IsField f
    → one_field m (field_bytes f ++ rest) ≡ found (taken f m, rest)
unfolding one_field field_value
one_field-field_bytes (numeric f v) m rest i =
    rw
      (
        append_assoc (var 10 (f * 8)) (var 10 v) rest,
        read_var-var (f * 8) (var 10 v ++ rest) (omega arith),
      )
      (ground (arith, read_var-var v rest))
one_field-field_bytes (bytewise f b) m rest i =
    rw
      (
        bit_or_2 f,
        append_assoc (var 10 (f * 8 + 2)) (var 10 (length b) ++ b) rest,
        read_var-var (f * 8 + 2) ((var 10 (length b) ++ b) ++ rest) (omega arith),
        append_assoc (var 10 (length b)) b rest,
      )
      (ground (
        arith,
        read_var-var (length b) (b ++ rest),
        length-append b rest,
        drop-length b rest (length b),
      ))

var_cons : (v : ℕ) → (b : ℕ) × (bs : List ℕ) × (var 10 v ≡ b ∷ bs)
unfolding var
var_cons v = elim (Bool-cases (ltb v 128)) [
  | inl t ↦ (v % 256, [], rw t)
  | inr t ↦ (bit_or (v % 256) 128, var 9 (v / 128), rw t)
]

pub field_bytes_cons : (f : Field) → (b : ℕ) × (bs : List ℕ) × (field_bytes f ≡ b ∷ bs)
field_bytes_cons (numeric f v) = let (b, bs, e) = var_cons (f * 8) in (b, bs ++ var 10 v, rw e refl)
field_bytes_cons (bytewise f c) =
    let (b, bs, e) = var_cons (bit_or (f * 8) 2) in (b, bs ++ (var 10 (length c) ++ c), rw e refl)

numbers_loop_field :
    (rounds : ℕ) (f : Field) (m : Fields) (rest : List ℕ)
    → IsField f
    → numbers_loop (suc rounds) m (field_bytes f ++ rest) ≡ numbers_loop rounds (taken f m) rest
unfolding numbers_loop
numbers_loop_field rounds f m rest i =
    let (b, bs, e) = field_bytes_cons f in
    ap (λ t. numbers_loop (suc rounds) m (t ++ rest)) e
    ∙ ap (λ t. one_field m (t ++ rest) >>= λ r. numbers_loop rounds r.0 r.1) (sym e)
    ∙ ap (λ t. t >>= λ r. numbers_loop rounds r.0 r.1) (one_field-field_bytes f m rest i)

numbers_loop-all_bytes :
    (rounds : ℕ) (fs : List Field) (m : Fields)
    → All IsField fs
    → length fs ≤ rounds
    → numbers_loop rounds m (all_bytes fs) ≡ found (numeric_fields m fs)
unfolding numeric_fields
numbers_loop-all_bytes rounds [] m i h = unfold numbers_loop in refl
numbers_loop-all_bytes zero (f ∷ fs) m i h = absurd (omega arith)
numbers_loop-all_bytes (suc rounds) (numeric f v ∷ fs) m i h =
    numbers_loop_field rounds (numeric f v) m (all_bytes fs) i.0
    ∙ numbers_loop-all_bytes rounds fs (insert f v m) i.1 (omega arith)
numbers_loop-all_bytes (suc rounds) (bytewise f b ∷ fs) m i h =
    numbers_loop_field rounds (bytewise f b) m (all_bytes fs) i.0
    ∙ numbers_loop-all_bytes rounds fs m i.1 (omega arith)

-- At most 1024 fields, with field numbers of protobuf and values of 64 bits, written one after
-- another in any order and with repetitions: `numbers` gives the numeric ones, of a repeated
-- field the last, and passes over the others.
pub numbers-build :
    (fs : List Field)
    → All IsField fs
    → length fs ≤ 1024
    → numbers (build fs) ≡ found (numeric_fields [] fs)
unfolding numbers build
numbers-build fs i h =
    ap (numbers_loop 1024 []) (write_all-all_bytes fs []) ∙ numbers_loop-all_bytes 1024 fs [] i h
