-- ===== src/Metadata/Wire/RoundTrip.antt =====
-- The two readers of numbers agree, and `fields` reads what `Proto` writes.
use project_argo.Common.{
  ℕ, zero, suc, ◌+◌, ◌*◌, ◌^◌, ◌≤◌, ◌<◌, ◌≡◌, refl, sym, ap, ◌∙◌, List, [], ◌∷◌, ◌++◌, append_assoc,
  arith, ltb, ◌==◌, ◌&&◌, if◌then◌else◌, bit_and, bit_or, length, length-append, take-length,
  drop-length, All, Bool, true, false,
}
use project_argo.Common.Bits.{bit_or_2}
use project_argo.AaChannels.Proto
use project_argo.AaChannels.Proto.{
  Field, numeric, bytewise, build, var, shl, read_var, failed, found, truncated_varint,
  integer_overflow,
}
use project_argo.AaChannels.Proto.Varint.{read_var-var}
use project_argo.AaChannels.Proto.RoundTrip.{
  IsField, write_all-all_bytes, field_bytes, all_bytes, field_bytes_cons,
}
use project_argo.Metadata.Wire.{
  Error, truncated_field, Result, wrong, right, ◌>>=◌, Value, number, bytes, varint, Values,
  split_bytes, field_value, one_field, fields_loop, fields,
}
use project_argo.Metadata.Wire

-- The error of `varint` where `numbers` has the given one.
abbrev pub same_error : Proto.Error → Error
same_error truncated_varint = truncated_field
same_error integer_overflow = Wire.integer_overflow
same_error Proto.field_limit = Wire.field_limit
same_error Proto.invalid_tag = Wire.invalid_tag
same_error Proto.unsupported_wire_type = Wire.unsupported_wire_type
same_error Proto.truncated_field = truncated_field

abbrev pub same_result {ℓ} : {A : Type ℓ} → Proto.Result A → Result A
same_result (failed e) = wrong (same_error e)
same_result (found a) = right a

-- The number reader of metadata.rs and the one in `numbers` of aa_channels.rs give the same number
-- and the same rest, or the same error, on every input, from every shift and partial value.
pub varint-read_var :
    (rounds shift value : ℕ) (input : List ℕ)
    → varint rounds shift value input ≡ same_result (read_var rounds shift value input)
unfolding varint read_var
varint-read_var zero shift value input = refl
varint-read_var (suc rounds) shift value [] = refl
varint-read_var (suc rounds) shift value (b ∷ rest) =
    let value' = bit_or value (shl (bit_and b 127) shift) in
    rw (varint-read_var rounds (shift + 7) value' rest)
      (go (shift == 63 && ltb 1 b) (ltb b 128) value' (read_var rounds (shift + 7) value' rest))
  where
    go :
        (t q : Bool) (value' : ℕ) (r : Proto.Result (ℕ × List ℕ))
        → (if t
            then wrong Wire.integer_overflow
            else if q
            then right (value', rest)
            else same_result r)
          ≡ same_result
              (if t then failed integer_overflow else if q then found (value', rest) else r)
    go true q value' r = refl
    go false true value' r = refl
    go false false value' r = refl

varint-var :
    (v : ℕ) (rest : List ℕ) → v < 2 ^ 64 → varint 10 0 0 (var 10 v ++ rest) ≡ right (v, rest)
varint-var v rest h =
    varint-read_var 10 0 0 (var 10 v ++ rest) ∙ ap same_result (read_var-var v rest h)

-- All fields, the newest first.
unfoldable pub values : Values → List Field → Values
values m [] = m
values m (numeric f v ∷ fs) = values ((f, number v) ∷ m) fs
values m (bytewise f b ∷ fs) = values ((f, bytes b) ∷ m) fs

abbrev taken : Field → Values → Values
taken (numeric f v) m = (f, number v) ∷ m
taken (bytewise f b) m = (f, bytes b) ∷ m

one_field-field_bytes :
    (f : Field) (m : Values) (rest : List ℕ)
    → IsField f
    → one_field m (field_bytes f ++ rest) ≡ right (taken f m, rest)
unfolding one_field field_value
one_field-field_bytes (numeric f v) m rest i =
    rw
      (
        append_assoc (var 10 (f * 8)) (var 10 v) rest,
        varint-var (f * 8) (var 10 v ++ rest) (omega arith),
      )
      (ground (arith, varint-var v rest))
one_field-field_bytes (bytewise f b) m rest i =
    rw
      (
        bit_or_2 f,
        append_assoc (var 10 (f * 8 + 2)) (var 10 (length b) ++ b) rest,
        varint-var (f * 8 + 2) ((var 10 (length b) ++ b) ++ rest) (omega arith),
        append_assoc (var 10 (length b)) b rest,
      )
      (ground (
        arith,
        varint-var (length b) (b ++ rest),
        length-append b rest,
        take-length b rest (length b),
        drop-length b rest (length b),
      ))

fields_loop_field :
    (rounds : ℕ) (f : Field) (m : Values) (rest : List ℕ)
    → IsField f
    → fields_loop (suc rounds) m (field_bytes f ++ rest) ≡ fields_loop rounds (taken f m) rest
unfolding fields_loop
fields_loop_field rounds f m rest i =
    let (b, bs, e) = field_bytes_cons f in
    ap (λ t. fields_loop (suc rounds) m (t ++ rest)) e
    ∙ ap (λ t. one_field m (t ++ rest) >>= λ r. fields_loop rounds r.0 r.1) (sym e)
    ∙ ap (λ t. t >>= λ r. fields_loop rounds r.0 r.1) (one_field-field_bytes f m rest i)

fields_loop-all_bytes :
    (rounds : ℕ) (fs : List Field) (m : Values)
    → All IsField fs
    → length fs ≤ rounds
    → fields_loop rounds m (all_bytes fs) ≡ right (values m fs)
unfolding values
fields_loop-all_bytes rounds [] m i h = unfold fields_loop in refl
fields_loop-all_bytes zero (f ∷ fs) m i h = absurd (omega arith)
fields_loop-all_bytes (suc rounds) (numeric f v ∷ fs) m i h =
    fields_loop_field rounds (numeric f v) m (all_bytes fs) i.0
    ∙ fields_loop-all_bytes rounds fs ((f, number v) ∷ m) i.1 (omega arith)
fields_loop-all_bytes (suc rounds) (bytewise f b ∷ fs) m i h =
    fields_loop_field rounds (bytewise f b) m (all_bytes fs) i.0
    ∙ fields_loop-all_bytes rounds fs ((f, bytes b) ∷ m) i.1 (omega arith)

-- At most 1024 fields, with field numbers of protobuf and values of 64 bits, that `Proto` writes
-- one after another to at most 4 MiB: `fields` gives all of them with their numbers and bytes, of a
-- repeated field the last.
pub fields-build :
    (fs : List Field)
    → All IsField fs
    → length fs ≤ 1024
    → length (build fs) ≤ 4194304
    → fields (build fs) ≡ right (values [] fs)
unfolding fields build
fields-build fs i h k =
    let e = write_all-all_bytes fs [] in
    ground (arith, e, ap fields e, fields_loop-all_bytes 1024 fs [] i h)
