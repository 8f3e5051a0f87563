-- ===== src/Metadata/Wire.antt =====
-- metadata.rs, `Value`, `varint` and `fields`: the protobuf fields of a metadata message.
pub mod RoundTrip
use project_argo.Common.{
  ℕ, zero, suc, ◌+◌, ◌*◌, ◌/◌, ◌%◌, List, [], ◌∷◌, Bool, Option, none, some, ltb, ◌==◌, ◌&&◌, ◌||◌,
  if◌then◌else◌, bit_and, bit_or, length, take, drop,
}
use project_argo.AaChannels.Proto.{shl}

pub data Error : Type 0 where
  truncated_field integer_overflow metadata_size_limit field_limit invalid_tag : Error
  truncated_bytes unsupported_wire_type invalid_utf8 nul_in_text : Error
  invalid_or_oversized_text invalid_number invalid_playback_value : Error
  invalid_battery_value unsupported_metadata_message : Error

pub data Result {ℓ} (A : Type ℓ) : Type ℓ where
  wrong : Error → Result A
  right : A → Result A

infixl 5 ◌>>=◌
abbrev pub ◌>>=◌ {ℓ μ} : {A : Type ℓ} → {B : Type μ} → Result A → (A → Result B) → Result B
wrong e >>= after = wrong e
right x >>= after = after x

pub data Value : Type 0 where
  number : ℕ → Value
  bytes : List ℕ → Value
  other : Value

-- `varint` from the given shift on, with the rounds that are left: the number and the bytes behind
-- it.
unfoldable pub varint : ℕ → ℕ → ℕ → List ℕ → Result (ℕ × List ℕ)
varint zero shift value input = wrong integer_overflow
varint (suc rounds) shift value [] = wrong truncated_field
varint (suc rounds) shift value (b ∷ rest) =
    let value' = bit_or value (shl (bit_and b 127) shift) in
    let later = varint rounds (shift + 7) value' rest in
    if shift == 63 && ltb 1 b
    then wrong integer_overflow
    else if ltb b 128
    then right (value', rest)
    else later

abbrev pub Values : Type 0
Values = List (ℕ × Value)

-- `f.get(&key)`, the newest entry first.
unfoldable pub get : Values → ℕ → Option Value
get [] key = none
get ((k, value) ∷ rest) key = if k == key then some value else get rest key

-- `input.get(..size)`, and the bytes behind them.
abbrev pub split_bytes : ℕ → List ℕ → Result (List ℕ × List ℕ)
split_bytes size input =
    if ltb (length input) size
    then wrong truncated_bytes
    else right (take size input, drop size input)

-- The value behind a tag, and the bytes behind the value.
unfoldable pub field_value : ℕ → List ℕ → Result (Value × List ℕ)
field_value wire input =
    if wire == 0
    then (do (n, rest) ← varint 10 0 0 input; right (number n, rest))
    else if wire == 1
    then (do (data_bytes, rest) ← split_bytes 8 input; right (other, rest))
    else if wire == 5
    then (do (data_bytes, rest) ← split_bytes 4 input; right (other, rest))
    else if wire == 2
    then (do
      (size, body) ← varint 10 0 0 input
      (data_bytes, rest) ← split_bytes size body
      right (bytes data_bytes, rest))
    else wrong unsupported_wire_type

unfoldable pub one_field : Values → List ℕ → Result (Values × List ℕ)
one_field result input = do
  (tag, body) ← varint 10 0 0 input
  if tag / 8 == 0 || ltb 0x1fffffff (tag / 8)
      then wrong invalid_tag
      else (do (value, rest) ← field_value (tag % 8) body; right ((tag / 8, value) ∷ result, rest))

-- The loop of `fields`: the clause without rounds is the refusal of field 1025.
unfoldable pub fields_loop : ℕ → Values → List ℕ → Result Values
fields_loop rounds result [] = right result
fields_loop zero result (b ∷ bs) = wrong field_limit
fields_loop (suc rounds) result (b ∷ bs) =
    one_field result (b ∷ bs) >>= λ r. fields_loop rounds r.0 r.1

unfoldable pub fields : List ℕ → Result Values
fields input =
    if ltb 4194304 (length input) then wrong metadata_size_limit else fields_loop 1024 [] input
