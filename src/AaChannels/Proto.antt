-- ===== src/AaChannels/Proto.antt =====
-- aa_channels.rs, `Proto` and `numbers`: protobuf fields written and read. `metadata.rs` reads the
-- same format a second time, in `varint` and `fields`.
pub mod Varint
pub mod RoundTrip
use project_argo.Common.{
  ℕ, zero, suc, ◌+◌, ◌*◌, ◌/◌, ◌%◌, ◌^◌, List, [], ◌∷◌, ◌++◌, Bool, Option, none, some, ltb, ◌==◌,
  ◌&&◌, ◌||◌, if◌then◌else◌, bit_and, bit_or, length, drop,
}

-- `Proto::var`: the groups of 7 bits of a 64-bit number, lowest first. Ten groups hold 64 bits, so
-- ten rounds are enough, and the clause without rounds is not reached with more than one group.
unfoldable pub var : ℕ → ℕ → List ℕ
var zero value = (value % 256) ∷ []
var (suc rounds) value =
    let more = var rounds (value / 128) in
    if ltb value 128 then (value % 256) ∷ [] else bit_or (value % 256) 128 ∷ more

unfoldable pub number : List ℕ → ℕ → ℕ → List ℕ
number proto field value = (proto ++ var 10 (field * 8)) ++ var 10 value

unfoldable pub bytes : List ℕ → ℕ → List ℕ → List ℕ
bytes proto field value =
    ((proto ++ var 10 (bit_or (field * 8) 2)) ++ var 10 (length value)) ++ value

unfoldable pub nested : List ℕ → ℕ → List ℕ → List ℕ
unfolding bytes
nested proto field value = bytes proto field value

-- A call of `number`, or one of `bytes` or `nested`.
pub data Field : Type 0 where
  numeric : ℕ → ℕ → Field
  bytewise : ℕ → List ℕ → Field

unfoldable pub write : List ℕ → Field → List ℕ
write proto (numeric f v) = number proto f v
write proto (bytewise f b) = bytes proto f b

-- The calls one after another.
unfoldable pub write_all : List ℕ → List Field → List ℕ
write_all proto [] = proto
write_all proto (f ∷ fs) = write_all (write proto f) fs

-- A chain of calls from `Proto::default()` to `finish()`.
unfoldable pub build : List Field → List ℕ
build fs = write_all [] fs

pub data Error : Type 0 where
  truncated_varint integer_overflow field_limit invalid_tag : Error
  unsupported_wire_type truncated_field : Error

pub data Result {ℓ} (A : Type ℓ) : Type ℓ where
  failed : Error → Result A
  found : A → Result A

infixl 5 ◌>>=◌
abbrev pub ◌>>=◌ {ℓ μ} : {A : Type ℓ} → {B : Type μ} → Result A → (A → Result B) → Result B
failed e >>= next = failed e
found x >>= next = next x

-- A shift of a 64-bit number to the left.
abbrev pub shl : ℕ → ℕ → ℕ
shl value shift = value * 2 ^ shift % 2 ^ 64

-- The loop of `var` inside `numbers`, at the given shift, with the rounds that are left: the number
-- and the bytes behind it.
unfoldable pub read_var : ℕ → ℕ → ℕ → List ℕ → Result (ℕ × List ℕ)
read_var zero shift value input = failed integer_overflow
read_var (suc rounds) shift value [] = failed truncated_varint
read_var (suc rounds) shift value (byte ∷ rest) =
    let value' = bit_or value (shl (bit_and byte 127) shift) in
    let later = read_var rounds (shift + 7) value' rest in
    if shift == 63 && ltb 1 byte
    then failed integer_overflow
    else if ltb byte 128
    then found (value', rest)
    else later

abbrev pub Fields : Type 0
Fields = List (ℕ × ℕ)

-- `fields.insert`: the newest entry of a field counts.
abbrev pub insert : ℕ → ℕ → Fields → Fields
insert field value fields = (field, value) ∷ fields

unfoldable pub get : ℕ → Fields → Option ℕ
get field [] = none
get field ((k, value) ∷ rest) = if k == field then some value else get field rest

-- `input.get(size..)`.
abbrev pub skip : ℕ → List ℕ → Result (List ℕ)
skip size input =
    if ltb (length input) size then failed truncated_field else found (drop size input)

-- One round of the loop of `numbers` behind the tag: the fields, and the bytes that are left.
unfoldable pub field_value : ℕ → ℕ → Fields → List ℕ → Result (Fields × List ℕ)
field_value wire field fields input =
    if wire == 0
    then (do (value, rest) ← read_var 10 0 0 input; found (insert field value fields, rest))
    else if wire == 1
    then (do rest ← skip 8 input; found (fields, rest))
    else if wire == 5
    then (do rest ← skip 4 input; found (fields, rest))
    else if wire == 2
    then (do (size, body) ← read_var 10 0 0 input; rest ← skip size body; found (fields, rest))
    else failed unsupported_wire_type

unfoldable pub one_field : Fields → List ℕ → Result (Fields × List ℕ)
one_field fields input = do
  (tag, rest) ← read_var 10 0 0 input
  if tag / 8 == 0 || ltb 0x1fffffff (tag / 8)
      then failed invalid_tag
      else field_value (tag % 8) (tag / 8) fields rest

-- The loop of `numbers`. At most 1024 fields are taken, so 1025 rounds are enough: the clause
-- without rounds is the refusal of one more.
unfoldable pub numbers_loop : ℕ → Fields → List ℕ → Result Fields
numbers_loop rounds fields [] = found fields
numbers_loop zero fields (b ∷ bs) = failed field_limit
numbers_loop (suc rounds) fields (b ∷ bs) =
    one_field fields (b ∷ bs) >>= λ r. numbers_loop rounds r.0 r.1

unfoldable pub numbers : List ℕ → Result Fields
numbers input = numbers_loop 1024 [] input
