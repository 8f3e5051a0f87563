-- ===== src/Ipc/Payload.antt =====
-- ipc.rs, `PayloadWriter` and `PayloadReader`. A text is its UTF-8 bytes; which bytes are valid
-- UTF-8 is a parameter, which stands for `String::from_utf8`.
pub mod RoundTrip
use project_argo.Common.{
  ℕ, ◌+◌, ◌/◌, ◌%◌, List, [], ◌∷◌, ◌++◌, Bool, Option, none, some, ltb, ◌==◌, if◌then◌else◌, length,
  take, drop, byte_at, be16, be16_bytes, be32, be32_bytes,
}
use project_argo.Ipc.Frames.{DecodeError, oversized_payload, Encoded, encoded, refused}

-- `PayloadWriter`: the bytes written so far.
unfoldable pub write_u8 : List ℕ → ℕ → List ℕ
write_u8 bytes value = bytes ++ (value ∷ [])

unfoldable pub write_u16 : List ℕ → ℕ → List ℕ
write_u16 bytes value = bytes ++ be16_bytes value

unfoldable pub write_u32 : List ℕ → ℕ → List ℕ
write_u32 bytes value = bytes ++ be32_bytes value

unfoldable pub write_u64 : List ℕ → ℕ → List ℕ
write_u64 bytes value =
    bytes ++ (be32_bytes (value / 4294967296) ++ be32_bytes (value % 4294967296))

unfoldable pub write_string : List ℕ → List ℕ → Encoded
unfolding write_u16
write_string bytes value =
    if ltb 4096 (length value)
    then refused (oversized_payload (length value))
    else encoded (write_u16 bytes (length value) ++ value)

-- A message whose payload is one text.
unfoldable pub string_payload : List ℕ → Encoded
string_payload value =
    if ltb 65535 (length value)
    then refused (oversized_payload (length value))
    else encoded (be16_bytes (length value) ++ value)

pub record PayloadReader : Type 0 where
  pub bytes : List ℕ
  pub offset : ℕ

unfoldable pub new : List ℕ → PayloadReader
new bytes = record { bytes = bytes; offset = 0 }

-- `self.bytes.get(self.offset..self.offset + n)?`, and the reader behind it.
unfoldable pub get : ℕ → PayloadReader → Option (List ℕ × PayloadReader)
get n r =
    if ltb (length r.bytes) (r.offset + n)
    then none
    else some (take n (drop r.offset r.bytes), record r { offset = r.offset + n })

unfoldable pub read_u8 : PayloadReader → Option (ℕ × PayloadReader)
read_u8 r =
    if ltb r.offset (length r.bytes)
    then some (byte_at r.bytes r.offset, record r { offset = r.offset + 1 })
    else none

abbrev pub word : Option (List ℕ × PayloadReader) → Option (ℕ × PayloadReader)
word none = none
word (some (b, r)) = some (be16 (byte_at b 0) (byte_at b 1), r)

abbrev pub long_word : Option (List ℕ × PayloadReader) → Option (ℕ × PayloadReader)
long_word none = none
long_word (some (b, r)) = some (be32 (byte_at b 0) (byte_at b 1) (byte_at b 2) (byte_at b 3), r)

unfoldable pub read_u16 : PayloadReader → Option (ℕ × PayloadReader)
read_u16 r = word (get 2 r)

unfoldable pub read_u32 : PayloadReader → Option (ℕ × PayloadReader)
read_u32 r = long_word (get 4 r)

module _ (is_utf8 : List ℕ → Bool) where
  abbrev pub text : Option (List ℕ × PayloadReader) → Option (List ℕ × PayloadReader)
  text none = none
  text (some (b, r)) = if is_utf8 b then some (b, r) else none

  abbrev pub sized : Option (ℕ × PayloadReader) → Option (List ℕ × PayloadReader)
  sized none = none
  sized (some (n, r)) = text (get n r)

  unfoldable pub read_string : PayloadReader → Option (List ℕ × PayloadReader)
  unfolding read_u16 get
  read_string r = sized (read_u16 r)

unfoldable pub is_done : PayloadReader → Bool
is_done r = r.offset == length r.bytes
