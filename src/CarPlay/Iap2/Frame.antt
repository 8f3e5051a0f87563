-- ===== src/CarPlay/Iap2/Frame.antt =====
-- iap2.rs, `checksum`, `Frame` and `Decoder`.
pub mod Checksum
pub mod RoundTrip
pub mod Framing
use project_argo.Common.{
  ℕ, ◌+◌, ◌-◌, ◌%◌, List, [], ◌∷◌, ◌++◌, bit_and, ltb, leb, ◌==◌, if◌then◌else◌, not, ◌||◌, ◌&&◌,
  length, take, drop, byte_at, be16, be16_bytes,
}
use project_argo.Common.Stream.{Step, more, bad, item}
use project_argo.CarPlay.Defs.{Error, bounds, malformed, bad_checksum, unsupported, Result, ok, err}

abbrev pub max_frame : ℕ
max_frame = 65535

abbrev pub header : ℕ
header = 9

-- `fold` with `u8::wrapping_add`.
unfoldable pub wrapping_sum : ℕ → List ℕ → ℕ
wrapping_sum acc [] = acc
wrapping_sum acc (b ∷ bs) = wrapping_sum ((acc + b) % 256) bs

unfoldable pub checksum : List ℕ → ℕ
checksum bytes = (256 - wrapping_sum 0 bytes) % 256

pub record Frame : Type 0 where
  pub flags : ℕ
  pub sequence : ℕ
  pub acknowledgement : ℕ
  pub session : ℕ
  pub payload : List ℕ

unfoldable pub encoded_length : List ℕ → ℕ
encoded_length [] = header
encoded_length (b ∷ bs) = header + length (b ∷ bs) + 1

-- The header without its checksum.
unfoldable pub head_bytes : Frame → List ℕ
unfolding encoded_length
head_bytes f =
    0xff
    ∷ (0x5a
        ∷ (be16_bytes (encoded_length f.payload)
            ++ (f.flags ∷ f.sequence ∷ f.acknowledgement ∷ f.session ∷ [])))

unfoldable pub with_checksum : List ℕ → List ℕ
with_checksum bytes = bytes ++ (checksum bytes ∷ [])

unfoldable pub payload_bytes : List ℕ → List ℕ
payload_bytes [] = []
payload_bytes (b ∷ bs) = with_checksum (b ∷ bs)

unfoldable pub encode : Frame → Result (List ℕ)
encode f =
    if ltb max_frame (encoded_length f.payload)
    then err bounds
    else if not (bit_and f.flags 0x0f == 0)
    then err unsupported
    else ok (with_checksum (head_bytes f) ++ payload_bytes f.payload)

-- The bytes behind the header, but for the checksum at their end.
unfoldable pub decoded_payload : List ℕ → List ℕ
decoded_payload bytes =
    if length bytes == header then [] else take (length bytes - 1 - header) (drop header bytes)

unfoldable pub decode : List ℕ → Result Frame
decode bytes =
    if ltb (length bytes) header || ltb max_frame (length bytes)
    then err bounds
    else if not (byte_at bytes 0 == 0xff && byte_at bytes 1 == 0x5a)
        || not (be16 (byte_at bytes 2) (byte_at bytes 3) == length bytes)
        || length bytes == header + 1
    then err malformed
    else if not (checksum (take header bytes) == 0)
        || (ltb header (length bytes) && not (checksum (drop header bytes) == 0))
    then err bad_checksum
    else if not (bit_and (byte_at bytes 4) 0x0f == 0)
    then err unsupported
    else ok (record {
      flags = byte_at bytes 4;
      sequence = byte_at bytes 5;
      acknowledgement = byte_at bytes 6;
      session = byte_at bytes 7;
      payload = decoded_payload bytes;
    })

-- `Decoder::push`: an error leaves the bytes as they were.
unfoldable pub push : List ℕ → List ℕ → Result (List ℕ)
push buffered bytes =
    if ltb max_frame (length buffered + length bytes) then err bounds else ok (buffered ++ bytes)

-- `Decoder::next_frame`: `item` is `Ok(Some(frame))` with the bytes after `drain`.
unfoldable pub next_frame : List ℕ → Step Error Frame
next_frame bytes =
    let len = be16 (byte_at bytes 2) (byte_at bytes 3) in
    if ltb (length bytes) 4
    then more
    else if not (byte_at bytes 0 == 0xff && byte_at bytes 1 == 0x5a)
    then bad malformed
    else if ltb len header || len == header + 1
    then bad malformed
    else if ltb (length bytes) len
    then more
    else elim (decode (take len bytes)) [ ok frame ↦ item frame (drop len bytes) | err e ↦ bad e ]
