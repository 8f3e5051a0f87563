-- ===== src/Ipc/Frames.antt =====
-- ipc.rs, `encode` and `Decoder`.
use project_argo.Common.{
  ℕ, ◌+◌, ◌*◌, List, [], ◌++◌, ltb, ◌==◌, not, if◌then◌else◌, length, take, drop, byte_at, be16,
  be16_bytes, be32, be32_bytes,
}
use project_argo.Common.Stream.{Step, more, bad, item}
use project_argo.Common.Stream.Splitter.{Split, fault, split_all}

abbrev pub magic : ℕ
magic = 0x4152474f

abbrev pub version : ℕ
version = 7

abbrev pub header_len : ℕ
header_len = 12

abbrev pub max_payload : ℕ
max_payload = 64 * 1024

abbrev pub max_buffered : ℕ
max_buffered = 256 * 1024

pub record Message : Type 0 where
  pub kind : ℕ
  pub payload : List ℕ

pub data DecodeError : Type 0 where
  bad_magic oversized_buffer : DecodeError
  unsupported_version oversized_payload : ℕ → DecodeError

-- An encoding or its error.
pub data Encoded : Type 0 where
  encoded : List ℕ → Encoded
  refused : DecodeError → Encoded

unfoldable pub encode : Message → Encoded
encode m =
    if ltb max_payload (length m.payload)
    then refused (oversized_payload (length m.payload))
    else encoded (
        be32_bytes magic
        ++ (be16_bytes version
            ++ (be16_bytes m.kind ++ (be32_bytes (length m.payload) ++ m.payload))))

-- One round of the loop of `push`: `more` is its `break`, `bad` its `return Err`.
unfoldable pub next_message : List ℕ → Step DecodeError Message
next_message buf =
    if ltb (length buf) header_len
    then more
    else let len = be32 (byte_at buf 8) (byte_at buf 9) (byte_at buf 10) (byte_at buf 11) in
      let v = be16 (byte_at buf 4) (byte_at buf 5) in
      if not (be32 (byte_at buf 0) (byte_at buf 1) (byte_at buf 2) (byte_at buf 3) == magic)
      then bad bad_magic
      else if not (v == version)
      then bad (unsupported_version v)
      else if ltb max_payload len
      then bad (oversized_payload len)
      else if ltb (length buf) (header_len + len)
      then more
      else item
          (record {
            kind = be16 (byte_at buf 6) (byte_at buf 7);
            payload = take len (drop header_len buf);
          })
          (drop (header_len + len) buf)

-- `Decoder::push`: the answer, and the buffer that is left, which an error clears.
unfoldable pub push : List ℕ → List ℕ → Split DecodeError Message × List ℕ
push buffered bytes =
    if ltb max_buffered (length buffered + length bytes)
    then (fault oversized_buffer, [])
    else split_all next_message (buffered ++ bytes)
