-- ===== src/AaSession/Frame.antt =====
-- session.rs, `encode_frame` and `FrameDecoder`.
use project_argo.Common.{
  ℕ, zero, suc, ◌+◌, List, [], ◌∷◌, ◌++◌, ltb, ◌==◌, if◌then◌else◌, not, length, take, drop,
  byte_at, be16, be16_bytes,
}
use project_argo.Common.Stream.{Step, more, bad, item}

pub data FrameError : Type 0 where
  unsupported_flags : ℕ → FrameError
  invalid_length : ℕ → FrameError
  oversized_buffer : FrameError
  oversized_payload : ℕ → FrameError
  disconnect_mid_frame : ℕ → FrameError

pub record Frame : Type 0 where
  pub channel : ℕ
  pub flags : ℕ
  pub payload : List ℕ

pub data Result (A : Type 0) : Type 0 where
  ok : A → Result A
  err : FrameError → Result A

abbrev pub frame_header_bytes : ℕ
frame_header_bytes = 4

abbrev pub max_frame_payload_bytes : ℕ
max_frame_payload_bytes = 32768

abbrev pub max_buffered_bytes : ℕ
max_buffered_bytes = 65536

abbrev pub flags_plaintext_single_frame : ℕ
flags_plaintext_single_frame = 3

unfoldable pub encode_frame : Frame → Result (List ℕ)
encode_frame f =
    if ltb max_frame_payload_bytes (length f.payload)
    then err (oversized_payload (length f.payload))
    else ok (f.channel ∷ (f.flags ∷ (be16_bytes (length f.payload) ++ f.payload)))

-- One round of the loop of `push`: `more` is its `break`, `bad` its `return Err` (where the
-- buffer is cleared), `item` the frame that it appends with the buffer after `drain`.
unfoldable pub next_frame : List ℕ → Step FrameError Frame
next_frame buf =
    if ltb (length buf) frame_header_bytes
    then more
    else let len = be16 (byte_at buf 2) (byte_at buf 3) in
      let flags = byte_at buf 1 in
      if not (flags == flags_plaintext_single_frame)
      then bad (unsupported_flags flags)
      else if ltb len 2
      then bad (invalid_length len)
      else if ltb max_frame_payload_bytes len
      then bad (oversized_payload len)
      else if ltb (length buf) (frame_header_bytes + len)
      then more
      else item
          (record {
            channel = byte_at buf 0;
            flags = byte_at buf 1;
            payload = take len (drop frame_header_bytes buf);
          })
          (drop (frame_header_bytes + len) buf)

-- The loop over the buffer, with the frames found so far. The fuel is one more than the bytes at
-- hand; without fuel it stops as at `break`.
unfoldable pub split_loop : ℕ → List ℕ → List Frame → Result (List Frame) × List ℕ
split_loop zero buffered frames = (ok frames, buffered)
split_loop (suc fuel) buffered frames = elim (next_frame buffered) [
  | more ↦ (ok frames, buffered)
  | bad e ↦ (err e, [])
  | item frame rest ↦ split_loop fuel rest (frames ++ (frame ∷ []))
]

-- `FrameDecoder::push`: the answer, and the buffer that is left.
unfoldable pub push : List ℕ → List ℕ → Result (List Frame) × List ℕ
push buffered bytes =
    if ltb max_buffered_bytes (length buffered + length bytes)
    then (err oversized_buffer, [])
    else split_loop (suc (length (buffered ++ bytes))) (buffered ++ bytes) []

-- `FrameDecoder::disconnect`.
unfoldable pub disconnect : List ℕ → Result (Unit {0}) × List ℕ
disconnect [] = (ok tt, [])
disconnect (b ∷ bs) = (err (disconnect_mid_frame (length (b ∷ bs))), [])
