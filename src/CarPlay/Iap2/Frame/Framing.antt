-- ===== src/CarPlay/Iap2/Frame/Framing.antt =====
-- The laws of `next_frame` of iap2.rs.
use project_argo.Common.{
  ℕ, ◌<◌, ◌≡◌, List, ◌++◌, arith, length, byte_at, be16, length-append, length-drop, get_or-append,
  take-append, drop-append, take-length, drop-length,
}
use project_argo.Common.Stream.{bad, item, Framing}
use project_argo.CarPlay.Defs.{Error}
use project_argo.CarPlay.Iap2.Frame.{Frame, next_frame, head_bytes, with_checksum}
use project_argo.CarPlay.Iap2.Frame.RoundTrip.{IsFrame, wire, decode-wire, length-wire}

pub next_frame_shrinks :
    (buf : List ℕ) (a : Frame) (rest : List ℕ)
    → next_frame buf ≡ item a rest
    → length rest < length buf
unfolding next_frame
next_frame_shrinks buf a rest e =
    ground (arith, length-drop (be16 (byte_at buf 2) (byte_at buf 3)) buf)

module _ (buf x : List ℕ) where
  byte_at-append : (i : ℕ) → i < length buf → byte_at (buf ++ x) i ≡ byte_at buf i
  byte_at-append i h = get_or-append buf x i 0 h

  pub next_frame-append_item :
      (a : Frame) (rest : List ℕ)
      → next_frame buf ≡ item a rest
      → next_frame (buf ++ x) ≡ item a (rest ++ x)
  unfolding next_frame
  next_frame-append_item a rest e =
      let len = be16 (byte_at buf 2) (byte_at buf 3) in
      ground (
        arith,
        length-append buf x,
        byte_at-append 0,
        byte_at-append 1,
        byte_at-append 2,
        byte_at-append 3,
        take-append len buf x,
        drop-append len buf x,
      )

  pub next_frame-append_bad : (e : Error) → next_frame buf ≡ bad e → next_frame (buf ++ x) ≡ bad e
  unfolding next_frame
  next_frame-append_bad e h =
      let len = be16 (byte_at buf 2) (byte_at buf 3) in
      ground (
        arith,
        length-append buf x,
        byte_at-append 0,
        byte_at-append 1,
        byte_at-append 2,
        byte_at-append 3,
        take-append len buf x,
      )

unfoldable pub frame_framing : Framing Error Frame
frame_framing = record {
  next = next_frame;
  shrinks = next_frame_shrinks;
  keeps_item = next_frame-append_item;
  keeps_bad = next_frame-append_bad;
}

-- The frame at the front of a stream comes off whole, and what follows it stays.
pub iap2_next_frame-wire :
    (f : Frame) (rest : List ℕ) → IsFrame f → next_frame (wire f ++ rest) ≡ item f rest
unfolding next_frame head_bytes with_checksum
iap2_next_frame-wire f rest v = ground (
  arith,
  length-append (wire f) rest,
  length-wire f,
  take-length (wire f) rest (length (wire f)),
  drop-length (wire f) rest (length (wire f)),
  decode-wire f v,
)
