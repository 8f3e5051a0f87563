-- ===== src/AaSession/Framing.antt =====
-- The laws of `next_frame`, so that the reader of Common.Stream serves the decoder.
use project_argo.Common.{
  ℕ, ◌+◌, ◌≤◌, ◌<◌, ◌≡◌, List, ◌++◌, arith, length, take, drop, byte_at, be16, length-append,
  length-drop, get_or-append, take-append, drop-append,
}
use project_argo.Common.Stream.{bad, item, Framing}
use project_argo.AaSession.Frame.{Frame, FrameError, next_frame}

pub next_frame_shrinks :
    (buf : List ℕ) (a : Frame) (rest : List ℕ)
    → next_frame buf ≡ item a rest
    → length rest < length buf
unfolding next_frame
next_frame_shrinks buf a rest e =
    ground (arith, length-drop (4 + be16 (byte_at buf 2) (byte_at buf 3)) buf)

-- What `next_frame` reads of a buffer that holds a header, seen through an extension of it.
module _ (buf x : List ℕ) where
  byte_at-append : (i : ℕ) → i < length buf → byte_at (buf ++ x) i ≡ byte_at buf i
  byte_at-append i h = get_or-append buf x i 0 h

  payload-append : (n : ℕ) → 4 + n ≤ length buf → take n (drop 4 (buf ++ x)) ≡ take n (drop 4 buf)
  payload-append n h =
      rw (drop-append 4 buf x (omega arith))
        (take-append n (drop 4 buf) x (omega (arith, length-drop 4 buf)))

  pub next_frame-append_item :
      (a : Frame) (rest : List ℕ)
      → next_frame buf ≡ item a rest
      → next_frame (buf ++ x) ≡ item a (rest ++ x)
  unfolding next_frame
  next_frame-append_item a rest e =
      let len = be16 (byte_at buf 2) (byte_at buf 3) in
      ground (
        arith,
        length-append buf x,
        byte_at-append 0,
        byte_at-append 1,
        byte_at-append 2,
        byte_at-append 3,
        payload-append len,
        drop-append (4 + len) buf x,
      )

  pub next_frame-append_bad :
      (e : FrameError) → next_frame buf ≡ bad e → next_frame (buf ++ x) ≡ bad e
  unfolding next_frame
  next_frame-append_bad e h =
      ground (arith, length-append buf x, byte_at-append 1, byte_at-append 2, byte_at-append 3)

unfoldable pub frames_framing : Framing FrameError Frame
frames_framing = record {
  next = next_frame;
  shrinks = next_frame_shrinks;
  keeps_item = next_frame-append_item;
  keeps_bad = next_frame-append_bad;
}
