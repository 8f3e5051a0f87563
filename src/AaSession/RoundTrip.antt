-- ===== src/AaSession/RoundTrip.antt =====
-- `encode_frame` and the decoder of session.rs are inverse to one another.
use mathlib.Core.List.{flatten}
use project_argo.Common.{
  ℕ, ◌≤◌, ◌≡◌, ap, ◌∙◌, List, [], ◌∷◌, ◌++◌, arith, All, length, length-append, append_assoc, be16,
  be16_bytes, take-length, drop-length, take-append-drop, length-take, AreBytes,
}
use project_argo.Common.Stream.{more, item, done, prepend, read, read-item, read-more}
use project_argo.AaSession.Frame.{
  Frame, ok, next_frame, encode_frame, max_frame_payload_bytes, flags_plaintext_single_frame,
}
use project_argo.AaSession.Framing.{frames_framing}
use project_argo.AaSession.Push.{push_all, IsPiece, push_all-read}

-- A frame that the decoder takes: plaintext and single, with a payload of 2 to 32768 bytes.
pub record IsFrame (f : Frame) : Type 0 where
  pub plain : f.flags ≡ flags_plaintext_single_frame
  pub at_least : 2 ≤ length f.payload
  pub at_most : length f.payload ≤ max_frame_payload_bytes

-- The bytes of a frame.
abbrev pub wire : Frame → List ℕ
wire f = f.channel ∷ (f.flags ∷ (be16_bytes (length f.payload) ++ f.payload))

pub encode_frame-wire : (f : Frame) → IsFrame f → encode_frame f ≡ ok (wire f)
unfolding encode_frame
encode_frame-wire f v = ground arith

pub next_frame-wire :
    (f : Frame) (rest : List ℕ) → IsFrame f → next_frame (wire f ++ rest) ≡ item f rest
unfolding next_frame
next_frame-wire f rest v = ground (
  arith,
  length-append f.payload rest,
  take-length f.payload rest (length f.payload),
  drop-length f.payload rest (length f.payload),
)

abbrev pub wires : List Frame → List ℕ
wires [] = []
wires (f ∷ fs) = wire f ++ wires fs

pub read-wires :
    (fs : List Frame) (rest : List ℕ)
    → All IsFrame fs
    → next_frame rest ≡ more
    → read frames_framing (wires fs ++ rest) ≡ done fs rest
unfolding frames_framing
read-wires [] rest v h = read-more frames_framing rest h
read-wires (f ∷ fs) rest v h = rw (append_assoc (wire f) (wires fs) rest) (
    read-item frames_framing (wire f ++ (wires fs ++ rest)) f (wires fs ++ rest)
      (next_frame-wire f (wires fs ++ rest) v.0)
    ∙ ap (prepend (f ∷ [])) (read-wires fs rest v.1 h))

-- Frames with the flags of a plaintext single frame and a payload of 2 to 32768 bytes: each is
-- encoded by `encode_frame` without an error; and these encodings, back to back, come out of `push`
-- as the frames that went in, in order, whatever pieces of at most 32764 bytes the transport cuts
-- the stream into; an unfinished frame behind them stays buffered.
pub push_all-wires :
    (fs : List Frame) (rest : List ℕ) (cs : List (List ℕ))
    → All IsFrame fs
    → next_frame rest ≡ more
    → All IsPiece cs
    → flatten cs ≡ wires fs ++ rest
    → All (λ (f : Frame). encode_frame f ≡ ok (wire f)) fs × (push_all [] cs ≡ (ok fs, rest))
push_all-wires fs rest cs v h k e =
    (encoded fs v, push_all-read cs k ∙ rw (e, read-wires fs rest v h))
  where
    encoded :
        (gs : List Frame) → All IsFrame gs → All (λ (f : Frame). encode_frame f ≡ ok (wire f)) gs
    encoded [] i = tt
    encoded (g ∷ gs) i = (encode_frame-wire g i.0, encoded gs i.1)

-- What `next_frame` takes off a buffer of bytes is the encoding of the frame, which is valid.
pub next_frame-eq-item :
    (buf : List ℕ) (f : Frame) (rest : List ℕ)
    → AreBytes buf
    → next_frame buf ≡ item f rest
    → IsFrame f × (buf ≡ wire f ++ rest)
unfolding next_frame
next_frame-eq-item [] f rest b e = cc
next_frame-eq-item (c ∷ []) f rest b e = cc
next_frame-eq-item (c ∷ g ∷ []) f rest b e = cc
next_frame-eq-item (c ∷ g ∷ h ∷ []) f rest b e = cc
next_frame-eq-item (c ∷ g ∷ h ∷ l ∷ p) f rest b e =
    ground (arith, length-take (be16 h l) p, take-append-drop (be16 h l) p)
