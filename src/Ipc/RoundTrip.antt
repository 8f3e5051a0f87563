-- ===== src/Ipc/RoundTrip.antt =====
-- `encode` and `Decoder::push` of ipc.rs are inverse to one another, however the stream is cut.
use mathlib.Core.List.{flatten}
use project_argo.Common.{
  ℕ, ◌+◌, ◌≤◌, ◌<◌, ◌≡◌, refl, ap, ◌∙◌, List, [], ◌∷◌, ◌++◌, arith, All, length, length-append,
  append_assoc, be16_bytes, be16-be16_bytes, be32_bytes, be32-be32_bytes, take-length, drop-length,
  le→not_ltb,
}
use project_argo.Common.Stream.{more, item, done, prepend, read, read-item, read-more}
use project_argo.Common.Stream.Splitter.{records, split_of, pushes, split_all-read, pushes-read}
use project_argo.Ipc.Frames.{
  Message, encode, encoded, next_message, push, magic, version, max_payload, max_buffered,
}
use project_argo.Ipc.Framing.{messages_framing}

-- The kind fits its 16 bits and the payload the limit.
pub record IsMessage (m : Message) : Type 0 where
  pub kind_fits : m.kind < 65536
  pub payload_fits : length m.payload ≤ max_payload

-- The bytes of a message.
abbrev pub wire : Message → List ℕ
wire m =
    be32_bytes magic
    ++ (be16_bytes version ++ (be16_bytes m.kind ++ (be32_bytes (length m.payload) ++ m.payload)))

next_message-wire :
    (m : Message) (rest : List ℕ) → IsMessage m → next_message (wire m ++ rest) ≡ item m rest
unfolding next_message
next_message-wire m rest v =
    let n : length (m.payload ++ rest) ≡ length m.payload + length rest =
      length-append m.payload rest in
    rw (be16-be16_bytes m.kind v.kind_fits, be32-be32_bytes (length m.payload) (omega arith))
      (ground (
        arith,
        n,
        take-length m.payload rest (length m.payload),
        drop-length m.payload rest (length m.payload),
      ))

abbrev pub wires : List Message → List ℕ
wires [] = []
wires (m ∷ ms) = wire m ++ wires ms

read-wires :
    (ms : List Message) (rest : List ℕ)
    → All IsMessage ms
    → next_message rest ≡ more
    → read messages_framing (wires ms ++ rest) ≡ done ms rest
unfolding messages_framing
read-wires [] rest v h = read-more messages_framing rest h
read-wires (m ∷ ms) rest v h = rw (append_assoc (wire m) (wires ms) rest) (
    read-item messages_framing (wire m ++ (wires ms ++ rest)) m (wires ms ++ rest)
      (next_message-wire m (wires ms ++ rest) v.0)
    ∙ ap (prepend (m ∷ [])) (read-wires ms rest v.1 h))

-- A buffer without a complete message is shorter than the longest message.
unfinished_short : (buf : List ℕ) → next_message buf ≡ more → length buf < 65548
unfolding next_message
unfinished_short buf h = ground arith

abbrev pub IsPiece : List ℕ → Type 0
IsPiece c = length c ≤ 196597

push-settled :
    (buf c : List ℕ)
    → messages_framing.next buf ≡ more
    → IsPiece c
    → push buf c ≡ split_of (read messages_framing (buf ++ c))
unfolding push messages_framing
push-settled buf c h k =
    rw (le→not_ltb max_buffered (length buf + length c) (omega (arith, unfinished_short buf h)))
      (split_all-read messages_framing (buf ++ c))

encode-wire : (m : Message) → IsMessage m → encode m ≡ encoded (wire m)
unfolding encode
encode-wire m v = ground arith

encodes : (ms : List Message) → All IsMessage ms → All (λ m. encode m ≡ encoded (wire m)) ms
encodes [] v = tt
encodes (m ∷ ms) v = (encode-wire m v.0, encodes ms v.1)

-- Messages of at most 65536 bytes are encoded without an error, and sent back to back they come
-- out of the decoder as they went in, in order, whatever pieces of at most 196597 bytes the socket
-- cuts the stream into; what follows them stays buffered, if it holds no complete message.
pub pushes-wires :
    (ms : List Message) (rest : List ℕ) (cs : List (List ℕ))
    → All IsMessage ms
    → next_message rest ≡ more
    → All IsPiece cs
    → flatten cs ≡ wires ms ++ rest
    → All (λ m. encode m ≡ encoded (wire m)) ms × (pushes push [] cs ≡ (records ms, rest))
unfolding messages_framing
pushes-wires ms rest cs v h k e = (
  encodes ms v,
  pushes-read messages_framing push IsPiece push-settled [] cs (unfold next_message in refl) k
      ∙ rw (e, read-wires ms rest v h),
)
