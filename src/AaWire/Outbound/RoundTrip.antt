-- ===== src/AaWire/Outbound/RoundTrip.antt =====
-- What `encrypted_frames` writes, and that the decoder and the reassembly undo it.
use mathlib.Core.List.{flatten}
use project_argo.Common.{
  ℕ, zero, suc, ◌+◌, ◌≤◌, ◌<◌, ◌≡◌, refl, ap, ◌∙◌, List, [], ◌∷◌, ◌++◌, none, Bool, true, false,
  bit_and, ◌==◌, if◌then◌else◌, length, length-append, arith, append-nil, All, byte_at, be16,
  be16_bytes, be32_bytes, take-length, drop-length, get_or-append, be32-be32_bytes, be16-be16_bytes,
  Bool-cases, inl, inr,
}
use project_argo.Common.Stream.{item, done, prepend, read, read-item, read-more}
use project_argo.AaWire.Defs.{ok, max_message}
use project_argo.AaWire.Packets.{packet}
use project_argo.AaWire.Packets.Framing.{packet_framing}
use project_argo.AaWire.Messages.{Fragments, get, total}
use project_argo.AaWire.Messages.Reassembly.{receive, packets_of, receive-packets_of}
use project_argo.AaWire.Outbound.{
  frame, split_records, frame_flags, splice_total, emit, encrypted_frames,
}

-- A TLS record: a header of five bytes, which ends in the length of what follows.
pub record IsRecord (p : List ℕ) : Type 0 where
  pub sized : length p ≡ 5 + be16 (byte_at p 3) (byte_at p 4)
  pub fits : length p ≤ 65535

split_records-flatten :
    (ps : List (List ℕ)) (fuel : ℕ)
    → All IsRecord ps
    → length (flatten ps) ≤ fuel
    → split_records fuel (flatten ps) ≡ ok ps
unfolding split_records flatten
split_records-flatten [] fuel v h = unfold split_records in refl
split_records-flatten ([] ∷ ps) fuel v h = absurd (omega (arith, v.0.sized))
split_records-flatten ((b ∷ bs) ∷ ps) zero v h = absurd (omega arith)
split_records-flatten ((b ∷ bs) ∷ ps) (suc fuel) v h =
    let p = b ∷ bs in
    let rest = flatten ps in
    let e₃ = get_or-append p rest 3 0 (omega (arith, v.0.sized)) in
    let e₄ = get_or-append p rest 4 0 (omega (arith, v.0.sized)) in
    let d = drop-length p rest (length p) refl in
    let t = take-length p rest (length p) refl in
    let ih = split_records-flatten ps fuel v.1 (omega (arith, length-append bs rest)) in
    rw (e₃, e₄, ← v.0.sized, d, t, ih) (ground (arith, length-append bs rest, v.0.sized))

-- A packet on the wire, with the length of the whole if it is the first of several.
abbrev piece_wire : ℕ → ℕ → ℕ → List ℕ → List ℕ
piece_wire whole channel flags p =
    channel
    ∷ (flags
        ∷ (be16_bytes (length p) ++ ((if bit_and flags 3 == 1 then be32_bytes whole else []) ++ p)))

abbrev framed : ℕ → ℕ → List ℕ → List ℕ
framed channel flags p = channel ∷ (flags ∷ (be16_bytes (length p) ++ p))

frame-framed :
    (channel flags : ℕ) (p : List ℕ)
    → 0 < length p
    → length p ≤ 65535
    → frame channel flags p ≡ ok (framed channel flags p)
unfolding frame
frame-framed channel flags [] h k = absurd (omega arith)
frame-framed channel flags (b ∷ bs) h k = ground arith

splice_total-framed :
    (whole channel flags : ℕ) (p : List ℕ)
    → splice_total flags whole (framed channel flags p) ≡ piece_wire whole channel flags p
unfolding splice_total
splice_total-framed whole channel flags p = elim (Bool-cases (bit_and flags 3 == 1)) [
  | inl e ↦ rw e
  | inr e ↦ rw e
]

packet_short :
    (channel flags : ℕ) (p rest : List ℕ)
    → bit_and flags 0xf0 ≡ 0
    → (bit_and flags 3 == 1) ≡ false
    → 0 < length p
    → length p ≤ 65535
    → packet (channel ∷ (flags ∷ (be16_bytes (length p) ++ (p ++ rest))))
      ≡ item (record { channel = channel; flags = flags; bytes = p }) rest
unfolding packet
packet_short channel flags p rest f g h k =
    rw (f, g, be16-be16_bytes (length p) (omega arith), packet)
      (ground
        (arith, length-append p rest, take-length p rest (length p), drop-length p rest (length p)))

packet_long :
    (whole channel flags : ℕ) (p rest : List ℕ)
    → bit_and flags 0xf0 ≡ 0
    → (bit_and flags 3 == 1) ≡ true
    → 0 < length p
    → length p ≤ 65535
    → 0 < whole
    → whole ≤ max_message
    → packet (channel ∷ (flags ∷ (be16_bytes (length p) ++ (be32_bytes whole ++ (p ++ rest)))))
      ≡ item (record { channel = channel; flags = flags; bytes = p }) rest
unfolding packet
packet_long whole channel flags p rest f g h k w u =
    rw (f, g, be16-be16_bytes (length p) (omega arith), be32-be32_bytes whole (omega arith), packet)
      (ground
        (arith, length-append p rest, take-length p rest (length p), drop-length p rest (length p)))

packet-piece_wire :
    (whole channel flags : ℕ) (p rest : List ℕ)
    → bit_and flags 0xf0 ≡ 0
    → 0 < length p
    → length p ≤ 65535
    → 0 < whole
    → whole ≤ max_message
    → packet (piece_wire whole channel flags p ++ rest)
      ≡ item (record { channel = channel; flags = flags; bytes = p }) rest
packet-piece_wire whole channel flags p rest f h k w u = elim (Bool-cases (bit_and flags 3 == 1)) [
  | inl e ↦ rw e (packet_long whole channel flags p rest f e h k w u)
  | inr e ↦ rw e (packet_short channel flags p rest f e h k)
]

frame_flags_known : (control first last : Bool) → bit_and (frame_flags control first last) 0xf0 ≡ 0
unfolding frame_flags
frame_flags_known true true true = refl
frame_flags_known true true false = refl
frame_flags_known true false true = refl
frame_flags_known true false false = refl
frame_flags_known false true true = refl
frame_flags_known false true false = refl
frame_flags_known false false true = refl
frame_flags_known false false false = refl

-- The pieces from the one at `index` on, and the wire that carries them.
abbrev wire_of : ℕ → Bool → ℕ → Bool → List (List ℕ) → List ℕ
wire_of channel control whole first [] = []
wire_of channel control whole first (p ∷ []) =
    piece_wire whole channel (frame_flags control first true) p
wire_of channel control whole first (p ∷ q ∷ ps) =
    piece_wire whole channel (frame_flags control first false) p
    ++ wire_of channel control whole false (q ∷ ps)

IsRecord-pos : (p : List ℕ) → IsRecord p → 0 < length p
IsRecord-pos p v = omega (arith, v.sized)

emit-wire_of :
    (channel : ℕ) (control : Bool) (whole index count : ℕ) (p : List ℕ) (ps : List (List ℕ))
    → All IsRecord (p ∷ ps)
    → index + length (p ∷ ps) ≡ count
    → emit channel control whole index count (p ∷ ps)
      ≡ ok (wire_of channel control whole (index == 0) (p ∷ ps))
unfolding emit
emit-wire_of channel control whole index count p [] v h =
    let last : (index + 1 == count) ≡ true = ground arith in
    let flags : ℕ = frame_flags control (index == 0) true in
    let sent = frame-framed channel flags p (IsRecord-pos p v.0) v.0.fits in
    rw (last, sent, splice_total-framed whole channel flags p)
      (ap ok (append-nil (piece_wire whole channel flags p)))
emit-wire_of channel control whole index count p (q ∷ ps) v h =
    let more_follow : (index + 1 == count) ≡ false = ground arith in
    let flags : ℕ = frame_flags control (index == 0) false in
    let sent = frame-framed channel flags p (IsRecord-pos p v.0) v.0.fits in
    let next : (index + 1 == 0) ≡ false = ground arith in
    let later = emit-wire_of channel control whole (index + 1) count q ps v.1 (omega arith) in
    rw (more_follow, sent, splice_total-framed whole channel flags p, later, next)

read-wire_of :
    (channel : ℕ) (control : Bool) (whole : ℕ) (first : Bool) (ps : List (List ℕ))
    → All IsRecord ps
    → 0 < whole
    → whole ≤ max_message
    → read packet_framing (wire_of channel control whole first ps)
      ≡ done (packets_of channel control first ps) []
unfolding packets_of packet_framing
read-wire_of channel control whole first [] v w u =
    read-more packet_framing [] (unfold packet in refl)
read-wire_of channel control whole first (p ∷ []) v w u =
    rw (← append-nil (piece_wire whole channel (frame_flags control first true) p)) (
      read-item packet_framing _ _ _ (
        packet-piece_wire whole channel (frame_flags control first true) p []
          (frame_flags_known control first true) (IsRecord-pos p v.0) v.0.fits w u)
      ∙ rw (read-more packet_framing [] (unfold packet in refl)))
read-wire_of channel control whole first (p ∷ q ∷ ps) v w u =
    read-item packet_framing _ _ _ (
      packet-piece_wire whole channel (frame_flags control first false) p
        (wire_of channel control whole false (q ∷ ps)) (frame_flags_known control first false)
        (IsRecord-pos p v.0) v.0.fits w u)
    ∙ ap
        (prepend
          (record { channel = channel; flags = frame_flags control first false; bytes = p } ∷ []))
        (read-wire_of channel control whole false (q ∷ ps) v.1 w u)

encrypted_frames-wire_of :
    (channel : ℕ) (control : Bool) (p : List ℕ) (ps : List (List ℕ))
    → All IsRecord (p ∷ ps)
    → encrypted_frames channel control (flatten (p ∷ ps))
      ≡ ok (wire_of channel control (length (flatten (p ∷ ps))) true (p ∷ ps))
unfolding encrypted_frames
encrypted_frames-wire_of channel control p ps v =
    let whole : ℕ = length (flatten (p ∷ ps)) in
    rw (split_records-flatten (p ∷ ps) whole v (omega arith))
      (emit-wire_of channel control whole 0 (length (p ∷ ps)) p ps v (omega arith))

flatten-pos : (p : List ℕ) (ps : List (List ℕ)) → IsRecord p → 0 < length (flatten (p ∷ ps))
unfolding flatten
flatten-pos p ps v = omega (arith, length-append p (flatten ps), IsRecord-pos p v)

-- TLS records of at most 65535 bytes each and 4 MiB together are sent without an error, and the
-- bytes sent read as one packet for each record, in order, on the given channel, with nothing
-- left over; the packets, taken by a receiver on which the channel is free and which has room,
-- give back the records as one message.
pub encrypted_frames-receive :
    (channel : ℕ) (control : Bool) (p : List ℕ) (ps : List (List ℕ)) (m : Fragments)
    → All IsRecord (p ∷ ps)
    → get channel m ≡ none
    → length m < 16
    → total m + length (flatten (p ∷ ps)) ≤ max_message
    → (sent : List ℕ) × (encrypted_frames channel control (flatten (p ∷ ps)) ≡ ok sent)
      × (read packet_framing sent ≡ done (packets_of channel control true (p ∷ ps)) [])
      × (receive (packets_of channel control true (p ∷ ps)) m ≡ (ok (flatten (p ∷ ps) ∷ []), m))
encrypted_frames-receive channel control p ps m v free few fits = (
  wire_of channel control (length (flatten (p ∷ ps))) true (p ∷ ps),
  encrypted_frames-wire_of channel control p ps v,
  read-wire_of channel control _ true (p ∷ ps) v (flatten-pos p ps v.0) (omega arith),
  receive-packets_of channel control p ps m free few fits,
)
