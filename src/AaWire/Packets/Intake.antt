-- ===== src/AaWire/Packets/Intake.antt =====
-- `PacketDecoder` fed piece by piece: `push`, then `packet` until it answers `None`.
use mathlib.Core.List.{flatten}
use project_argo.Common.{
  ℕ, ◌+◌, ◌*◌, ◌≤◌, ◌<◌, ◌≡◌, refl, sym, ap, ◌∙◌, inl, inr, List, [], ◌∷◌, ◌++◌, arith, All, length,
  le→not_ltb, All-drop, All-append, IsByte, append-nil, append_assoc, byte_at, be16, AreBytes,
}
use project_argo.Common.Stream.{
  more, item, Outcome, done, broke, stuck, prepend, read, read-more, read-append, read-ne-stuck,
  resume,
}
use project_argo.Common.Stream.Feed.{Outcome-cases, settled, kept}
use project_argo.AaWire.Defs.{Error, ok, err, Packet}
use project_argo.AaWire.Packets.{push, packet, header_size}
use project_argo.AaWire.Packets.Framing.{packet_framing}

-- A buffer without a complete packet is shorter than the longest packet.
unfinished_short : (buf : List ℕ) → AreBytes buf → packet buf ≡ more → length buf < 65543
unfolding packet
unfinished_short [] v h = omega arith
unfinished_short (a ∷ []) v h = omega arith
unfinished_short (a ∷ b ∷ []) v h = omega arith
unfinished_short (a ∷ b ∷ c ∷ []) v h = omega arith
unfinished_short (a ∷ b ∷ c ∷ d ∷ buf) v h = ground arith

-- The packets of one piece after another, up to the first error.
pub take_in : List ℕ → List (List ℕ) → Outcome Error Packet
take_in buf [] = done [] buf
take_in buf (c ∷ cs) = elim (push buf c) [
  | err e ↦ broke [] e
  | ok b ↦ elim (read packet_framing b) [
    | done xs rest ↦ prepend xs (take_in rest cs)
    | broke xs e ↦ broke xs e
    | stuck ↦ stuck
  ]
]

abbrev pub IsPiece : List ℕ → Type 0
IsPiece c = (length c ≤ 65529) × AreBytes c

packet_keeps_bytes :
    (buf : List ℕ) (a : Packet) (rest : List ℕ)
    → packet buf ≡ item a rest
    → AreBytes buf
    → AreBytes rest
unfolding packet
packet_keeps_bytes buf a rest e v =
    let n = header_size (byte_at buf 1) + be16 (byte_at buf 2) (byte_at buf 3) in
    ground (arith, All-drop IsByte n buf v)

push_room :
    (buf c : List ℕ)
    → AreBytes buf
    → packet buf ≡ more
    → length c ≤ 65529
    → push buf c ≡ ok (buf ++ c)
unfolding push
push_room buf c v h k =
    rw (le→not_ltb (128 * 1024) (length buf + length c) (omega (arith, unfinished_short buf v h)))

take_in-read_from :
    (buf : List ℕ) (cs : List (List ℕ))
    → AreBytes buf
    → packet buf ≡ more
    → All IsPiece cs
    → take_in buf cs ≡ read packet_framing (buf ++ flatten cs)
unfolding take_in flatten packet_framing
take_in-read_from buf [] v h k = rw (append-nil buf) (sym (read-more packet_framing buf h))
take_in-read_from buf (c ∷ cs) v h k = elim (Outcome-cases (read packet_framing (buf ++ c))) [
  | inl (xs, rest, e) ↦
      rw (room, e, take_in)
        (ap (prepend xs) (
            take_in-read_from rest cs
              (kept packet_framing AreBytes packet_keeps_bytes (buf ++ c) xs rest bytes e)
              (settled packet_framing (buf ++ c) xs rest e) k.1)
          ∙ sym (split (done xs rest) e))
  | inr (inl (xs, x, e)) ↦ rw (room, e, take_in) (sym (split (broke xs x) e))
  | inr (inr e) ↦ absurd (read-ne-stuck packet_framing (buf ++ c) e)
]
  where
    room : push buf c ≡ ok (buf ++ c)
    room = push_room buf c v h k.0.0

    bytes : AreBytes (buf ++ c)
    bytes = All-append IsByte buf c v k.0.1

    split :
        (o : Outcome Error Packet)
        → read packet_framing (buf ++ c) ≡ o
        → read packet_framing (buf ++ (c ++ flatten cs)) ≡ resume packet_framing o (flatten cs)
    split o e =
        ap (read packet_framing) (sym (append_assoc buf c (flatten cs)))
        ∙ read-append packet_framing (buf ++ c) (flatten cs)
        ∙ ap (λ t. resume packet_framing t (flatten cs)) e

-- Whatever way the transport cuts a stream of bytes into pieces of at most 65529 bytes, the
-- decoder never meets its buffer limit, and gives the packets, the bytes left over or the error
-- that the whole stream gives.
pub take_in-read :
    (cs : List (List ℕ)) → All IsPiece cs → take_in [] cs ≡ read packet_framing (flatten cs)
take_in-read cs k = take_in-read_from [] cs tt (unfold packet in refl) k
