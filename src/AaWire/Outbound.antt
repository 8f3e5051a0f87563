-- ===== src/AaWire/Outbound.antt =====
-- aa_wire.rs, `frame` and `encrypted_frames`: TLS records go out as packets, the first of
-- several with the length of the whole.
pub mod RoundTrip
use project_argo.Common.{
  ℕ, zero, suc, ◌+◌, List, [], ◌∷◌, ◌++◌, Bool, bit_and, bit_or, ltb, ◌==◌, if◌then◌else◌, length,
  take, drop, byte_at, be16, be16_bytes, be32_bytes,
}
use project_argo.AaWire.Defs.{
  outbound_frame_limit, short_tls_header, short_tls_record, Result, ok, err, ◌>>=◌,
}

unfoldable pub frame : ℕ → ℕ → List ℕ → Result (List ℕ)
frame channel flags [] = err outbound_frame_limit
frame channel flags (b ∷ bs) =
    let payload = b ∷ bs in
    if ltb 65535 (length payload)
    then err outbound_frame_limit
    else ok (channel ∷ (flags ∷ (be16_bytes (length payload) ++ payload)))

-- The first loop: `rest` is `records[offset..]`. Every round takes 5 bytes at least, so the
-- length of the records is fuel enough, and the clause without fuel is not reached.
unfoldable pub split_records : ℕ → List ℕ → Result (List (List ℕ))
split_records fuel [] = ok []
split_records zero (b ∷ bs) = err short_tls_header
split_records (suc fuel) (b ∷ bs) =
    let rest = b ∷ bs in
    let len = 5 + be16 (byte_at rest 3) (byte_at rest 4) in
    let later = split_records fuel (drop len rest) in
    if ltb (length rest) 5
    then err short_tls_header
    else if ltb (length rest) len
    then err short_tls_record
    else (later >>= λ pieces. ok (take len rest ∷ pieces))

unfoldable pub frame_flags : Bool → Bool → Bool → ℕ
frame_flags control first last =
    bit_or (bit_or (bit_or 8 (if control then 4 else 0)) (if first then 1 else 0))
      (if last then 2 else 0)

-- `packet.splice(4..4, total)` on a first fragment of several.
unfoldable pub splice_total : ℕ → ℕ → List ℕ → List ℕ
splice_total flags total packet =
    if bit_and flags 3 == 1 then take 4 packet ++ (be32_bytes total ++ drop 4 packet) else packet

-- The second loop, from the piece at `index` on, of `count` pieces.
unfoldable pub emit : ℕ → Bool → ℕ → ℕ → ℕ → List (List ℕ) → Result (List ℕ)
emit channel control total index count [] = ok []
emit channel control total index count (bytes ∷ pieces) =
    let flags = frame_flags control (index == 0) (index + 1 == count) in
    do
      packet ← frame channel flags bytes
      rest ← emit channel control total (index + 1) count pieces
      ok (splice_total flags total packet ++ rest)

unfoldable pub encrypted_frames : ℕ → Bool → List ℕ → Result (List ℕ)
encrypted_frames channel control records = do
  pieces ← split_records (length records) records
  emit channel control (length records) 0 (length pieces) pieces
