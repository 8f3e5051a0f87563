-- ===== src/CarPlay/Csm/Message/RoundTrip.antt =====
-- `Message::encode` and `Message::decode` agree.
use project_argo.Common.{
  ℕ, ◌+◌, ◌≤◌, ◌<◌, ◌≡◌, List, ◌∷◌, ◌++◌, arith, length, be16_bytes, be16-be16_bytes, All,
}
use project_argo.CarPlay.Defs.{ok}
use project_argo.CarPlay.Csm.Parameters.{encode_parameters, decode_parameters}
use project_argo.CarPlay.Csm.Parameters.RoundTrip.{
  IsParameter, encode_parameters-eq-ok, decode_parameters-encode_parameters,
}
use project_argo.CarPlay.Csm.Message.{Message, encode, decode}

abbrev message_bytes : Message → List ℕ → List ℕ
message_bytes m ps = 0x40 ∷ (0x40 ∷ (be16_bytes (length ps + 6) ++ (be16_bytes m.id ++ ps)))

encode-eq-ok :
    (m : Message) (bs : List ℕ)
    → encode m ≡ ok bs
    → (ps : List ℕ) × (encode_parameters m.parameters ≡ ok ps) × (bs ≡ message_bytes m ps)
unfolding encode
encode-eq-ok m bs e = ground arith

decode-message_bytes :
    (m : Message) (ps : List ℕ)
    → m.id < 65536
    → length ps ≤ 65519
    → decode_parameters ps ≡ ok m.parameters
    → decode (message_bytes m ps) ≡ ok m
unfolding decode
decode-message_bytes m ps h k e =
    rw (be16-be16_bytes (length ps + 6) (omega arith), be16-be16_bytes m.id h, e) (ground arith)

-- A message that was encoded is read back.
pub message_decode-encode :
    (m : Message) (bs : List ℕ)
    → m.id < 65536
    → All IsParameter m.parameters
    → encode m ≡ ok bs
    → decode bs ≡ ok m
message_decode-encode m bs h i e =
    let (ps, p, q) = encode-eq-ok m bs e in
    rw q (
      decode-message_bytes m ps h (encode_parameters-eq-ok m.parameters ps p).1
        (decode_parameters-encode_parameters m.parameters ps i p))
