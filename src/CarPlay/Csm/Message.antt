-- ===== src/CarPlay/Csm/Message.antt =====
-- csm.rs, `Message`.
pub mod RoundTrip
use project_argo.Common.{
  ℕ, ◌+◌, List, [], ◌∷◌, ◌++◌, ltb, ◌==◌, if◌then◌else◌, not, ◌||◌, ◌&&◌, length, drop, byte_at,
  be16, be16_bytes,
}
use project_argo.CarPlay.Defs.{bounds, malformed, Result, ok, err, ◌>>=◌}
use project_argo.CarPlay.Csm.Parameters.{
  max_message, Parameter, encode_parameters, decode_parameters,
}

pub record Message : Type 0 where
  pub id : ℕ
  pub parameters : List Parameter

abbrev pub empty : ℕ → Message
empty id = record { id = id; parameters = [] }

unfoldable pub encode : Message → Result (List ℕ)
encode m = do
  parameters ← encode_parameters m.parameters
  ok (0x40 ∷ (0x40 ∷ (be16_bytes (length parameters + 6) ++ (be16_bytes m.id ++ parameters))))

unfoldable pub decode : List ℕ → Result Message
decode bytes =
    if ltb (length bytes) 6 || ltb max_message (length bytes)
    then err bounds
    else if not (byte_at bytes 0 == 0x40 && byte_at bytes 1 == 0x40)
        || not (be16 (byte_at bytes 2) (byte_at bytes 3) == length bytes)
    then err malformed
    else do
      parameters ← decode_parameters (drop 6 bytes)
      ok (record { id = be16 (byte_at bytes 4) (byte_at bytes 5); parameters = parameters })

unfoldable pub matching : ℕ → List Parameter → List Parameter
matching id [] = []
matching id (p ∷ ps) = if p.id == id then p ∷ matching id ps else matching id ps

-- The value of the parameter, if there is exactly one with the id.
unfoldable pub one : Message → ℕ → Result (List ℕ)
one m id = elim (matching id m.parameters) [
  | [] ↦ err malformed
  | p ∷ [] ↦ ok p.value
  | p ∷ q ∷ ps ↦ err malformed
]
