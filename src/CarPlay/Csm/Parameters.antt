-- ===== src/CarPlay/Csm/Parameters.antt =====
-- csm.rs, `Parameter`, `encode_parameters` and `decode_parameters`. A text is its UTF-8 bytes.
pub mod RoundTrip
use project_argo.Common.{
  ℕ, zero, suc, ◌+◌, ◌-◌, List, [], ◌∷◌, ◌++◌, Bool, false, ltb, ◌==◌, if◌then◌else◌, ◌||◌, length,
  take, drop, byte_at, be16, be16_bytes,
}
use project_argo.CarPlay.Defs.{bounds, malformed, Result, ok, err, ◌>>=◌}

abbrev pub max_message : ℕ
max_message = 65525

abbrev pub max_params : ℕ
max_params = 64

pub record Parameter : Type 0 where
  pub id : ℕ
  pub value : List ℕ

abbrev pub parameter : ℕ → List ℕ → Parameter
parameter id value = record { id = id; value = value }

unfoldable pub has_control : List ℕ → Bool
has_control [] = false
has_control (b ∷ bs) = b == 0 || ltb b 0x20 || has_control bs

unfoldable pub string : ℕ → List ℕ → Result Parameter
string id value =
    if length value == 0 || ltb 255 (length value) || has_control value
    then err bounds
    else ok (parameter id (value ++ (0 ∷ [])))

-- The loop, with the bytes written so far.
unfoldable pub encode_loop : List Parameter → List ℕ → Result (List ℕ)
encode_loop [] bytes = ok bytes
encode_loop (p ∷ ps) bytes =
    let len = length p.value + 4 in
    let rest = encode_loop ps (bytes ++ (be16_bytes len ++ (be16_bytes p.id ++ p.value))) in
    if ltb 65535 len || ltb (max_message - 6) (length bytes + len) then err bounds else rest

unfoldable pub encode_parameters : List Parameter → Result (List ℕ)
encode_parameters ps = if ltb max_params (length ps) then err bounds else encode_loop ps []

unfoldable pub group : ℕ → List Parameter → Result Parameter
group id fields = do value ← encode_parameters fields; ok (parameter id value)

-- The loop, with the fields read so far. Each round takes 4 bytes at least, so the length of the
-- bytes is fuel enough, and the clause without fuel is not reached.
unfoldable pub decode_loop : ℕ → List ℕ → List Parameter → Result (List Parameter)
decode_loop fuel [] fields = ok fields
decode_loop zero (b ∷ bs) fields = err bounds
decode_loop (suc fuel) (b ∷ bs) fields =
    let bytes = b ∷ bs in
    let len = be16 (byte_at bytes 0) (byte_at bytes 1) in
    let field =
      parameter (be16 (byte_at bytes 2) (byte_at bytes 3)) (take (len - 4) (drop 4 bytes)) in
    let rest = decode_loop fuel (drop len bytes) (fields ++ (field ∷ [])) in
    if ltb (length bytes) 4 || length fields == max_params
    then err bounds
    else if ltb len 4 || ltb (length bytes) len
    then err malformed
    else rest

unfoldable pub decode_parameters : List ℕ → Result (List Parameter)
decode_parameters bytes =
    if ltb (max_message - 6) (length bytes) then err bounds else decode_loop (length bytes) bytes []
