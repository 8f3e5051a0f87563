-- ===== src/CarPlay/Csm/Parameters/RoundTrip.antt =====
-- `encode_parameters` and `decode_parameters` agree.
use project_argo.Common.{
  ℕ, zero, suc, ◌+◌, ◌-◌, ◌≤◌, ◌<◌, ◌≡◌, refl, ap, ◌∙◌, List, [], ◌∷◌, ◌++◌, arith, ltb, length,
  length-append, take, drop, false, ◌||◌, ◌==◌, be16_bytes, be16-be16_bytes, take-length,
  drop-length, append_assoc, append-nil, All,
}
use project_argo.CarPlay.Defs.{ok}
use project_argo.CarPlay.Csm.Parameters.{
  Parameter, encode_loop, encode_parameters, decode_loop, decode_parameters,
}

abbrev pub parameter_bytes : Parameter → List ℕ
parameter_bytes p = be16_bytes (length p.value + 4) ++ (be16_bytes p.id ++ p.value)

abbrev pub all_bytes : List Parameter → List ℕ
all_bytes [] = []
all_bytes (p ∷ ps) = parameter_bytes p ++ all_bytes ps

-- The id fits the 16 bits that hold it.
abbrev pub IsParameter : Parameter → Type 0
IsParameter p = p.id < 65536

abbrev IsShort : Parameter → Type 0
IsShort p = length p.value + 4 ≤ 65535

encode_loop-eq-ok :
    (ps : List Parameter) (acc bs : List ℕ)
    → encode_loop ps acc ≡ ok bs
    → length acc ≤ 65519
    → (bs ≡ acc ++ all_bytes ps) × (length bs ≤ 65519) × All IsShort ps
unfolding encode_loop
encode_loop-eq-ok [] acc bs e h = ground (arith, append-nil acc)
encode_loop-eq-ok (p ∷ ps) acc bs e h = ground (
  arith,
  encode_loop-eq-ok ps (acc ++ parameter_bytes p) bs,
  length-append acc (parameter_bytes p),
  append_assoc acc (parameter_bytes p) (all_bytes ps),
)

decode_loop_step :
    (p : Parameter) (rest : List ℕ) (fields : List Parameter) (fuel : ℕ)
    → IsParameter p
    → IsShort p
    → length fields < 64
    → decode_loop (suc fuel) (parameter_bytes p ++ rest) fields
      ≡ decode_loop fuel rest (fields ++ (p ∷ []))
unfolding decode_loop
decode_loop_step p rest fields fuel i s h =
    let len : ℕ = length p.value + 4 in
    let bytes : List ℕ = parameter_bytes p ++ rest in
    let n : length bytes ≡ len + length rest = omega (arith, length-append p.value rest) in
    let d : drop len bytes ≡ rest = drop-length (parameter_bytes p) rest len (omega arith) in
    let t : take (len - 4) (p.value ++ rest) ≡ p.value =
      take-length p.value rest (len - 4) (omega arith) in
    let room : (ltb (length bytes) 4 || length fields == 64) ≡ false = ground (arith, n) in
    let whole : (ltb len 4 || ltb (length bytes) len) ≡ false = ground (arith, n) in
    rw (be16-be16_bytes len (omega arith), be16-be16_bytes p.id i, d, t, room, whole) refl

decode_loop-all_bytes :
    (ps fields : List Parameter) (fuel : ℕ)
    → All IsParameter ps
    → All IsShort ps
    → length fields + length ps ≤ 64
    → length (all_bytes ps) ≤ fuel
    → decode_loop fuel (all_bytes ps) fields ≡ ok (fields ++ ps)
decode_loop-all_bytes [] fields fuel i s h k = unfold decode_loop in rw (append-nil fields)
decode_loop-all_bytes (p ∷ ps) fields zero i s h k = absurd (omega arith)
decode_loop-all_bytes (p ∷ ps) fields (suc fuel) i s h k =
    decode_loop_step p (all_bytes ps) fields fuel i.0 s.0 (omega arith)
    ∙ decode_loop-all_bytes ps (fields ++ (p ∷ [])) fuel i.1 s.1
        (omega (arith, length-append fields (p ∷ [])))
        (omega (arith, length-append p.value (all_bytes ps)))
    ∙ ap ok (append_assoc fields (p ∷ []) ps)

-- What `encode_parameters` makes of parameters is what the wire format says, and fits a message.
pub encode_parameters-eq-ok :
    (ps : List Parameter) (bs : List ℕ)
    → encode_parameters ps ≡ ok bs
    → (bs ≡ all_bytes ps) × (length bs ≤ 65519) × (length ps ≤ 64) × All IsShort ps
unfolding encode_parameters
encode_parameters-eq-ok ps bs e = ground (arith, encode_loop-eq-ok ps [] bs)

-- Parameters that were encoded are read back, in order.
pub decode_parameters-encode_parameters :
    (ps : List Parameter) (bs : List ℕ)
    → All IsParameter ps
    → encode_parameters ps ≡ ok bs
    → decode_parameters bs ≡ ok ps
unfolding decode_parameters
decode_parameters-encode_parameters ps bs i e =
    let (p, n, k, s) = encode_parameters-eq-ok ps bs e in
    ground (arith, p, n, ap length p, decode_loop-all_bytes ps [] (length bs) i s (omega arith))
