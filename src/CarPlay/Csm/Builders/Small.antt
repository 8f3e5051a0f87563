-- ===== src/CarPlay/Csm/Builders/Small.antt =====
-- Parameters with short values, and how many bytes they take.
use project_argo.Common.{
  ℕ, zero, suc, ◌+◌, ◌*◌, ◌≤◌, ◌<◌, ◌≡◌, ap, sym, List, [], ◌∷◌, ◌++◌, append_assoc, append-nil,
  arith, length, length-append, All,
}
use project_argo.CarPlay.Defs.{ok, bind-ok}
use project_argo.CarPlay.Csm.Parameters.{Parameter, string, group, encode_loop, encode_parameters}
use project_argo.CarPlay.Csm.Parameters.RoundTrip.{
  parameter_bytes, all_bytes, IsParameter, encode_parameters-eq-ok,
}
use project_argo.CarPlay.Csm.Builders.{strings}

-- A parameter with a small id and a value of at most so many bytes.
abbrev pub IsSmall : ℕ → Parameter → Type 0
IsSmall n p = (p.id < 65536) × (length p.value ≤ n)

-- The bytes of so many parameters, with values of at most `n` bytes.
abbrev pub budget : ℕ → ℕ → ℕ
budget zero n = 0
budget (suc k) n = n + 4 + budget k n

length-all_bytes :
    (n : ℕ) (ps : List Parameter)
    → All (IsSmall n) ps
    → length (all_bytes ps) ≤ budget (length ps) n
length-all_bytes n [] v = omega arith
length-all_bytes n (p ∷ ps) v =
    omega (arith, length-all_bytes n ps v.1, length-append p.value (all_bytes ps))

encode_loop-small :
    (n : ℕ) (ps : List Parameter) (acc : List ℕ)
    → n ≤ 60000
    → All (IsSmall n) ps
    → length acc + length (all_bytes ps) ≤ 65519
    → encode_loop ps acc ≡ ok (acc ++ all_bytes ps)
unfolding encode_loop
encode_loop-small n [] acc h v k = ap ok (sym (append-nil acc))
encode_loop-small n (p ∷ ps) acc h v k = ground (
  arith,
  encode_loop-small n ps (acc ++ parameter_bytes p) h v.1,
  length-append p.value (all_bytes ps),
  length-append acc (parameter_bytes p),
  append_assoc acc (parameter_bytes p) (all_bytes ps),
)

string-ok :
    (id : ℕ) (value : List ℕ) (p : Parameter)
    → string id value ≡ ok p
    → (p.id ≡ id) × (length p.value ≤ 256)
unfolding string
string-ok id value p e = ground (arith, length-append value (0 ∷ []))

group-ok :
    (id : ℕ) (ps : List Parameter) (p : Parameter)
    → group id ps ≡ ok p
    → (p.id ≡ id) × (encode_parameters ps ≡ ok p.value)
unfolding group
group-ok id ps p e = ground arith

budget_lem : (k : ℕ) → budget k 2048 ≡ k * 2052
budget_lem zero = omega arith
budget_lem (suc k) = omega (arith, budget_lem k)

pub small-IsParameter : (n : ℕ) (ps : List Parameter) → All (IsSmall n) ps → All IsParameter ps
small-IsParameter n [] v = tt
small-IsParameter n (p ∷ ps) v = (v.0.0, small-IsParameter n ps v.1)

pub encode_parameters-small :
    (ps : List Parameter)
    → All (IsSmall 2048) ps
    → length ps ≤ 16
    → (encode_parameters ps ≡ ok (all_bytes ps)) × (length (all_bytes ps) ≤ 40000)
unfolding encode_parameters
encode_parameters-small ps v h =
    let k : length (all_bytes ps) ≤ 40000 =
      omega (arith, length-all_bytes 2048 ps v, budget_lem (length ps)) in
    let e : encode_loop ps [] ≡ ok (all_bytes ps) =
      encode_loop-small 2048 ps [] (omega arith) v (omega arith) in
    (ground (arith, e), k)

pub string-IsSmall :
    (id : ℕ) (value : List ℕ) (p : Parameter) → id < 65536 → string id value ≡ ok p → IsSmall 2048 p
string-IsSmall id value p h e = omega (arith, string-ok id value p e)

pub strings-IsSmall :
    (index : ℕ) (values : List (List ℕ)) (ps : List Parameter)
    → index + length values < 65536
    → strings index values ≡ ok ps
    → All (IsSmall 2048) ps × (length ps ≡ length values)
unfolding strings
strings-IsSmall index [] ps h e = ground arith
strings-IsSmall index (v ∷ vs) ps h e =
    let (p, a, f) = bind-ok (string index v) _ ps e in
    let (qs, b, g) = bind-ok (strings (index + 1) vs) _ ps f in
    let (u, n) = strings-IsSmall (index + 1) vs qs (omega arith) b in
    let w = string-IsSmall index v p (omega arith) a in ground (arith, g, u, n, w)

-- A group of at most 5 parameters with texts of at most 256 bytes.
pub group-IsSmall :
    (id : ℕ) (ps : List Parameter) (p : Parameter)
    → id < 65536
    → All (IsSmall 256) ps
    → length ps ≤ 5
    → group id ps ≡ ok p
    → IsSmall 2048 p
group-IsSmall id ps p h v k e =
    let (i, g) = group-ok id ps p e in
    let (whole, n, m, s) = encode_parameters-eq-ok ps p.value g in
    omega (arith, ap length whole, length-all_bytes 256 ps v, budget_five (length ps) k)
  where
    budget_five : (j : ℕ) → j ≤ 5 → budget j 256 ≤ 1300
    budget_five j l = omega (arith, budget_256 j)
      where
        budget_256 : (i : ℕ) → budget i 256 ≡ i * 260
        budget_256 zero = omega arith
        budget_256 (suc i) = omega (arith, budget_256 i)

pub string-short :
    (id : ℕ) (value : List ℕ) (p : Parameter) → id < 65536 → string id value ≡ ok p → IsSmall 256 p
string-short id value p h e = omega (arith, string-ok id value p e)
