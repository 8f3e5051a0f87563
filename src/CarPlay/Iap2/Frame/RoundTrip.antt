-- ===== src/CarPlay/Iap2/Frame/RoundTrip.antt =====
-- `encode` and `decode` of iap2.rs are inverse to one another.
use project_argo.Common.{
  ℕ, zero, suc, ◌+◌, ◌-◌, ◌≤◌, ◌<◌, ◌≡◌, refl, ◌⊎◌, inl, inr, ap, ◌∙◌, List, [], ◌∷◌, ◌++◌, arith,
  bit_and, length, length-append, take, be16, take-length, AreBytes,
}
use project_argo.CarPlay.Defs.{ok}
use project_argo.CarPlay.Iap2.Frame.{
  Frame, max_frame, header, checksum, encoded_length, head_bytes, with_checksum, payload_bytes,
  encode, decoded_payload, decode, wrapping_sum,
}
use project_argo.CarPlay.Iap2.Frame.Checksum.{checksum-with_checksum, checksum_unique}

-- A frame that can be sent.
pub record IsFrame (f : Frame) : Type 0 where
  pub short : encoded_length f.payload ≤ max_frame
  pub known : bit_and f.flags 0x0f ≡ 0

abbrev pub wire : Frame → List ℕ
wire f = with_checksum (head_bytes f) ++ payload_bytes f.payload

pub encode-wire : (f : Frame) → IsFrame f → encode f ≡ ok (wire f)
unfolding encode
encode-wire f v = ground arith

pub encode-eq-ok : (f : Frame) (bs : List ℕ) → encode f ≡ ok bs → IsFrame f × (bs ≡ wire f)
unfolding encode
encode-eq-ok f bs e = ground arith

length-payload_bytes : (p : List ℕ) → length (payload_bytes p) + header ≡ encoded_length p
unfolding payload_bytes encoded_length with_checksum
length-payload_bytes [] = refl
length-payload_bytes (b ∷ bs) = omega (arith, length-append bs (checksum (b ∷ bs) ∷ []))

pub length-wire : (f : Frame) → length (wire f) ≡ encoded_length f.payload
unfolding with_checksum head_bytes
length-wire f = omega (arith, length-payload_bytes f.payload)

checksum-payload_bytes : (p : List ℕ) → checksum (payload_bytes p) ≡ 0
unfolding payload_bytes
checksum-payload_bytes [] = unfold checksum wrapping_sum in refl
checksum-payload_bytes (b ∷ bs) = checksum-with_checksum (b ∷ bs)

-- The two forms of a frame: without a payload, and with one behind which a checksum stands.
payload_forms :
    (p : List ℕ)
    → ((p ≡ []) × (encoded_length p ≡ header))
      ⊎ ((encoded_length p ≡ length p + 10) × (header + 1 < encoded_length p))
unfolding encoded_length
payload_forms [] = inl (refl, refl)
payload_forms (b ∷ bs) = inr (omega arith, omega arith)

take-payload_bytes : (p : List ℕ) (n : ℕ) → n ≡ length p → take n (payload_bytes p) ≡ p
unfolding payload_bytes with_checksum
take-payload_bytes [] zero e = refl
take-payload_bytes [] (suc n) e = absurd (omega arith)
take-payload_bytes (b ∷ bs) n e = take-length (b ∷ bs) (checksum (b ∷ bs) ∷ []) n e

decoded_payload-wire : (f : Frame) → decoded_payload (wire f) ≡ f.payload
unfolding decoded_payload head_bytes with_checksum
decoded_payload-wire f = ground (
  arith,
  length-payload_bytes f.payload,
  payload_forms f.payload,
  take-payload_bytes f.payload (length (payload_bytes f.payload) - 1),
)

-- A frame that `encode` accepts is what `decode` makes of the bytes.
pub decode-wire : (f : Frame) → IsFrame f → decode (wire f) ≡ ok f
unfolding decode head_bytes with_checksum
decode-wire f v = ground (
  arith,
  length-payload_bytes f.payload,
  payload_forms f.payload,
  checksum-payload_bytes f.payload,
  checksum-with_checksum (head_bytes f),
  decoded_payload-wire f,
)

-- The bytes of a frame decode to the frame that was encoded.
pub decode-encode : (f : Frame) (bs : List ℕ) → encode f ≡ ok bs → decode bs ≡ ok f
decode-encode f bs e = let (v, p) = encode-eq-ok f bs e in rw p (decode-wire f v)

-- A list that is not empty, from its end.
unsnoc :
    (x : ℕ) (xs : List ℕ)
    → AreBytes (x ∷ xs)
    → (front : List ℕ) × (last : ℕ) × (x ∷ xs ≡ front ++ (last ∷ [])) × (last < 256)
unsnoc x [] v = ([], x, refl, v.0)
unsnoc x (y ∷ ys) v =
    let (front, last, e, h) = unsnoc y ys v.1 in (x ∷ front, last, ap (λ t. x ∷ t) e, h)

closed-payload_bytes :
    (front : List ℕ) (last : ℕ)
    → 0 < length front
    → last < 256
    → checksum (front ++ (last ∷ [])) ≡ 0
    → payload_bytes (take (length front) (front ++ (last ∷ []))) ≡ front ++ (last ∷ [])
unfolding payload_bytes with_checksum
closed-payload_bytes [] last h k e = absurd (omega arith)
closed-payload_bytes (b ∷ front) last h k e =
    rw (take-length front (last ∷ []) (length front) refl, checksum_unique (b ∷ front) last k e)

rebuilt :
    (x : ℕ) (xs : List ℕ)
    → AreBytes (x ∷ xs)
    → 0 < length xs
    → checksum (x ∷ xs) ≡ 0
    → payload_bytes (take (length xs) (x ∷ xs)) ≡ x ∷ xs
rebuilt x xs v h e =
    let (front, last, p, k) = unsnoc x xs v in
    let n : length xs ≡ length front =
      omega (arith, ap length p, length-append front (last ∷ [])) in
    rw (n, p) (closed-payload_bytes front last (omega arith) k (rw p at e))

-- A frame whose parts stand in the bytes, closed by the checksums, encodes to them.
module _ (c d e g h i j : ℕ) (rest : List ℕ) (f : Frame) where
  abbrev front : List ℕ
  front = 0xff ∷ 0x5a ∷ c ∷ d ∷ e ∷ g ∷ h ∷ i ∷ []

  record IsRead : Type 0 where
    known : bit_and e 0x0f ≡ 0
    fields : (f.flags ≡ e) × (f.sequence ≡ g) × (f.acknowledgement ≡ h) × (f.session ≡ i)
    sized : encoded_length f.payload ≡ be16 c d
    bytes : (c < 256) × (d < 256)
    closed : j ≡ checksum front
    body : payload_bytes f.payload ≡ rest

  head_bytes-read : IsRead → head_bytes f ≡ front
  unfolding head_bytes
  head_bytes-read r = ground (arith, r.sized)

  encode-read : IsRead → encode f ≡ ok (front ++ (j ∷ rest))
  unfolding with_checksum
  encode-read r =
      encode-wire f (record { short = omega (arith, r.sized); known = rw (r.fields.0) r.known })
      ∙ ap ok (rw (head_bytes-read r, r.body, r.closed))

decode-IsRead_short :
    (a b c d e g h i j : ℕ) (f : Frame)
    → AreBytes (a ∷ b ∷ c ∷ d ∷ e ∷ g ∷ h ∷ i ∷ j ∷ [])
    → decode (a ∷ b ∷ c ∷ d ∷ e ∷ g ∷ h ∷ i ∷ j ∷ []) ≡ ok f
    → (a ≡ 0xff) × (b ≡ 0x5a) × IsRead c d e g h i j [] f
unfolding decode decoded_payload encoded_length payload_bytes
decode-IsRead_short a b c d e g h i j f v q =
    ground (arith, checksum_unique (a ∷ b ∷ c ∷ d ∷ e ∷ g ∷ h ∷ i ∷ []) j)

decode-IsRead_long :
    (a b c d e g h i j x : ℕ) (xs : List ℕ) (f : Frame)
    → AreBytes (a ∷ b ∷ c ∷ d ∷ e ∷ g ∷ h ∷ i ∷ j ∷ x ∷ xs)
    → decode (a ∷ b ∷ c ∷ d ∷ e ∷ g ∷ h ∷ i ∷ j ∷ x ∷ xs) ≡ ok f
    → (a ≡ 0xff) × (b ≡ 0x5a) × IsRead c d e g h i j (x ∷ xs) f
unfolding decode decoded_payload
decode-IsRead_long a b c d e g h i j x xs f v q = ground (
  arith,
  checksum_unique (a ∷ b ∷ c ∷ d ∷ e ∷ g ∷ h ∷ i ∷ []) j,
  rebuilt x xs,
  length-payload_bytes f.payload,
  payload_forms f.payload,
)

-- Bytes that decode are the bytes that `encode` gives for the frame.
pub encode-decode : (bs : List ℕ) (f : Frame) → AreBytes bs → decode bs ≡ ok f → encode f ≡ ok bs
unfolding decode
encode-decode (a ∷ b ∷ c ∷ d ∷ e ∷ g ∷ h ∷ i ∷ j ∷ []) f v q =
    let (p, r, s) = decode-IsRead_short a b c d e g h i j f v q in
    rw (p, r) (encode-read c d e g h i j [] f s)
encode-decode (a ∷ b ∷ c ∷ d ∷ e ∷ g ∷ h ∷ i ∷ j ∷ x ∷ xs) f v q =
    let (p, r, s) = decode-IsRead_long a b c d e g h i j x xs f v q in
    rw (p, r) (encode-read c d e g h i j (x ∷ xs) f s)
encode-decode _ f v q = ground arith
