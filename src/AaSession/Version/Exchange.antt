-- ===== src/AaSession/Version/Exchange.antt =====
-- The exchange of `negotiate_version` over a transport that delivers what the phone sent.
use Prim.Native.String.{String}
use project_argo.Common.{
  ℕ, zero, suc, ◌+◌, ◌-◌, ◌/◌, ◌%◌, ◌≤◌, ◌<◌, ◌≡◌, refl, sym, ap, ◌∙◌, Option, none, some, List, [],
  ◌∷◌, ◌++◌, le→not_ltb, length, length-append, be16, be16_bytes, arith, append_assoc, append-nil,
  take, drop, take-append, take-append-drop, take-length, drop-append, drop-length, length-drop,
}
use project_argo.Common.Stream.{done, read}
use project_argo.AaSession.Frame.{Frame, ok, encode_frame, push, next_frame}
use project_argo.AaSession.Framing.{frames_framing}
use project_argo.AaSession.Push.{answer, push-read}
use project_argo.AaSession.RoundTrip.{IsFrame, wire, read-wires}
use project_argo.AaSession.Version.{
  AndroidAutoTransport, got, good, version_request_frame_minor, parse_version_response,
  decode_response, protocol_minor, fill, read_payload, read_response, send_request,
  negotiate_version,
}

-- A transport that takes the request and then delivers the bytes of the phone, `pending`, in
-- pieces of its own choice, at least one byte at a time.
pub record IsReliable (tr : AndroidAutoTransport) : Type 0 where
  pub pending : tr.State → List ℕ
  pub delivers :
      (room : ℕ) (s : tr.State)
      → 0 < room
      → 0 < length (pending s)
      → (c : ℕ) × (cs : List ℕ) × (t : tr.State) × (tr.read room s ≡ (got (c ∷ cs), t))
        × (pending s ≡ (c ∷ cs) ++ pending t)
  pub accepts :
      (bs : List ℕ) (s : tr.State)
      → (t : tr.State) × (tr.write_all bs s ≡ (none, t)) × (pending t ≡ pending s)

-- Two ways to cut a list: the shorter front is a prefix of the longer one.
cut_front :
    {A : Type 0} (front back xs rest : List A)
    → front ++ back ≡ xs ++ rest
    → length front ≤ length xs
    → (xs ≡ front ++ drop (length front) xs) × (back ≡ drop (length front) xs ++ rest)
cut_front front back xs rest e h =
    let n = length front in
    let same : take n xs ≡ front =
      sym (take-append n xs rest h) ∙ ap (take n) (sym e) ∙ take-length front back n refl in
    (
      sym (take-append-drop n xs) ∙ ap (λ t. t ++ drop n xs) same,
      sym (drop-length front back n refl) ∙ ap (drop n) e ∙ drop-append n xs rest h,
    )

module _ (tr : AndroidAutoTransport) (r : IsReliable tr) where
  fill_step :
      (fuel len : ℕ) (prior : List ℕ) (s t : tr.State) (b : ℕ) (bs : List ℕ)
      → length prior < len
      → tr.read (len - length prior) s ≡ (got (b ∷ bs), t)
      → fill tr (suc fuel) len prior s ≡ fill tr fuel len (prior ++ (b ∷ bs)) t
  unfolding fill
  fill_step fuel len prior s t b bs h e = ground arith

  fill_full :
      (fuel len : ℕ) (prior : List ℕ) (s : tr.State)
      → len ≤ length prior
      → fill tr fuel len prior s ≡ (good prior, s)
  unfolding fill
  fill_full zero len prior s h = refl
  fill_full (suc fuel) len prior s h = rw (le→not_ltb (length prior) len h)

  -- The bytes that are missing arrive, and not one more is read.
  abbrev Arrives : ℕ → ℕ → List ℕ → List ℕ → List ℕ → tr.State → Type 0
  Arrives fuel len prior xs rest s =
      (t : tr.State) × (fill tr fuel len prior s ≡ (good (prior ++ xs), t)) × (r.pending t ≡ rest)

  fill_turn :
      (fuel len : ℕ) (prior xs rest : List ℕ) (s t : tr.State) (c : ℕ) (cs : List ℕ)
      → ((ys : List ℕ)
          → r.pending t ≡ ys ++ rest
          → length (prior ++ (c ∷ cs)) + length ys ≡ len
          → length ys ≤ fuel
          → Arrives fuel len (prior ++ (c ∷ cs)) ys rest t)
      → r.pending s ≡ xs ++ rest
      → length prior + length xs ≡ len
      → 0 < length xs
      → length xs ≤ suc fuel
      → tr.read (len - length prior) s ≡ (got (c ∷ cs), t)
      → r.pending s ≡ (c ∷ cs) ++ r.pending t
      → Arrives (suc fuel) len prior xs rest s
  fill_turn fuel len prior xs rest s t c cs on p n h k e q =
      let ys = drop (length (c ∷ cs)) xs in
      let fits = tr.fits (len - length prior) s (c ∷ cs) t e in
      let (front, back) =
        cut_front (c ∷ cs) (r.pending t) xs rest (sym q ∙ p) (omega (arith, fits)) in
      let (u, f, g) =
        on ys back
          (omega (arith, fits, length-append prior (c ∷ cs), length-drop (length (c ∷ cs)) xs))
          (omega (arith, length-drop (length (c ∷ cs)) xs)) in
      (
        u,
        fill_step fuel len prior s t c cs (omega arith) e
            ∙ f
            ∙ ap (λ z. (good z, u))
                (append_assoc prior (c ∷ cs) ys ∙ ap (λ z. prior ++ z) (sym front)),
        g,
      )

  fill_delivers :
      (fuel len : ℕ) (prior xs rest : List ℕ) (s : tr.State)
      → r.pending s ≡ xs ++ rest
      → length prior + length xs ≡ len
      → length xs ≤ fuel
      → Arrives fuel len prior xs rest s
  fill_delivers fuel len prior [] rest s p n k =
      (s, fill_full fuel len prior s (omega arith) ∙ rw (append-nil prior), p)
  fill_delivers zero len prior (x ∷ xs) rest s p n k = absurd (omega arith)
  fill_delivers (suc fuel) len prior (x ∷ xs) rest s p n k =
      let (c, cs, t, e, q) =
        r.delivers (len - length prior) s (omega arith) (omega (arith, ap length p)) in
      fill_turn fuel len prior (x ∷ xs) rest s t c cs
        (λ ys. fill_delivers fuel len (prior ++ (c ∷ cs)) ys rest t) p n (omega arith) k e q

push-wire : (f : Frame) → IsFrame f → push [] (wire f) ≡ (ok (f ∷ []), [])
push-wire f v = push-read [] (wire f) (omega (arith, v.at_most)) ∙ ap answer whole
  where
    whole : read frames_framing (wire f) ≡ done (f ∷ []) []
    whole =
        rw (append-nil, append-nil) at (read-wires (f ∷ []) [] (v, tt) (unfold next_frame in refl))

decode_response-wire :
    (f : Frame) → IsFrame f → decode_response (good (wire f)) ≡ parse_version_response f
unfolding decode_response
decode_response-wire f v = rw (push-wire f v, decode_response)

read_payload_delivers :
    (tr : AndroidAutoTransport) (r : IsReliable tr) (f : Frame) (rest : List ℕ) (s : tr.State)
    → IsFrame f
    → r.pending s ≡ f.payload ++ rest
    → (t : tr.State) × (read_payload tr (f.channel ∷ (f.flags ∷ be16_bytes (length f.payload))) s
        ≡ (parse_version_response f, t))
      × (r.pending t ≡ rest)
unfolding read_payload
read_payload_delivers tr r f rest s v p =
    let len : ℕ = length f.payload in
    let header : List ℕ = f.channel ∷ (f.flags ∷ be16_bytes len) in
    let same : be16 (len / 256 % 256) (len % 256) ≡ len = omega (arith, v.at_most) in
    let (t, e, q) =
      fill_delivers tr r len (4 + len) header f.payload rest s p (omega arith) (omega arith) in
    (t, rw (same, e) (rw (decode_response-wire f v) (ground arith)), q)

abbrev request : ℕ → List ℕ
request minor = 0 ∷ 3 ∷ 0 ∷ 6 ∷ 0 ∷ 1 ∷ 0 ∷ 1 ∷ be16_bytes minor

request_lem : (minor : ℕ) → encode_frame (version_request_frame_minor minor) ≡ ok (request minor)
unfolding encode_frame version_request_frame_minor
request_lem minor = refl

read_response_step :
    (tr : AndroidAutoTransport) (s t : tr.State) (header : List ℕ)
    → fill tr 4 4 [] s ≡ (good header, t)
    → read_response tr s ≡ read_payload tr header t
unfolding read_response
read_response_step tr s t header e = ground arith

send_request_step :
    (tr : AndroidAutoTransport) (minor : ℕ) (s t : tr.State)
    → tr.write_all (request minor) s ≡ (none, t)
    → send_request tr minor s ≡ read_response tr t
unfolding send_request
send_request_step tr minor s t w = rw (request_lem minor, send_request) (ground arith)

read_response_delivers :
    (tr : AndroidAutoTransport) (r : IsReliable tr) (f : Frame) (rest : List ℕ) (s : tr.State)
    → IsFrame f
    → r.pending s ≡ wire f ++ rest
    → (t : tr.State) × (read_response tr s ≡ (parse_version_response f, t)) × (r.pending t ≡ rest)
read_response_delivers tr r f rest s v p =
    let header : List ℕ = f.channel ∷ (f.flags ∷ be16_bytes (length f.payload)) in
    let (t, h, q) =
      fill_delivers tr r 4 4 [] header (f.payload ++ rest) s p (omega arith) (omega arith) in
    let (u, d, o) = read_payload_delivers tr r f rest t v q in
    (u, read_response_step tr s t header h ∙ d, o)

-- With a valid minor version of the protocol, and over a transport that accepts the request and
-- delivers what the phone sent: where the phone sent a frame with the flags of a plaintext single
-- frame and a payload of 2 to 32768 bytes, and anything behind it, the negotiation takes exactly
-- this frame off the stream, in whatever pieces it arrives, and answers what
-- `parse_version_response` says of it; the bytes behind the frame, which belong to TLS, stay in the
-- transport.
pub negotiate_version-wire :
    (tr : AndroidAutoTransport) (r : IsReliable tr) (value : Option String) (minor : ℕ) (f : Frame)
    (rest : List ℕ) (s : tr.State)
    → protocol_minor value ≡ some minor
    → IsFrame f
    → r.pending s ≡ wire f ++ rest
    → (t : tr.State) × (negotiate_version tr value s ≡ (parse_version_response f, t))
      × (r.pending t ≡ rest)
unfolding negotiate_version
negotiate_version-wire tr r value minor f rest s e v p =
    let (t, w, q) = r.accepts (request minor) s in
    let (u, d, o) = read_response_delivers tr r f rest t v (q ∙ p) in
    (u, rw (e, negotiate_version) (send_request_step tr minor s t w ∙ d), o)
