-- ===== src/AaSession/Examples.antt =====
-- Runs of the session code, and its theorems at concrete inputs.
use mathlib.Core.List.{flatten}
use project_argo.Common.{
  ℕ, zero, suc, ◌≤◌, ◌<◌, ◌≡◌, refl, List, [], ◌∷◌, ◌++◌, none, arith, length, All,
}
use project_argo.Common.Stream.{read}
use project_argo.AaSession.Frame.{
  encode_frame, Frame, ok, err, unsupported_flags, next_frame, split_loop, push,
}
use project_argo.AaSession.Framing.{frames_framing}
use project_argo.AaSession.Push.{answer, push_all, push_all-read}
use project_argo.AaSession.RoundTrip.{wire, push_all-wires, IsFrame}
use project_argo.AaSession.Version.{
  AndroidAutoTransport, ReadResult, got, parse_version_response, protocol_minor, negotiate_version,
}
use project_argo.AaSession.Version.Exchange.{IsReliable, negotiate_version-wire}

abbrev response : Frame
response = record { channel = 0; flags = 3; payload = 0 ∷ 2 ∷ 0 ∷ 1 ∷ 0 ∷ 1 ∷ 0 ∷ 0 ∷ [] }

response-IsFrame : IsFrame response
response-IsFrame = record { plain = refl; at_least = omega arith; at_most = omega arith }

-- The request of protocol 1.1 on the wire.
push_bad : push [] (0 ∷ 11 ∷ 0 ∷ 2 ∷ []) ≡ (err (unsupported_flags 11), [])
unfolding push split_loop next_frame
push_bad = refl

abbrev pieces : List (List ℕ)
pieces = (0 ∷ 3 ∷ 0 ∷ []) ∷ (8 ∷ 0 ∷ 2 ∷ 0 ∷ 1 ∷ 0 ∷ []) ∷ (1 ∷ 0 ∷ 0 ∷ 0 ∷ 3 ∷ []) ∷ []

push_all-read_example : push_all [] pieces ≡ answer (read frames_framing (flatten pieces))
push_all-read_example = push_all-read pieces (omega arith)

push_all-wires_example :
    All (λ (f : Frame). encode_frame f ≡ ok (wire f)) (response ∷ [])
    × (push_all [] pieces ≡ (ok (response ∷ []), 0 ∷ 3 ∷ []))
push_all-wires_example =
    push_all-wires (response ∷ []) (0 ∷ 3 ∷ []) pieces (response-IsFrame, tt)
      (unfold next_frame in refl) (omega arith) (unfold flatten in refl)

-- A transport that gives one byte at a time.
abbrev one_byte : List ℕ → ReadResult × List ℕ
one_byte [] = (got [], [])
one_byte (b ∷ bs) = (got (b ∷ []), bs)

drip_read : ℕ → List ℕ → ReadResult × List ℕ
drip_read room s = elim room [ zero ↦ (got [], s) | suc n ↦ one_byte s ]

drip_fits : (room : ℕ) (s bs t : List ℕ) → drip_read room s ≡ (got bs, t) → length bs ≤ room
unfolding drip_read
drip_fits zero s bs t e = ground arith
drip_fits (suc room) [] bs t e = ground arith
drip_fits (suc room) (x ∷ xs) bs t e = ground arith

abbrev drip : AndroidAutoTransport
drip = record { State = List ℕ; read = drip_read; write_all = λ bs s. (none, s); fits = drip_fits }

drip_delivers :
    (room : ℕ) (s : List ℕ)
    → 0 < room
    → 0 < length s
    → (c : ℕ) × (cs : List ℕ) × (t : List ℕ) × (drip_read room s ≡ (got (c ∷ cs), t))
      × (s ≡ (c ∷ cs) ++ t)
unfolding drip_read
drip_delivers zero s h k = absurd (omega arith)
drip_delivers (suc room) [] h k = absurd (omega arith)
drip_delivers (suc room) (x ∷ xs) h k = (x, [], xs, refl, refl)

drip-IsReliable : IsReliable drip
drip-IsReliable = record {
  pending = λ s. s;
  delivers = drip_delivers;
  accepts = λ bs s. (s, refl, refl);
}

negotiate_version-wire_example :
    (t : List ℕ) × (negotiate_version drip none (wire response ++ (22 ∷ []))
      ≡ (parse_version_response response, t))
    × (drip-IsReliable.pending t ≡ 22 ∷ [])
negotiate_version-wire_example =
    negotiate_version-wire drip drip-IsReliable none 1 response (22 ∷ [])
      (wire response ++ (22 ∷ [])) (unfold protocol_minor in refl) response-IsFrame
      (unfold drip-IsReliable in refl)
