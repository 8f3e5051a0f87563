-- ===== src/AaWire/Examples.antt =====
-- Runs of the packet code, and its theorems at concrete inputs.
use mathlib.Core.List.{flatten}
use project_argo.Common.{ℕ, ◌≡◌, refl, List, [], ◌∷◌, true, false, arith}
use project_argo.Common.Stream.{read, done}
use project_argo.AaWire.Defs.{ok, err, fragment_overwritten}
use project_argo.AaWire.Packets.Framing.{packet_framing}
use project_argo.AaWire.Packets.Intake.{take_in, take_in-read}
use project_argo.AaWire.Messages.{Fragments, get, total, accept}
use project_argo.AaWire.Messages.Invariant.{IsBounded, accept-IsBounded}
use project_argo.AaWire.Messages.Reassembly.{receive, packets_of, receive-packets_of}
use project_argo.AaWire.Outbound.{encrypted_frames}
use project_argo.AaWire.Outbound.RoundTrip.{encrypted_frames-receive}

-- Channel 2 has begun a message.
abbrev held : Fragments
held = record { channel = 2; original = 8; bytes = 1 ∷ 2 ∷ [] } ∷ []

held-IsBounded : IsBounded held
unfolding total get
held-IsBounded = record { distinct = (refl, tt); few = omega arith; small = omega arith }

accept_twice : accept 2 9 (7 ∷ []) held ≡ (err fragment_overwritten, held)
unfolding accept get
accept_twice = refl

accept-IsBounded_example : IsBounded (accept 3 9 (7 ∷ []) held).1
accept-IsBounded_example = accept-IsBounded 3 9 (7 ∷ []) held held-IsBounded

receive-packets_of_example :
    receive (packets_of 3 true true ((1 ∷ []) ∷ (2 ∷ 3 ∷ []) ∷ [])) held
    ≡ (ok (flatten ((1 ∷ []) ∷ (2 ∷ 3 ∷ []) ∷ []) ∷ []), held)
receive-packets_of_example =
    receive-packets_of 3 true (1 ∷ []) ((2 ∷ 3 ∷ []) ∷ []) held (unfold get in refl) (omega arith)
      (unfold total flatten in omega arith)

abbrev record_one : List ℕ
record_one = 23 ∷ 3 ∷ 3 ∷ 0 ∷ 2 ∷ 8 ∷ 9 ∷ []

abbrev record_two : List ℕ
record_two = 23 ∷ 3 ∷ 3 ∷ 0 ∷ 1 ∷ 7 ∷ []

encrypted_frames-receive_example :
    (sent : List ℕ) × (encrypted_frames 3 false (flatten (record_one ∷ record_two ∷ [])) ≡ ok sent)
    × (read packet_framing sent ≡ done (packets_of 3 false true (record_one ∷ record_two ∷ [])) [])
    × (receive (packets_of 3 false true (record_one ∷ record_two ∷ [])) held
        ≡ (ok (flatten (record_one ∷ record_two ∷ []) ∷ []), held))
encrypted_frames-receive_example =
    encrypted_frames-receive 3 false record_one (record_two ∷ []) held
      (
        record { sized = refl; fits = omega arith },
        (record { sized = refl; fits = omega arith }, tt),
      )
      (unfold get in refl) (omega arith) (unfold total flatten in omega arith)

take_in-read_example :
    take_in [] ((3 ∷ 11 ∷ 0 ∷ []) ∷ (1 ∷ 9 ∷ 3 ∷ []) ∷ [])
    ≡ read packet_framing (flatten ((3 ∷ 11 ∷ 0 ∷ []) ∷ (1 ∷ 9 ∷ 3 ∷ []) ∷ []))
take_in-read_example = take_in-read ((3 ∷ 11 ∷ 0 ∷ []) ∷ (1 ∷ 9 ∷ 3 ∷ []) ∷ []) (omega arith)
