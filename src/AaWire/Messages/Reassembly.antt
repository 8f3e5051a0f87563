-- ===== src/AaWire/Messages/Reassembly.antt =====
-- A message that was cut into fragments comes out whole.
use mathlib.Core.List.{flatten}
use project_argo.Common.{
  ℕ, ◌+◌, ◌≤◌, ◌<◌, ◌≡◌, List, [], ◌∷◌, ◌++◌, Option, none, some, Bool, true, false, if◌then◌else◌,
  length, length-append, arith, append_assoc, append-nil,
}
use project_argo.AaWire.Defs.{Result, ok, err, max_message, Packet}
use project_argo.AaWire.Messages.{Fragment, Fragments, get, remove, extend, total, continue, accept}
use project_argo.AaWire.Outbound.{frame_flags}

-- What `accept` answers for packet after packet, up to the first error: the messages completed.
abbrev collect :
    Option (List ℕ) → Result (List (List ℕ)) × Fragments → Result (List (List ℕ)) × Fragments
collect (some b) (ok bs, m) = (ok (b ∷ bs), m)
collect _ (r, m) = (r, m)

abbrev go_on :
    Result (Option (List ℕ)) × Fragments
    → (Fragments → Result (List (List ℕ)) × Fragments)
    → Result (List (List ℕ)) × Fragments
go_on (ok out, m) k = collect out (k m)
go_on (err e, m) k = (err e, m)

unfoldable pub receive : List Packet → Fragments → Result (List (List ℕ)) × Fragments
receive [] m = (ok [], m)
receive (p ∷ ps) m = go_on (accept p.channel p.flags p.bytes m) (λ n. receive ps n)

-- The packets of a message in pieces.
unfoldable pub packets_of : ℕ → Bool → Bool → List (List ℕ) → List Packet
packets_of channel control first [] = []
packets_of channel control first (p ∷ []) =
    record { channel = channel; flags = frame_flags control first true; bytes = p } ∷ []
packets_of channel control first (p ∷ q ∷ ps) =
    record { channel = channel; flags = frame_flags control first false; bytes = p }
    ∷ packets_of channel control false (q ∷ ps)

-- The entry of a channel with the bytes so far, in front of the others.
abbrev entry : ℕ → Bool → List ℕ → Fragment
entry channel control bytes = record {
  channel = channel;
  original = if control then 12 else 8;
  bytes = bytes;
}

accept_whole :
    (channel : ℕ) (control : Bool) (p : List ℕ) (m : Fragments)
    → get channel m ≡ none
    → accept channel (frame_flags control true true) p m ≡ (ok (some p), m)
unfolding accept frame_flags
accept_whole channel true p m h = ground arith
accept_whole channel false p m h = ground arith

accept_first :
    (channel : ℕ) (control : Bool) (p : List ℕ) (m : Fragments)
    → get channel m ≡ none
    → length m < 16
    → total m + length p ≤ max_message
    → accept channel (frame_flags control true false) p m ≡ (ok none, entry channel control p ∷ m)
unfolding accept continue frame_flags get extend total
accept_first channel true p m h k t = ground arith
accept_first channel false p m h k t = ground arith

accept_middle :
    (channel : ℕ) (control : Bool) (p so_far : List ℕ) (m : Fragments)
    → total m + length so_far + length p ≤ max_message
    → accept channel (frame_flags control false false) p (entry channel control so_far ∷ m)
      ≡ (ok none, entry channel control (so_far ++ p) ∷ m)
unfolding accept continue frame_flags get extend total
accept_middle channel true p so_far m t = ground arith
accept_middle channel false p so_far m t = ground arith

accept_last :
    (channel : ℕ) (control : Bool) (p so_far : List ℕ) (m : Fragments)
    → total m + length so_far + length p ≤ max_message
    → accept channel (frame_flags control false true) p (entry channel control so_far ∷ m)
      ≡ (ok (some (so_far ++ p)), m)
unfolding accept continue frame_flags get remove total
accept_last channel true p so_far m t = ground arith
accept_last channel false p so_far m t = ground arith

receive_rest :
    (channel : ℕ) (control : Bool) (p : List ℕ) (ps : List (List ℕ)) (so_far : List ℕ)
    (m : Fragments)
    → total m + length so_far + length (p ++ flatten ps) ≤ max_message
    → receive (packets_of channel control false (p ∷ ps)) (entry channel control so_far ∷ m)
      ≡ (ok ((so_far ++ (p ++ flatten ps)) ∷ []), m)
unfolding receive packets_of flatten
receive_rest channel control p [] so_far m t =
    rw (accept_last channel control p so_far m (omega (arith, length-append p [])), append-nil p)
receive_rest channel control p (q ∷ ps) so_far m t =
    rw (accept_middle channel control p so_far m (omega (arith, length-append p (q ++ flatten ps))))
      (rw
        (receive_rest channel control q ps (so_far ++ p) m
          (omega (arith, length-append p (q ++ flatten ps), length-append so_far p)))
        (rw append_assoc))

-- A message cut into pieces and sent as packets on a channel that is free comes out of `accept`
-- whole and once, with its last packet, and the fragments of the other channels are as before;
-- if a channel can be opened and the message fits.
pub receive-packets_of :
    (channel : ℕ) (control : Bool) (p : List ℕ) (ps : List (List ℕ)) (m : Fragments)
    → get channel m ≡ none
    → length m < 16
    → total m + length (flatten (p ∷ ps)) ≤ max_message
    → receive (packets_of channel control true (p ∷ ps)) m ≡ (ok (flatten (p ∷ ps) ∷ []), m)
unfolding receive packets_of flatten
receive-packets_of channel control p [] m h k t =
    rw (accept_whole channel control p m h, append-nil p)
receive-packets_of channel control p (q ∷ ps) m h k t =
    rw (accept_first channel control p m h k (omega (arith, length-append p (q ++ flatten ps)))) (
      rw (receive_rest channel control q ps p m (omega (arith, length-append p (q ++ flatten ps)))))
