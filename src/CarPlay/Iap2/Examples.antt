-- ===== src/CarPlay/Iap2/Examples.antt =====
-- Runs of the iAP2 code, and its theorems at concrete inputs.
use project_argo.Common.{ℕ, ◌+◌, ◌%◌, ◌≡◌, refl, List, [], ◌∷◌, arith, ltb, if◌then◌else◌}
use project_argo.CarPlay.Defs.{ok, err, sequence}
use project_argo.CarPlay.Iap2.Frame.{
  Frame, encode, decode, checksum, wrapping_sum, encoded_length, head_bytes, with_checksum,
  payload_bytes, decoded_payload,
}
use project_argo.CarPlay.Iap2.Frame.RoundTrip.{IsFrame, decode-encode, encode-decode}
use project_argo.CarPlay.Iap2.Sync.{Session, Synchronization, validate, check_sessions, is_seen}
use project_argo.CarPlay.Iap2.Sync
use project_argo.CarPlay.Iap2.Sync.RoundTrip
use project_argo.CarPlay.Iap2.Window.{
  Pending, SendWindow, new, send, acknowledge, any_exhausted, rearm, due_frames, retransmit,
}
use project_argo.CarPlay.Iap2.Window.Invariant.{IsWindow}
use project_argo.CarPlay.Iap2.Window.Acks.{acknowledge_outstanding, acknowledge_other}
use project_argo.CarPlay.Iap2.Window.Resends.{
  Call, sends, acks, retransmits, after, run, copies, resends, IsHistory, run-new-IsHistory,
}

-- The acknowledgement of the source's tests.
abbrev ack_frame : Frame
ack_frame = record { flags = 0x40; sequence = 2; acknowledgement = 3; session = 0xbf; payload = [] }

abbrev ack_bytes : List ℕ
ack_bytes = 0xff ∷ 0x5a ∷ 0 ∷ 9 ∷ 0x40 ∷ 2 ∷ 3 ∷ 0xbf ∷ 0x9a ∷ []

encode_ack : encode ack_frame ≡ ok ack_bytes
unfolding encode encoded_length head_bytes with_checksum payload_bytes checksum wrapping_sum
encode_ack = refl

decode_ack : decode ack_bytes ≡ ok ack_frame
unfolding decode decoded_payload checksum wrapping_sum
decode_ack = refl

decode-encode_example : decode ack_bytes ≡ ok ack_frame
decode-encode_example = decode-encode ack_frame ack_bytes encode_ack

encode-decode_example : encode ack_frame ≡ ok ack_bytes
encode-decode_example = encode-decode ack_bytes ack_frame (omega arith) decode_ack

ack_frame-IsFrame : IsFrame ack_frame
unfolding encoded_length
ack_frame-IsFrame = record { short = omega arith; known = refl }

abbrev link : Synchronization
link = record {
  window = 3;
  max_frame = 4096;
  retransmit_ms = 100;
  ack_ms = 20;
  retries = 2;
  ack_count = 1;
  sessions = record { id = 10; kind = 0; version = 1 } ∷ [];
}

link_valid : validate link ≡ ok tt
unfolding validate check_sessions is_seen
link_valid = refl

link_encoded : Sync.encode link ≡ ok (Sync.link_bytes link)
unfolding Sync.encode validate check_sessions is_seen
link_encoded = refl

sync_decode-encode_example : Sync.decode (Sync.link_bytes link) ≡ ok link
sync_decode-encode_example =
    RoundTrip.sync_decode-encode link (Sync.link_bytes link)
      (record { frame = omega arith; retransmit = omega arith; acks = omega arith }) link_encoded

abbrev sent : ℕ → Pending
sent n = record {
  frame = record {
    flags = 0x40;
    sequence = n;
    acknowledgement = 1;
    session = 10;
    payload = 7 ∷ [];
  };
  deadline = 100000000;
  retries = 0;
}

-- Numbers 255, 0 and 1 are outstanding.
abbrev wrapped : SendWindow
wrapped = record {
  next = 2;
  last_ack = 254;
  capacity = 3;
  max_payload = 4086;
  interval = 100000000;
  retry_limit = 2;
  pending = sent 255 ∷ sent 0 ∷ sent 1 ∷ [];
}

wrapped-IsWindow : IsWindow wrapped
wrapped-IsWindow = omega arith

acknowledge_outstanding_example :
    acknowledge wrapped 0 ≡ (ok tt, record wrapped { pending = sent 1 ∷ []; last_ack = 0 })
acknowledge_outstanding_example =
    acknowledge_outstanding wrapped (sent 255 ∷ []) (sent 1 ∷ []) (sent 0) wrapped-IsWindow refl

acknowledge_other_example :
    acknowledge wrapped ((254 + 5) % 256) ≡ ((if ltb 5 128 then err sequence else ok tt), wrapped)
acknowledge_other_example = acknowledge_other wrapped 5 wrapped-IsWindow (omega arith) (omega arith)

abbrev opened : SendWindow
opened = record {
  next = 255;
  last_ack = 254;
  capacity = 3;
  max_payload = 4086;
  interval = 100000000;
  retry_limit = 2;
  pending = [];
}

abbrev calls : List Call
calls = sends 10 1 (7 ∷ []) 0 ∷ sends 10 1 (7 ∷ []) 0 ∷ retransmits 100000000 ∷ acks 255 ∷ []

new-opened : new 255 link ≡ ok opened
unfolding new validate check_sessions is_seen
new-opened = refl

-- The second frame was sent again once, and the acknowledgement has not released it.
run_resends : resends 0 (run (record { window = opened; log = [] }) calls).log ≡ 1
unfolding run after send acknowledge retransmit any_exhausted rearm due_frames resends copies
run_resends = refl

run-new-IsHistory_example : IsHistory link (run (record { window = opened; log = [] }) calls)
run-new-IsHistory_example =
    run-new-IsHistory 255 link opened calls (omega arith) new-opened (omega arith)
