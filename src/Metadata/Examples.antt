-- ===== src/Metadata/Examples.antt =====
-- Runs of the metadata messages, and their theorems at concrete inputs.
use project_argo.Common.{
  ℕ, ◌≤◌, ◌≡◌, ◌≢◌, refl, List, [], ◌∷◌, true, false, none, some, arith, length,
}
use project_argo.Ipc.Frames.{encoded}
use project_argo.AaChannels.Proto.{read_var}
use project_argo.Metadata.Wire.{right, varint}
use project_argo.Metadata.Wire.RoundTrip.{varint-read_var}
use project_argo.Metadata.Artwork.{out_of_rounds, size, jpeg_loop, jpeg_loop-ne-out_of_rounds}
use project_argo.Metadata.Parse.{Update, track}
use project_argo.Metadata.Snapshot.{default_snapshot, apply}
use project_argo.Metadata.Snapshot.Stable.{apply_again}
use project_argo.Metadata.Snapshot.Message.{message}
use project_argo.Metadata.Snapshot.Sent.{Received, receive_all, message-receive_all}

varint-read_var_example : varint 10 0 0 (0xac ∷ 2 ∷ 9 ∷ []) ≡ right (300, 9 ∷ [])
unfolding read_var
varint-read_var_example = varint-read_var 10 0 0 (0xac ∷ 2 ∷ 9 ∷ [])

-- A start of frame of 3 x 2 pixels behind the head.
abbrev small_picture : List ℕ
small_picture = 0xff ∷ 0xd8 ∷ 0xff ∷ 0xc0 ∷ 0 ∷ 8 ∷ 8 ∷ 0 ∷ 2 ∷ 0 ∷ 3 ∷ 1 ∷ []

small_picture_size : jpeg_loop small_picture (length small_picture) 2 ≡ size 3 2
unfolding jpeg_loop
small_picture_size = refl

jpeg_loop-ne-out_of_rounds_example : jpeg_loop small_picture 12 2 ≢ out_of_rounds
jpeg_loop-ne-out_of_rounds_example =
    jpeg_loop-ne-out_of_rounds small_picture 12 2 (omega arith) (omega arith)

abbrev song : Update
song = track (some (65 ∷ [])) none none (some small_picture) (some 3000)

apply_again_example :
    apply 9 (some (47 ∷ [])) (apply 5 (some (46 ∷ [])) default_snapshot song).0 song
    ≡ ((apply 5 (some (46 ∷ [])) default_snapshot song).0, false)
apply_again_example =
    apply_again 5 9 (some (46 ∷ [])) (some (47 ∷ [])) default_snapshot song (λ e. absurd cc)

-- The name of the phone, and a message of a kind that does not exist.
abbrev received : List Received
received =
    record { channel = 0; id = 5; body = 34 ∷ 1 ∷ 65 ∷ []; now = 5; file = none }
    ∷ record { channel = 0; id = 99; body = []; now = 6; file = none }
    ∷ []

message-receive_all_example :
    (payload : List ℕ) × (message
        (65 ∷ [])
        (66 ∷ [])
        (receive_all (λ s. true) (λ s. s) received default_snapshot)
      ≡ encoded payload)
    × (length payload ≤ 65536)
message-receive_all_example =
    message-receive_all (λ s. true) (λ s. s) (65 ∷ []) (66 ∷ []) received (λ s. omega arith)
      (omega arith) (omega arith) (tt, (tt, tt))
