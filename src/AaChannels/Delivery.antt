-- ===== src/AaChannels/Delivery.antt =====
-- A stream that is opened, set up and started hands out content, until it is stopped.
use project_argo.Common.{ℕ, List, [], ◌∷◌, ◌==◌, if◌then◌else◌}
use project_argo.AaChannels.Proto.{numeric, build}
use project_argo.AaChannels.State.{Channels, insert}
use project_argo.AaChannels.Safety.{Call, message}

-- H.264 on the video channel, and the first audio format on the others.
abbrev pub first_codec : ℕ → ℕ
first_codec channel = if channel == 3 then 3 else 1

-- The messages that open a channel, set it up and start its stream.
abbrev pub starting : ℕ → ℕ → ℕ → List Call
starting sender channel session =
    message sender 7 (build (numeric 2 channel ∷ []))
    ∷ message channel 0x8000 (build (numeric 1 (first_codec channel) ∷ []))
    ∷ message channel 0x8001 (build (numeric 1 session ∷ []))
    ∷ []

-- What the three messages leave behind.
abbrev running : Channels → ℕ → ℕ → Channels
running s channel session = record s {
  open_channels = insert s.open_channels channel;
  setup = insert s.setup channel;
  sessions = (channel, session) ∷ s.sessions;
}
