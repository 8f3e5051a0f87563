-- ===== src/AaChannels/Formats.antt =====
-- configuration.rs, the audio formats of the three sound channels.
use project_argo.Common.{ℕ, List, [], ◌∷◌, Option, none, some, ◌==◌, if◌then◌else◌}

pub record AudioFormat : Type 0 where
  pub channel : ℕ
  pub role : ℕ
  pub rate : ℕ
  pub bits : ℕ
  pub channels : ℕ
  pub pipewire_role : List ℕ

-- "Music", "Navigation" and "Notification".
abbrev music : List ℕ
music = 77 ∷ 117 ∷ 115 ∷ 105 ∷ 99 ∷ []

abbrev navigation : List ℕ
navigation = 78 ∷ 97 ∷ 118 ∷ 105 ∷ 103 ∷ 97 ∷ 116 ∷ 105 ∷ 111 ∷ 110 ∷ []

abbrev notification : List ℕ
notification = 78 ∷ 111 ∷ 116 ∷ 105 ∷ 102 ∷ 105 ∷ 99 ∷ 97 ∷ 116 ∷ 105 ∷ 111 ∷ 110 ∷ []

abbrev pub audio : List AudioFormat
audio =
    record { channel = 4; role = 3; rate = 48000; bits = 16; channels = 2; pipewire_role = music }
    ∷ record {
      channel = 5;
      role = 1;
      rate = 16000;
      bits = 16;
      channels = 1;
      pipewire_role = navigation;
    }
    ∷ record {
      channel = 6;
      role = 2;
      rate = 16000;
      bits = 16;
      channels = 1;
      pipewire_role = notification;
    }
    ∷ []

unfoldable pub find_format : List AudioFormat → ℕ → Option AudioFormat
find_format [] channel = none
find_format (f ∷ fs) channel = if f.channel == channel then some f else find_format fs channel

-- None stands for the error.
unfoldable pub audio_format : ℕ → Option AudioFormat
audio_format channel = find_format audio channel
