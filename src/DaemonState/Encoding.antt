-- ===== src/DaemonState/Encoding.antt =====
-- daemon_state.rs, the messages on the wire.
use project_argo.Common.{ℕ, zero, suc, List, [], ◌∷◌, ◌++◌, Option, none, some}
use project_argo.Ipc.Frames
use project_argo.Ipc.Frames.{DecodeError, Encoded, encoded, refused}
use project_argo.Ipc.Payload.RoundTrip.{Field, u8, u16, u32, string, write_all}
use project_argo.AaChannels.State.{VideoCodec, h264, hevc, vp9, av1}
use project_argo.AaChannels.Display.{Insets}
use project_argo.Metadata.Snapshot.Message
use project_argo.Metadata.Snapshot.Message.{flag}
use project_argo.DaemonState.Runtime.{wire_value, Runtime}
use project_argo.DaemonState.Notices.{
  Notice, session_removed, device_removed, device_told, session_told, metadata_told, video_told,
  audio_told, notices,
}

unfoldable pub codec_wire : VideoCodec → ℕ
codec_wire h264 = 0
codec_wire hevc = 1
codec_wire vp9 = 2
codec_wire av1 = 3

abbrev text_or_empty : Option (List ℕ) → List ℕ
text_or_empty none = []
text_or_empty (some text) = text

abbrev inset_fields : Insets → List Field
inset_fields v = u16 v.left ∷ u16 v.top ∷ u16 v.right ∷ u16 v.bottom ∷ []

-- ":main", "media", "speech" and "system".
abbrev main_text : List ℕ
main_text = 58 ∷ 109 ∷ 97 ∷ 105 ∷ 110 ∷ []

-- The name, the rate and the number of channels of an audio channel; all have 16 bits.
abbrev channel_name : ℕ → List ℕ
channel_name zero = 109 ∷ 101 ∷ 100 ∷ 105 ∷ 97 ∷ []
channel_name (suc zero) = 115 ∷ 112 ∷ 101 ∷ 101 ∷ 99 ∷ 104 ∷ []
channel_name (suc (suc i)) = 115 ∷ 121 ∷ 115 ∷ 116 ∷ 101 ∷ 109 ∷ []

abbrev channel_rate : ℕ → ℕ
channel_rate zero = 48000
channel_rate (suc i) = 16000

abbrev channel_count : ℕ → ℕ
channel_count zero = 2
channel_count (suc i) = 1

unfoldable pub kind_of : Notice → ℕ
kind_of (session_removed id) = 8
kind_of (device_removed id) = 7
kind_of (device_told d) = 2
kind_of (session_told s revision) = 3
kind_of (metadata_told s m) = 11
kind_of (video_told s codec display visible revision) = 4
kind_of (audio_told s i on) = 5

unfoldable pub payload_of : Notice → Encoded
payload_of (session_removed id) = write_all [] (string id ∷ [])
payload_of (device_removed id) = write_all [] (string id ∷ [])
payload_of (device_told d) =
    write_all [] (string d.id ∷ string d.display_name ∷ u8 0 ∷ u8 d.transport ∷ [])
payload_of (session_told s revision) = write_all [] (
    string s.id
    ∷ string s.device_id
    ∷ u8 (wire_value s.state)
    ∷ string (text_or_empty s.failure)
    ∷ u32 revision
    ∷ [])
payload_of (metadata_told s m) = Message.message s.id s.device_id m
payload_of (video_told s codec display visible revision) = write_all [] (
    string s.id
    ∷ string (s.id ++ main_text)
    ∷ u8 0
    ∷ u8 (codec_wire codec)
    ∷ u16 display.width
    ∷ u16 display.height
    ∷ u8 display.fps
    ∷ (inset_fields display.view_insets
        ++ (inset_fields display.safe_insets
            ++ (u8 (flag visible) ∷ u8 (flag visible) ∷ u32 revision ∷ []))))
payload_of (audio_told s i on) = write_all [] (
    string s.id
    ∷ string (channel_name i)
    ∷ u8 i
    ∷ u8 (flag on)
    ∷ u8 (flag on)
    ∷ u16 (channel_rate i)
    ∷ u8 16
    ∷ u8 (channel_count i)
    ∷ [])

-- The messages, or the first error.
pub data Sent : Type 0 where
  sent : List Frames.Message → Sent
  unsent : DecodeError → Sent

abbrev pub followed_by : Frames.Message → Sent → Sent
followed_by m (sent ms) = sent (m ∷ ms)
followed_by m (unsent e) = unsent e

abbrev pub after_payload : ℕ → Encoded → Sent → Sent
after_payload kind (refused e) later = unsent e
after_payload kind (encoded payload) later =
    followed_by (record { kind = kind; payload = payload }) later

unfoldable pub encode_notices : List Notice → Sent
encode_notices [] = sent []
encode_notices (n ∷ ns) = after_payload (kind_of n) (payload_of n) (encode_notices ns)

unfoldable pub snapshot_messages : Runtime → Runtime → Sent
snapshot_messages previous current = encode_notices (notices previous current)
