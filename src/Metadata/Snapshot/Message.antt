-- ===== src/Metadata/Snapshot/Message.antt =====
-- metadata.rs, `Snapshot::message` and `optional_string`: the message to the interface, with the
-- writes of the payload one after another.
use mathlib.Core.List.{flatten}
use project_argo.Common.{
  ℕ, ◌/◌, ◌%◌, ◌≡◌, ap, List, [], ◌∷◌, append_assoc, Bool, true, false, Option, none, some,
}
use project_argo.Ipc.Frames.{Encoded, encoded}
use project_argo.Ipc.Payload.{write_u32, write_u64}
use project_argo.Ipc.Payload.RoundTrip.{Field, u8, u32, string, write, write_all}
use project_argo.Metadata.Artwork.{Image}
use project_argo.Metadata.Snapshot.{Snapshot}

-- A `u64` is written as its two halves.
unfoldable pub u64_fields : ℕ → List Field
u64_fields value = u32 (value / 4294967296) ∷ u32 (value % 4294967296) ∷ []

unfoldable pub flag : Bool → ℕ
flag true = 1
flag false = 0

unfoldable pub optional_string : Option (List ℕ) → List Field
optional_string none = u8 0 ∷ []
optional_string (some value) = u8 1 ∷ string value ∷ []

unfoldable pub optional_u64 : Option ℕ → List Field
optional_u64 none = u8 0 ∷ []
optional_u64 (some value) = u8 1 ∷ u64_fields value

unfoldable pub battery_or_255 : Option ℕ → ℕ
battery_or_255 none = 255
battery_or_255 (some level) = level

unfoldable pub critical_code : Option Bool → ℕ
critical_code none = 0
critical_code (some false) = 1
critical_code (some true) = 2

unfoldable pub path_of : Option Image → Option (List ℕ)
path_of none = none
path_of (some image) = some image.path

unfoldable pub message_fields : List ℕ → List ℕ → Snapshot → List Field
message_fields session device s =
    let d = s.content in
    flatten (
      (string session ∷ string device ∷ u32 s.revision ∷ [])
      ∷ u64_fields s.updated_at_ms
      ∷ (u8 (flag d.media_received) ∷ [])
      ∷ optional_string d.title
      ∷ optional_string d.artist
      ∷ optional_string d.album
      ∷ (u8 d.playback ∷ [])
      ∷ optional_string d.application
      ∷ optional_u64 d.position_ms
      ∷ optional_u64 d.duration_ms
      ∷ optional_string d.device_name
      ∷ optional_string d.manufacturer
      ∷ optional_string d.model
      ∷ (u8 (battery_or_255 d.battery) ∷ u8 (critical_code d.critical) ∷ [])
      ∷ optional_string (path_of d.artwork)
      ∷ [])

-- The payload of the message, whose kind is 11.
unfoldable pub message : List ℕ → List ℕ → Snapshot → Encoded
message session device s = write_all [] (message_fields session device s)

abbrev pub message_kind : ℕ
message_kind = 11

-- The two halves are what `PayloadWriter::u64` writes.
pub write_all-u64_fields :
    (bytes : List ℕ) (value : ℕ)
    → write_all bytes (u64_fields value) ≡ encoded (write_u64 bytes value)
unfolding write_all write u64_fields write_u32 write_u64
write_all-u64_fields bytes value = ap encoded (append_assoc bytes _ _)
