-- ===== src/DaemonState/Runtime.antt =====
-- daemon_state.rs, `ProjectionRuntimeSnapshot` and its changes. A text is its UTF-8 bytes.
use project_argo.Common.{
  ℕ, List, [], ◌∷◌, ◌++◌, Bool, true, false, Option, none, some, not, ◌&&◌, if◌then◌else◌,
}
use project_argo.AaChannels.State.{VideoCodec, h264}
use project_argo.AaChannels.Display.{DisplayConfig}
use project_argo.Metadata.Artwork.{same_bytes}
use project_argo.Metadata.Parse.{Update}
use project_argo.Metadata.Snapshot.{Snapshot, default_snapshot, apply}

pub record Device : Type 0 where
  pub id : List ℕ
  pub display_name : List ℕ
  pub transport : ℕ

pub data Status : Type 0 where
  connecting_status ready_status streaming suspended failed_status : Status

unfoldable pub wire_value : Status → ℕ
wire_value connecting_status = 0
wire_value ready_status = 1
wire_value streaming = 2
wire_value suspended = 3
wire_value failed_status = 4

pub record Session : Type 0 where
  pub id : List ℕ
  pub device_id : List ℕ
  pub state : Status
  pub failure : Option (List ℕ)

-- `[bool; 3]`: media, speech and system.
pub record Audio : Type 0 where
  pub media : Bool
  pub speech : Bool
  pub system : Bool

abbrev pub silent : Audio
silent = record { media = false; speech = false; system = false }

pub record Runtime : Type 0 where
  pub device : Option Device
  pub session : Option Session
  pub video_codec : VideoCodec
  pub video : Option (DisplayConfig × Bool)
  pub audio : Audio
  pub host_return_revision : ℕ
  pub presentation_revision : ℕ
  pub metadata : Snapshot

abbrev pub default_runtime : Runtime
default_runtime = record {
  device = none;
  session = none;
  video_codec = h264;
  video = none;
  audio = silent;
  host_return_revision = 0;
  presentation_revision = 0;
  metadata = default_snapshot;
}

-- "aa-wired:".
abbrev wired_text : List ℕ
wired_text = 97 ∷ 97 ∷ 45 ∷ 119 ∷ 105 ∷ 114 ∷ 101 ∷ 100 ∷ 58 ∷ []

unfoldable pub connecting : List ℕ → List ℕ → Runtime
connecting device_id display_name = record default_runtime {
  device = some (record { id = device_id; display_name = display_name; transport = 0 });
  session = some (record {
    id = wired_text ++ device_id;
    device_id = device_id;
    state = connecting_status;
    failure = none;
  });
}

abbrev is_failed : Status → Bool
is_failed failed_status = true
is_failed connecting_status = false
is_failed ready_status = false
is_failed streaming = false
is_failed suspended = false

abbrev pub takes_metadata : List ℕ → Option Session → Bool
takes_metadata id none = false
takes_metadata id (some s) = same_bytes s.id id && not (is_failed s.state)

-- `apply` with its clock and the outcome of writing a picture.
unfoldable pub update_metadata : ℕ → Option (List ℕ) → Runtime → List ℕ → Update → Runtime × Bool
update_metadata now file r id update =
    let changed = apply now file r.metadata update in
    if takes_metadata id r.session
    then (record r { metadata = changed.0 }, changed.1)
    else (r, false)

abbrev ready_session : Option Session → Option Session
ready_session none = none
ready_session (some s) = some (record s { state = ready_status; failure = none })

unfoldable pub ready : Runtime → Runtime
ready r = record r { session = ready_session r.session }

abbrev failed_session : List ℕ → Option Session → Option Session
failed_session failure none = none
failed_session failure (some s) = some (record s { state = failed_status; failure = some failure })

unfoldable pub failed : Runtime → List ℕ → Runtime
failed r failure = record r {
  metadata = default_snapshot;
  video = none;
  audio = silent;
  session = failed_session failure r.session;
}
