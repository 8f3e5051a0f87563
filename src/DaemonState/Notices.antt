-- ===== src/DaemonState/Notices.antt =====
-- daemon_state.rs, `snapshot_messages`: which messages are sent, in which order.
use native.Mathlib.Decide.{ℕ_discrete}
use project_argo.Common.{
  ℕ, List, [], ◌∷◌, ◌++◌, Bool, true, false, Option, none, some, not, ◌==◌, ◌||◌, ◌&&◌,
  if◌then◌else◌,
}
use project_argo.AaChannels.State.{VideoCodec}
use project_argo.AaChannels.Display.{Insets, DisplayConfig}
use project_argo.Metadata.Snapshot.{Snapshot, Metadata-discrete}
use project_argo.DaemonState.Runtime.{Device, Status, Session, Runtime}

-- A message with what it tells.
pub data Notice : Type 0 where
  session_removed device_removed : List ℕ → Notice
  device_told : Device → Notice
  session_told : Session → ℕ → Notice
  metadata_told : Session → Snapshot → Notice
  video_told : Session → VideoCodec → DisplayConfig → Bool → ℕ → Notice
  audio_told : Session → ℕ → Bool → Notice

-- The derived equalities.
pub id_discrete : Discrete (Option (List ℕ))
id_discrete = hlevel ℕ_discrete

Device-discrete : Discrete Device
Device-discrete = hlevel ℕ_discrete

pub devices_discrete : Discrete (Option Device)
devices_discrete = hlevel Device-discrete

Status-discrete : Discrete Status
Status-discrete = hlevel

Session-discrete : Discrete Session
Session-discrete = hlevel (ℕ_discrete, Status-discrete)

pub sessions_discrete : Discrete (Option Session)
sessions_discrete = hlevel Session-discrete

pub Snapshot-discrete : Discrete Snapshot
Snapshot-discrete = hlevel (ℕ_discrete, Metadata-discrete)

pub VideoCodec-discrete : Discrete VideoCodec
VideoCodec-discrete = hlevel

Insets-discrete : Discrete Insets
Insets-discrete = hlevel ℕ_discrete

DisplayConfig-discrete : Discrete DisplayConfig
DisplayConfig-discrete = hlevel (ℕ_discrete, Insets-discrete)

pub Bool-discrete : Discrete Bool
Bool-discrete = hlevel

pub videos_discrete : Discrete (Option (DisplayConfig × Bool))
videos_discrete = hlevel DisplayConfig-discrete

-- `!=`.
abbrev pub differs {ℓ} : {P : Type ℓ} → Dec P → Bool
differs (yes p) = false
differs (no n) = true

abbrev pub optional : Bool → Notice → List Notice
optional t n = if t then n ∷ [] else []

abbrev pub session_id : Option Session → Option (List ℕ)
session_id none = none
session_id (some s) = some s.id

abbrev pub device_id : Option Device → Option (List ℕ)
device_id none = none
device_id (some d) = some d.id

unfoldable pub removed_session : Option Session → Option Session → List Notice
removed_session none current = []
removed_session (some s) current =
    optional (differs (id_discrete (some s.id) (session_id current))) (session_removed s.id)

unfoldable pub removed_device : Option Device → Option Device → List Notice
removed_device none current = []
removed_device (some d) current =
    optional (differs (id_discrete (some d.id) (device_id current))) (device_removed d.id)

unfoldable pub changed_device : Option Device → Option Device → List Notice
changed_device previous none = []
changed_device previous (some d) =
    optional (differs (devices_discrete previous (some d))) (device_told d)

-- With the two revisions of the returns to the host.
unfoldable pub changed_session : Option Session → ℕ → Option Session → ℕ → List Notice
changed_session previous before none now = []
changed_session previous before (some s) now =
    optional (differs (sessions_discrete previous (some s)) || not (before == now))
      (session_told s now)

unfoldable pub changed_metadata :
    Option Session → Snapshot → Option Session → Snapshot → List Notice
changed_metadata previous before none now = []
changed_metadata previous before (some s) now =
    optional
      (differs (Snapshot-discrete before now)
        || differs (id_discrete (session_id previous) (some s.id)))
      (metadata_told s now)

unfoldable pub shown_video :
    Runtime → Runtime → Session → Option (DisplayConfig × Bool) → List Notice
shown_video previous current s none = []
shown_video previous current s (some (display, visible)) =
    optional
      (differs (videos_discrete previous.video current.video)
        || differs (sessions_discrete previous.session current.session)
        || not (previous.presentation_revision == current.presentation_revision)
        || differs (VideoCodec-discrete previous.video_codec current.video_codec))
      (video_told s current.video_codec display visible current.presentation_revision)

unfoldable pub changed_video : Runtime → Runtime → Session → List Notice
changed_video previous current s = shown_video previous current s current.video

-- The channel of the given number was or is audible.
unfoldable pub changed_channel : Runtime → Runtime → Session → ℕ → Bool → Bool → List Notice
changed_channel previous current s i before now =
    optional
      (differs (Bool-discrete now before)
        || (now && differs (sessions_discrete previous.session current.session)))
      (audio_told s i now)

unfoldable pub changed_streams : Runtime → Runtime → Option Session → List Notice
changed_streams previous current none = []
changed_streams previous current (some s) =
    changed_video previous current s
    ++ (changed_channel previous current s 0 previous.audio.media current.audio.media
        ++ (changed_channel previous current s 1 previous.audio.speech current.audio.speech
            ++ changed_channel previous current s 2 previous.audio.system current.audio.system))

unfoldable pub notices : Runtime → Runtime → List Notice
notices previous current =
    removed_session previous.session current.session
    ++ (removed_device previous.device current.device
        ++ (changed_device previous.device current.device
            ++ (changed_session previous.session previous.host_return_revision current.session
                  current.host_return_revision
                ++ (changed_metadata previous.session previous.metadata current.session
                      current.metadata
                    ++ changed_streams previous current current.session))))
