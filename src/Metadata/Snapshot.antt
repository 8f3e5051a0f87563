-- ===== src/Metadata/Snapshot.antt =====
-- metadata.rs, `Metadata`, `Snapshot` and `Snapshot::apply`. A text is its UTF-8 bytes. The clock
-- and the outcome of writing a picture are arguments, and the log lines are left out.
pub mod Message
pub mod Stable
pub mod Bounded
pub mod Sent
use native.Mathlib.Decide.{ℕ_discrete}
use mathlib.Core.Logic.{ite}
use Prim.Native.Nat.{min}
use project_argo.Common.{
  ℕ, ◌+◌, ◌-◌, List, [], ◌∷◌, ◌++◌, Bool, true, false, Option, none, some, not, leb, if◌then◌else◌,
}
use project_argo.Metadata.Artwork.{Image, matches, store}
use project_argo.Metadata.Parse.{Update, track, playback, phone, battery}

pub record Metadata : Type 0 where
  pub media_received : Bool
  pub title : Option (List ℕ)
  pub artist : Option (List ℕ)
  pub album : Option (List ℕ)
  pub artwork : Option Image
  pub playback : ℕ
  pub application : Option (List ℕ)
  pub position_ms : Option ℕ
  pub duration_ms : Option ℕ
  pub device_name : Option (List ℕ)
  pub manufacturer : Option (List ℕ)
  pub model : Option (List ℕ)
  pub battery : Option ℕ
  pub critical : Option Bool

-- The derived `PartialEq`.
Image-discrete : Discrete Image
Image-discrete = hlevel ℕ_discrete

pub Metadata-discrete : Discrete Metadata
Metadata-discrete = hlevel (ℕ_discrete, Image-discrete)

pub texts_discrete : Discrete (Option (List ℕ) × (Option (List ℕ) × Option (List ℕ)))
texts_discrete = hlevel ℕ_discrete

pub text_discrete : Discrete (List ℕ)
text_discrete = hlevel ℕ_discrete

pub record Snapshot : Type 0 where
  pub content : Metadata
  pub revision : ℕ
  pub updated_at_ms : ℕ
  pub last_diagnostic_ms : ℕ

abbrev pub default_metadata : Metadata
default_metadata = record {
  media_received = false;
  title = none;
  artist = none;
  album = none;
  artwork = none;
  playback = 0;
  application = none;
  position_ms = none;
  duration_ms = none;
  device_name = none;
  manufacturer = none;
  model = none;
  battery = none;
  critical = none;
}

abbrev pub default_snapshot : Snapshot
default_snapshot = record {
  content = default_metadata;
  revision = 0;
  updated_at_ms = 0;
  last_diagnostic_ms = 0;
}

-- The picture of a track message: one that is shown already is kept, any other is stored.
unfoldable pub shown_artwork : Option (List ℕ) → Option Image → Option (List ℕ) → Option Image
shown_artwork file old none = none
shown_artwork file none (some content) = store file content
shown_artwork file (some image) (some content) =
    if matches image content then some image else store file content

-- The position that a track message keeps: a new text resets it.
unfoldable pub kept_position :
    Metadata → Option (List ℕ) → Option (List ℕ) → Option (List ℕ) → Option ℕ
kept_position d title artist album =
    ite (texts_discrete (d.title, (d.artist, d.album)) (title, (artist, album))) d.position_ms none

unfoldable pub switch_application : Metadata → List ℕ → Metadata
switch_application d application = record d {
  title = none;
  artist = none;
  album = none;
  artwork = none;
  position_ms = none;
  duration_ms = none;
  application = some application;
}

-- Another application than before cannot keep the track.
unfoldable pub switched : Metadata → List ℕ → Option (List ℕ) → Metadata
switched d new none = record d { application = some new }
switched d new (some old) =
    ite (text_discrete old new) (record d { application = some new }) (switch_application d new)

-- The application of a playback message.
unfoldable pub with_application : Metadata → Option (List ℕ) → Metadata
with_application d none = d
with_application d (some new) = switched d new d.application

-- A field that a message need not hold: the new value if there is one.
unfoldable pub or_else {ℓ} : {A : Type ℓ} → Option A → Option A → Option A
or_else none old = old
or_else (some x) old = some x

unfoldable pub state_or : Option ℕ → ℕ → ℕ
state_or none old = old
state_or (some s) old = s

-- The `match` of `apply`.
unfoldable pub updated : Option (List ℕ) → Metadata → Update → Metadata
updated file d (track title artist album artwork duration_ms) = record d {
  position_ms = kept_position d title artist album;
  title = title;
  artist = artist;
  album = album;
  duration_ms = duration_ms;
  artwork = shown_artwork file d.artwork artwork;
  media_received = true;
}
updated file d (playback state application position_ms) =
    let d' = with_application d application in
    record d' {
      playback = state_or state d'.playback;
      position_ms = or_else position_ms d'.position_ms;
      media_received = true;
    }
updated file d (phone name manufacturer) = record d {
  device_name = name;
  manufacturer = manufacturer;
}
updated file d (battery level critical) = record d {
  battery = or_else level d.battery;
  critical = or_else critical d.critical;
}

-- The snapshot with new data: the revision saturates at 32 bits.
unfoldable pub changed : ℕ → Metadata → Snapshot → Snapshot
changed now d s = record s {
  content = d;
  revision = min (s.revision + 1) 4294967295;
  updated_at_ms = now;
  last_diagnostic_ms =
      (if leb 3000 (now - s.last_diagnostic_ms) then now else s.last_diagnostic_ms);
}

unfoldable pub apply : ℕ → Option (List ℕ) → Snapshot → Update → Snapshot × Bool
apply now file s update =
    let d = updated file s.content update in
    ite (Metadata-discrete d s.content) (record s { content = d }, false) (changed now d s, true)
