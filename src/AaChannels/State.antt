-- ===== src/AaChannels/State.antt =====
-- aa_channels.rs, `Reply`, `Effect` and the state of `Channels`, with its sets and its map of
-- sessions as lists.
use project_argo.Common.{
  ℕ, List, [], ◌∷◌, Bool, true, false, Option, none, some, leb, ◌==◌, ◌&&◌, ◌||◌, if◌then◌else◌,
}
use project_argo.AaChannels.Proto.{Error}
use project_argo.AaChannels.Display.{DisplayConfig}
use project_argo.Metadata.Parse.{Update}

pub record Reply : Type 0 where
  pub channel : ℕ
  pub id : ℕ
  pub control : Bool
  pub body : List ℕ

-- `Reply::new`.
unfoldable pub new_reply : ℕ → ℕ → List ℕ → Reply
new_reply channel id body = record {
  channel = channel;
  id = id;
  control = (leb 7 id && leb id 9) || (leb 0x18 id && leb id 0x1a);
  body = body;
}

-- The channels offer the first two.
pub data VideoCodec : Type 0 where
  h264 hevc vp9 av1 : VideoCodec

pub data Effect : Type 0 where
  video_codec : VideoCodec → Effect
  reply : Reply → Effect
  video : Bool → Effect
  established host_return : Effect
  audio : ℕ → Bool → Effect
  microphone : Bool → ℕ → Effect
  microphone_ack : ℕ → ℕ → Effect
  microphone_stop : Effect
  media : ℕ → List ℕ → Effect
  end : Effect
  metadata : Update → Effect

-- A contact: its number on the wire and where it is.
pub record Contact : Type 0 where
  pub wire_id : ℕ
  pub x : ℕ
  pub y : ℕ

pub record Channels : Type 0 where
  pub offer_hevc : Bool
  pub video_config : ℕ
  pub display : DisplayConfig
  pub open_channels : List ℕ
  pub setup : List ℕ
  pub sessions : List (ℕ × ℕ)
  pub pointers : List (ℕ × Contact)
  pub reported_large_pointer : Bool
  pub discovered : Bool
  pub video_requested : Bool
  pub metadata_warnings : List (ℕ × ℕ)

unfoldable pub new : DisplayConfig → Channels
new display = record {
  offer_hevc = false;
  video_config = 0;
  display = display;
  open_channels = [];
  setup = [];
  sessions = [];
  pointers = [];
  reported_large_pointer = false;
  discovered = false;
  video_requested = true;
  metadata_warnings = [];
}

unfoldable pub with_hevc : DisplayConfig → Bool → Channels
unfolding new
with_hevc display offer_hevc = record (new display) { offer_hevc = offer_hevc }

unfoldable pub set_video_requested : Channels → Bool → Channels
set_video_requested s requested = record s { video_requested = requested }

-- The operations of a set and of a map that the channels use.
unfoldable pub contains : List ℕ → ℕ → Bool
contains [] c = false
contains (x ∷ xs) c = x == c || contains xs c

unfoldable pub insert : List ℕ → ℕ → List ℕ
insert xs c = if contains xs c then xs else c ∷ xs

unfoldable pub lookup {ℓ} : {A : Type ℓ} → List (ℕ × A) → ℕ → Option A
lookup [] c = none
lookup ((k, a) ∷ rest) c = if k == c then some a else lookup rest c

unfoldable pub remove {ℓ} : {A : Type ℓ} → List (ℕ × A) → ℕ → List (ℕ × A)
remove [] c = []
remove ((k, a) ∷ rest) c = let later = remove rest c in if k == c then later else (k, a) ∷ later

unfoldable pub is_noted : List (ℕ × ℕ) → ℕ → ℕ → Bool
is_noted [] channel id = false
is_noted ((c, i) ∷ rest) channel id = (c == channel && i == id) || is_noted rest channel id

-- `metadata_warnings.insert`.
unfoldable pub note_warning : Channels → ℕ → ℕ → Channels
note_warning s channel id =
    if is_noted s.metadata_warnings channel id
    then s
    else record s { metadata_warnings = (channel, id) ∷ s.metadata_warnings }

pub data ChannelError : Type 0 where
  media_before_start short_media media_size_limit : ChannelError
  bad_fields : Error → ChannelError
  open_missing_service : ChannelError
  unopened : ℕ → ChannelError
  sensor_missing_type microphone_codec microphone_before_setup : ChannelError
  unadvertised_codec codec_fixed stream_configuration stream_session_missing : ChannelError

-- What a call leaves and answers: the state, and the effects or the error.
pub data Answer : Type 0 where
  ok : Channels → List Effect → Answer
  error : Channels → ChannelError → Answer

unfoldable pub left : Answer → Channels
left (ok s effects) = s
left (error s e) = s
