-- ===== src/AaChannels/Handle.antt =====
-- aa_channels.rs, `Channels::handle`. A message of the phone has a channel, an id and a body; the
-- log lines are left out. Which bytes are valid UTF-8 and what `str::trim` leaves are parameters,
-- as in the parser of the metadata messages.
use project_argo.Common.{
  ℕ, List, [], ◌∷◌, Bool, true, Option, none, some, not, leb, ◌==◌, ◌&&◌, ◌||◌, if◌then◌else◌,
}
use project_argo.AaChannels.Proto.{Fields, get, failed, found, numbers, numeric, bytewise, build}
use project_argo.AaChannels.Proto
use project_argo.AaChannels.Discovery.{discovery_codecs}
use project_argo.AaChannels.State.{
  Effect, microphone, microphone_ack, microphone_stop, end, metadata, Channels, contains, insert,
  note_warning, bad_fields, open_missing_service, unopened, sensor_missing_type, microphone_codec,
  microphone_before_setup, Answer, ok, error,
}
use project_argo.Metadata.Wire.{wrong, right}
use project_argo.Metadata.Wire
use project_argo.Metadata.Parse.{Update, parse}
use project_argo.AaChannels.Streams.{
  respond, or_value, is_value, is_media, handle_media, handle_stream,
}

-- A metadata message is optional: one that is refused is noted and passed over.
abbrev pub with_update : Channels → ℕ → ℕ → Wire.Result Update → Channels × List Effect
with_update s channel id (wrong e) = (note_warning s channel id, [])
with_update s channel id (right update) = (s, metadata update ∷ [])

abbrev pub with_discovery : ℕ → ℕ → Channels × List Effect → Answer
with_discovery channel id (s, effects) =
    if channel == 0 && id == 5
    then ok (record s { discovered = true })
        (respond 0 6 (discovery_codecs s.display s.offer_hevc) ∷ effects)
    else ok s effects

abbrev pub is_service : ℕ → Bool
is_service target = target == 1 || is_media target || target == 8 || target == 9 || target == 10

-- The answer to the request to open a service.
unfoldable pub open_service : Channels → ℕ → Option ℕ → Answer
open_service s channel none = error s open_missing_service
open_service s channel (some target) =
    if s.discovered && is_service target
    then ok (record s { open_channels = insert s.open_channels target })
        (respond channel 8 (build (numeric 1 0 ∷ [])) ∷ [])
    else ok s (respond channel 8 (build (numeric 1 1 ∷ [])) ∷ [])

unfoldable pub handle_open : Channels → ℕ → Fields → Answer
handle_open s channel fields = open_service s channel (get 2 fields)

unfoldable pub focus_state : ℕ → ℕ
focus_state kind = if kind == 1 then 1 else if kind == 2 then 2 else if kind == 3 then 2 else 3

-- The control channel. The discovery request with id 5 has been answered before.
unfoldable pub handle_control : Channels → ℕ → List ℕ → Fields → Answer
handle_control s id body fields =
    if id == 11
    then ok s (respond 0 12 body ∷ [])
    else if id == 13
    then ok s (respond 0 14 (build (numeric 1 1 ∷ [])) ∷ [])
    else if id == 15
    then ok s (respond 0 16 [] ∷ end ∷ [])
    else if id == 18
    then ok s (respond 0 19 (build (numeric 1 (focus_state (or_value (get 1 fields) 0)) ∷ [])) ∷ [])
    else ok s []

unfoldable pub sensor_request : Channels → Option ℕ → Answer
sensor_request s none = error s sensor_missing_type
sensor_request s (some kind) =
    if kind == 10 || kind == 13
    then ok s (
        respond 1 0x8002 (build (numeric 1 0 ∷ []))
        ∷ respond 1 0x8003
            (build (bytewise kind (build (numeric 1 (if kind == 13 then 31 else 0) ∷ [])) ∷ []))
        ∷ [])
    else ok s (respond 1 0x8002 (build (numeric 1 1 ∷ [])) ∷ [])

unfoldable pub handle_sensor : Channels → Fields → Answer
handle_sensor s fields = sensor_request s (get 1 fields)

unfoldable pub handle_microphone : Channels → ℕ → Fields → Answer
handle_microphone s id fields =
    if id == 0x8000
    then if is_value (get 1 fields) 1
      then ok (record s { setup = insert s.setup 9 })
          (respond 9 0x8003 (build (numeric 1 2 ∷ numeric 2 1 ∷ numeric 3 0 ∷ [])) ∷ [])
      else error s microphone_codec
    else if id == 0x8005
    then if contains s.setup 9
      then ok s (microphone (not (or_value (get 1 fields) 0 == 0)) (or_value (get 4 fields) 1) ∷ [])
      else error s microphone_before_setup
    else if id == 0x8002
    then ok s (microphone_stop ∷ [])
    else if id == 0x8004
    then ok s (microphone_ack (or_value (get 1 fields) 0) (or_value (get 2 fields) 0) ∷ [])
    else ok s []

-- The messages whose fields are read.
unfoldable pub handle_fields : Channels → ℕ → ℕ → List ℕ → Fields → Answer
handle_fields s channel id body fields =
    if id == 7
    then handle_open s channel fields
    else if channel == 0
    then handle_control s id body fields
    else if not (contains s.open_channels channel)
    then error s (unopened channel)
    else if channel == 1 && id == 0x8001
    then handle_sensor s fields
    else if channel == 8 && (id == 0x8002 || id == 0x19)
    then ok s (respond 8 (if id == 0x19 then 0x1a else 0x8003) (build (numeric 1 0 ∷ [])) ∷ [])
    else if channel == 9
    then handle_microphone s id fields
    else if is_media channel
    then handle_stream s channel id fields
    else ok s []

abbrev pub is_metadata : ℕ → ℕ → Bool
is_metadata channel id =
    (channel == 0 && (id == 5 || id == 23)) || (channel == 10 && (id == 0x8001 || id == 0x8003))

abbrev pub read_fields : Channels → ℕ → ℕ → List ℕ → Proto.Result Fields → Answer
read_fields s channel id body (failed e) = error s (bad_fields e)
read_fields s channel id body (found fields) = handle_fields s channel id body fields

module _ (is_utf8 : List ℕ → Bool) (trim : List ℕ → List ℕ) where
  unfoldable pub handle_metadata : Channels → ℕ → ℕ → List ℕ → Answer
  handle_metadata s channel id body = with_discovery channel id (
      if channel == 0 || contains s.open_channels channel
      then with_update s channel id (parse is_utf8 trim channel id body)
      else (note_warning s channel id, []))

  unfoldable pub handle : Channels → ℕ → ℕ → List ℕ → Answer
  handle s channel id body =
      if leb id 1 && is_media channel
      then handle_media s channel id body
      else if is_metadata channel id
      then handle_metadata s channel id body
      else if channel == 10 && not (id == 7)
      then ok s []
      else read_fields s channel id body (numbers body)
