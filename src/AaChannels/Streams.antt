-- ===== src/AaChannels/Streams.antt =====
-- aa_channels.rs, the part of `Channels::handle` that is about the media channels.
use project_argo.Common.{
  ℕ, List, [], ◌∷◌, Bool, true, false, Option, none, some, not, ltb, leb, ◌==◌, ◌&&◌, ◌||◌,
  if◌then◌else◌, length, drop,
}
use project_argo.AaChannels.Proto.{Fields, get, numeric, build}
use project_argo.AaChannels.State.{
  new_reply, h264, hevc, Effect, video_codec, reply, video, established, host_return, audio, media,
  Channels, contains, insert, lookup, remove, media_before_start, short_media, media_size_limit,
  unadvertised_codec, codec_fixed, stream_configuration, stream_session_missing, Answer, ok, error,
}

abbrev pub respond : ℕ → ℕ → List ℕ → Effect
respond channel id body = reply (new_reply channel id body)

abbrev pub or_value : Option ℕ → ℕ → ℕ
or_value none value = value
or_value (some n) value = n

abbrev pub is_value : Option ℕ → ℕ → Bool
is_value none value = false
is_value (some n) value = n == value

abbrev pub is_media : ℕ → Bool
is_media channel = leb 3 channel && leb channel 6

-- A media packet of the stream of the given session.
unfoldable pub media_packet : Channels → ℕ → List ℕ → ℕ → Answer
media_packet s channel content session =
    if ltb 4194304 (length content)
    then error s media_size_limit
    else ok s (
        media channel content
        ∷ respond channel 0x8004 (build (numeric 1 session ∷ numeric 2 1 ∷ []))
        ∷ [])

abbrev media_body : Channels → ℕ → ℕ → List ℕ → ℕ → Answer
media_body s channel id body session =
    if id == 0
    then if ltb (length body) 8
      then error s short_media
      else media_packet s channel (drop 8 body) session
    else media_packet s channel body session

abbrev pub in_session : Channels → ℕ → ℕ → List ℕ → Option ℕ → Answer
in_session s channel id body none = error s media_before_start
in_session s channel id body (some session) = media_body s channel id body session

unfoldable pub handle_media : Channels → ℕ → ℕ → List ℕ → Answer
handle_media s channel id body = in_session s channel id body (lookup s.sessions channel)

unfoldable pub is_offered : Channels → ℕ → Option ℕ → Bool
is_offered s channel codec =
    if channel == 3
    then is_value codec 3 || (s.offer_hevc && is_value codec 7)
    else is_value codec 1

-- Only HEVC on the video channel is not the first configuration.
abbrev pub config_index : ℕ → Option ℕ → ℕ
config_index channel codec = if channel == 3 && is_value codec 7 then 1 else 0

-- The video configuration behind a setup of the channel.
abbrev pub config_after : Channels → ℕ → Option ℕ → ℕ
config_after s channel codec = if channel == 3 then config_index channel codec else s.video_config

-- `AVChannelSetupRequest` of a media channel.
unfoldable pub handle_setup : Channels → ℕ → Fields → Answer
handle_setup s channel fields =
    let index = config_index channel (get 1 fields) in
    if not (is_offered s channel (get 1 fields))
    then error s unadvertised_codec
    else if channel == 3 && contains s.setup 3 && not (s.video_config == index)
    then error s codec_fixed
    else ok
        (record s {
          video_config = config_after s channel (get 1 fields);
          setup = insert s.setup channel;
        })
        (respond channel 0x8003 (build (numeric 1 2 ∷ numeric 2 4 ∷ numeric 3 index ∷ []))
          ∷ (if channel == 3 then video_codec (if index == 1 then hevc else h264) ∷ [] else []))

abbrev focus_reply : Bool → Effect
focus_reply focused =
    respond 3 0x8008 (build (numeric 1 (if focused then 1 else 2) ∷ numeric 2 0 ∷ []))

-- The stream of the given session starts: the newest session of a channel counts.
unfoldable pub start_stream : Channels → ℕ → Option ℕ → Answer
start_stream s channel none = error s stream_session_missing
start_stream s channel (some session) =
    ok (record s { sessions = (channel, session) ∷ s.sessions })
      (if channel == 3
        then established ∷ video s.video_requested ∷ focus_reply s.video_requested ∷ []
        else audio channel true ∷ [])

unfoldable pub handle_start : Channels → ℕ → Fields → Answer
handle_start s channel fields =
    if not (contains s.setup channel)
      || not (or_value (get 2 fields) 0 == (if channel == 3 then s.video_config else 0))
    then error s stream_configuration
    else start_stream s channel (get 1 fields)

unfoldable pub handle_stop : Channels → ℕ → Answer
handle_stop s channel =
    ok (record s { sessions = remove s.sessions channel })
      (if channel == 3 then video false ∷ [] else audio channel false ∷ [])

-- `VideoFocusRequest`: an explicit request to leave stays until the host asks for video again.
unfoldable pub handle_focus : Channels → Fields → Answer
handle_focus s fields =
    let leaves = is_value (get 2 fields) 2 in
    let requested = if leaves then false else s.video_requested in
    let focused = is_value (get 2 fields) 1 && requested in
    ok (record s { video_requested = requested })
      (focus_reply focused ∷ video focused ∷ (if leaves then host_return ∷ [] else []))

unfoldable pub handle_stream : Channels → ℕ → ℕ → Fields → Answer
handle_stream s channel id fields =
    if id == 0x8000
    then handle_setup s channel fields
    else if id == 0x8001
    then handle_start s channel fields
    else if id == 0x8002
    then handle_stop s channel
    else if id == 0x8007 && channel == 3
    then handle_focus s fields
    else ok s []
