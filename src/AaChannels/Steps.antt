-- ===== src/AaChannels/Steps.antt =====
-- The steps that a message of the phone can be, as a relation between the state before, the channel
-- and the answer: what a message may change, and under which condition.
pub mod Streams
pub mod Refinement
use project_argo.Common.{
  ℕ, ◌+◌, ◌≤◌, ◌≡◌, ◌≢◌, ◌⊎◌, List, [], ◌∷◌, Bool, true, false, Option, some, length, drop, ◌==◌,
  if◌then◌else◌,
}
use project_argo.AaChannels.Proto.{Fields, get, found, numbers, numeric, build}
use project_argo.AaChannels.State.{
  Reply, new_reply, VideoCodec, h264, hevc, Effect, video_codec, reply, video, established,
  host_return, audio, microphone, microphone_ack, microphone_stop, media, end, metadata, Channels,
  contains, insert, lookup, remove, note_warning, ChannelError, Answer, ok, error,
}

-- Whether an effect brings content of a stream.
unfoldable pub has_media : List Effect → Bool
has_media [] = false
has_media (media channel content ∷ effects) = true
has_media (video_codec c ∷ effects) = has_media effects
has_media (reply r ∷ effects) = has_media effects
has_media (video b ∷ effects) = has_media effects
has_media (established ∷ effects) = has_media effects
has_media (host_return ∷ effects) = has_media effects
has_media (audio c b ∷ effects) = has_media effects
has_media (microphone b n ∷ effects) = has_media effects
has_media (microphone_ack n m ∷ effects) = has_media effects
has_media (microphone_stop ∷ effects) = has_media effects
has_media (end ∷ effects) = has_media effects
has_media (metadata u ∷ effects) = has_media effects

-- The four media channels.
abbrev pub IsMedia : ℕ → Type 0
IsMedia c = (3 ≤ c) × (c ≤ 6)

-- The services that the answer to a discovery request lists.
abbrev pub IsService : ℕ → Type 0
IsService c = (c ≡ 1) ⊎ (IsMedia c ⊎ ((8 ≤ c) × (c ≤ 10)))

-- A video configuration that is offered: 0 is H.264 and 1 is HEVC.
abbrev pub IsConfig : Channels → ℕ → Type 0
IsConfig s config = (config ≡ 0) ⊎ ((config ≡ 1) × (s.offer_hevc ≡ true))

-- A request to start a stream of the given session.
abbrev pub Starts : List ℕ → ℕ → Type 0
Starts body session =
    (fields : Fields) × (numbers body ≡ found fields) × (get 1 fields ≡ some session)

-- The content of a media message: id 0 has a timestamp of 8 bytes before it.
abbrev pub content_of : ℕ → List ℕ → List ℕ
content_of id body = if id == 0 then drop 8 body else body

-- The acknowledgement of one packet of a session.
abbrev pub acknowledgement : ℕ → ℕ → Reply
acknowledgement channel session =
    new_reply channel 0x8004 (build (numeric 1 session ∷ numeric 2 1 ∷ []))

-- `Step s channel id body a`: the answer `a` to a message on the channel in the state `s`.
pub data Step (s : Channels) (channel id : ℕ) (body : List ℕ) : Answer → Type 0 where
  -- An error changes nothing.
  refuses : (e : ChannelError) → Step s channel id body (error s e)
  answers :
      (effects : List Effect) → has_media effects ≡ false → Step s channel id body (ok s effects)
  -- Content of a stream, with its acknowledgement.
  streams :
      (session : ℕ) (content : List ℕ) (r : Reply)
      → IsMedia channel
      → lookup s.sessions channel ≡ some session
      → length content ≤ 4194304
      → id ≤ 1
      → content ≡ content_of id body
      → r ≡ acknowledgement channel session
      → Step s channel id body (ok s (media channel content ∷ reply r ∷ []))
  warns :
      (effects : List Effect)
      → has_media effects ≡ false
      → Step s channel id body (ok (note_warning s channel id) effects)
  discovers :
      (effects : List Effect)
      → has_media effects ≡ false
      → Step s channel id body (ok (record s { discovered = true }) effects)
  warns_discovers :
      (effects : List Effect)
      → has_media effects ≡ false
      → Step s channel id body
          (ok (record (note_warning s channel id) { discovered = true }) effects)
  opens :
      (target : ℕ) (effects : List Effect)
      → has_media effects ≡ false
      → s.discovered ≡ true
      → IsService target
      → Step s channel id body
          (ok (record s { open_channels = insert s.open_channels target }) effects)
  -- The setup of the microphone or of a media channel, whose video codec is fixed by the first.
  sets_up_microphone :
      (effects : List Effect)
      → has_media effects ≡ false
      → contains s.open_channels 9 ≡ true
      → Step s channel id body (ok (record s { setup = insert s.setup 9 }) effects)
  sets_up :
      (config : ℕ) (effects : List Effect)
      → has_media effects ≡ false
      → IsMedia channel
      → contains s.open_channels channel ≡ true
      → (channel ≢ 3 → config ≡ s.video_config)
      → (channel ≡ 3 → IsConfig s config)
      → (channel ≡ 3 → contains s.setup 3 ≡ true → config ≡ s.video_config)
      → Step s channel id body
          (ok (record s { video_config = config; setup = insert s.setup channel }) effects)
  starts :
      (session : ℕ) (effects : List Effect)
      → has_media effects ≡ false
      → IsMedia channel
      → contains s.setup channel ≡ true
      → id ≡ 0x8001
      → Starts body session
      → Step s channel id body
          (ok (record s { sessions = (channel, session) ∷ s.sessions }) effects)
  stops :
      (effects : List Effect)
      → has_media effects ≡ false
      → Step s channel id body (ok (record s { sessions = remove s.sessions channel }) effects)
  focuses :
      (requested : Bool) (effects : List Effect)
      → has_media effects ≡ false
      → Step s channel id body (ok (record s { video_requested = requested }) effects)
