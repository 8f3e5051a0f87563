-- ===== src/AaChannels/Streaming.antt =====
-- Which messages of the phone stand behind the content that `Channels::handle` hands out.
use project_argo.Common.{ℕ, ◌≤◌, ◌≡◌, ◌⊎◌, List, [], ◌∷◌, ◌++◌, Bool, true, some, length, All}
use project_argo.AaChannels.Proto.{Fields, found, numbers}
use project_argo.AaChannels.State.{
  Effect, media, reply, Channels, contains, lookup, Answer, ok, error,
}
use project_argo.AaChannels.Steps.{IsMedia, Starts, content_of, acknowledgement}
use project_argo.AaChannels.Safety.{Call, message, request_video}

-- A message that starts the stream of a channel with a session, and one that stops it.
abbrev pub IsStart : ℕ → ℕ → Call → Type 0
IsStart channel session (message c id body) = (c ≡ channel) × (id ≡ 0x8001) × Starts body session
IsStart channel session (request_video b) = ⊥

abbrev pub IsStop : ℕ → Call → Type 0
IsStop channel (message c id body) =
    (c ≡ channel) × (id ≡ 0x8002) × ((fields : Fields) × (numbers body ≡ found fields))
IsStop channel (request_video b) = ⊥

-- The calls contain a start of the stream, and no stop behind it.
abbrev pub IsStarted : ℕ → ℕ → List Call → Type 0
IsStarted channel session cs =
    (before : List Call) × (c : Call) × (later : List Call) × (cs ≡ before ++ (c ∷ later))
    × IsStart channel session c
    × All (λ (k : Call). ¬ IsStop channel k) later

unfoldable pub effects_of : Answer → List Effect
effects_of (ok s effects) = effects
effects_of (error s e) = []

-- What an answer with content is: one packet with its acknowledgement, in a running session.
abbrev IsStreamed : Channels → ℕ → ℕ → List ℕ → List Effect → Type 0
IsStreamed s channel id body effects =
    (session : ℕ) × (lookup s.sessions channel ≡ some session)
    × (id ≤ 1)
    × (length (content_of id body) ≤ 4194304)
    × (effects ≡ media channel (content_of id body) ∷ reply (acknowledgement channel session) ∷ [])

-- A session that runs after a message ran before it, or was started by it.
abbrev Origin : Channels → ℕ → ℕ → Call → Type 0
Origin s channel session k = (lookup s.sessions channel ≡ some session) ⊎ IsStart channel session k

module _ (is_utf8 : List ℕ → Bool) (trim : List ℕ → List ℕ) where
  -- Every session that runs was started by one of the calls, and not stopped since.
  abbrev Running : Channels → List Call → Type 0
  Running s cs = (c n : ℕ) → lookup s.sessions c ≡ some n → IsStarted c n cs

-- The content of a message, which a stream that was started hands out.
abbrev pub IsDelivered : Channels → List Call → ℕ → ℕ → List ℕ → List Effect → Type 0
IsDelivered s cs channel id body effects =
    (session : ℕ) × IsMedia channel
    × (s.discovered ≡ true)
    × (contains s.open_channels channel ≡ true)
    × (contains s.setup channel ≡ true)
    × IsStarted channel session cs
    × (id ≤ 1)
    × (length (content_of id body) ≤ 4194304)
    × (effects ≡ media channel (content_of id body) ∷ reply (acknowledgement channel session) ∷ [])
