-- ===== src/AaChannels/Safety.antt =====
-- Runs of the channels: messages of the phone and requests of the host in any order.
use native.Mathlib.Decide.{ℕ_discrete}
use mathlib.Core.Path.{subst}
use project_argo.Common.{ℕ, ◌≡◌, refl, ◌∙◌, List, [], ◌∷◌, Bool, true, if_holds}
use project_argo.AaChannels.State.{
  Channels, set_video_requested, contains, note_warning, is_noted, ChannelError, Answer, ok, error,
  left,
}
use project_argo.AaChannels.Handle.{handle}
use project_argo.AaChannels.Steps.{
  Step, refuses, answers, streams, warns, discovers, warns_discovers, opens, sets_up_microphone,
  sets_up, starts, stops, focuses,
}
use project_argo.AaChannels.Steps.Refinement.{handle-Step}
use project_argo.AaChannels.Invariant.{
  IsChannels, Step-IsChannels, requested-IsChannels, contains-insert_keeps,
}

pub data Call : Type 0 where
  message : (channel id : ℕ) → (body : List ℕ) → Call
  request_video : Bool → Call

module _ (is_utf8 : List ℕ → Bool) (trim : List ℕ → List ℕ) where
  unfoldable pub call : Channels → Call → Channels
  call s (message channel id body) = left (handle is_utf8 trim s channel id body)
  call s (request_video requested) = set_video_requested s requested

  unfoldable pub run : Channels → List Call → Channels
  run s [] = s
  run s (c ∷ cs) = run (call s c) cs

  pub run-IsChannels : (s : Channels) (cs : List Call) → IsChannels s → IsChannels (run s cs)
  unfolding run call
  run-IsChannels s [] i = i
  run-IsChannels s (message channel id body ∷ cs) i =
      run-IsChannels (left (handle is_utf8 trim s channel id body)) cs
        (Step-IsChannels s channel _ (handle-Step is_utf8 trim s channel id body) i)
  run-IsChannels s (request_video b ∷ cs) i =
      run-IsChannels (set_video_requested s b) cs (requested-IsChannels s b i)

-- The video configuration is fixed once the video channel is set up, and it stays set up.
abbrev IsFixed : Channels → Channels → Type 0
IsFixed s t = (t.video_config ≡ s.video_config) × (contains t.setup 3 ≡ true)

note_warning-IsFixed :
    (s : Channels) (c id : ℕ) → contains s.setup 3 ≡ true → IsFixed s (note_warning s c id)
unfolding note_warning
note_warning-IsFixed s c id h =
    if_holds (IsFixed s) (is_noted s.metadata_warnings c id) _ _ (λ _. (refl, h)) (λ _. (refl, h))

Step-IsFixed :
    (s : Channels) (channel : ℕ) {id : ℕ} {body : List ℕ} (a : Answer)
    → Step s channel id body a
    → contains s.setup 3 ≡ true
    → IsFixed s (left a)
unfolding left
Step-IsFixed s channel _ (refuses e) h = (refl, h)
Step-IsFixed s channel _ (streams session content r m l k j c e) h = (refl, h)
Step-IsFixed s channel _ (answers effects q) h = (refl, h)
Step-IsFixed s channel _ (warns effects q) h = note_warning-IsFixed s channel _ h
Step-IsFixed s channel _ (discovers effects q) h = (refl, h)
Step-IsFixed s channel _ (warns_discovers effects q) h = note_warning-IsFixed s channel _ h
Step-IsFixed s channel _ (opens target effects q d t) h = (refl, h)
Step-IsFixed s channel _ (sets_up_microphone effects q o) h =
    (refl, contains-insert_keeps s.setup 9 3 h)
Step-IsFixed s channel _ (sets_up config effects q m o other fits fixed) h = (
  (elim (ℕ_discrete channel 3) [ yes p ↦ fixed p h | no n ↦ other n ]),
  contains-insert_keeps s.setup channel 3 h,
)
Step-IsFixed s channel _ (starts session effects q m o j k) h = (refl, h)
Step-IsFixed s channel _ (stops effects q) h = (refl, h)
Step-IsFixed s channel _ (focuses requested effects q) h = (refl, h)

abbrev IsUnchanged : Channels → Answer → Type 0
IsUnchanged s (ok t effects) = Unit {0}
IsUnchanged s (error t e) = t ≡ s

Step-IsUnchanged :
    (s : Channels) (channel : ℕ) {id : ℕ} {body : List ℕ} (a : Answer)
    → Step s channel id body a
    → IsUnchanged s a
Step-IsUnchanged s channel _ (refuses e) = refl
Step-IsUnchanged s channel _ (streams session content r m l k j c e) = tt
Step-IsUnchanged s channel _ (answers effects q) = tt
Step-IsUnchanged s channel _ (warns effects q) = tt
Step-IsUnchanged s channel _ (discovers effects q) = tt
Step-IsUnchanged s channel _ (warns_discovers effects q) = tt
Step-IsUnchanged s channel _ (opens target effects q d t) = tt
Step-IsUnchanged s channel _ (sets_up_microphone effects q o) = tt
Step-IsUnchanged s channel _ (sets_up config effects q m o other fits fixed) = tt
Step-IsUnchanged s channel _ (starts session effects q m o j k) = tt
Step-IsUnchanged s channel _ (stops effects q) = tt
Step-IsUnchanged s channel _ (focuses requested effects q) = tt

-- Once the video channel is set up, no message and no request changes the video configuration.
pub video_config-run :
    (is_utf8 : List ℕ → Bool) (trim : List ℕ → List ℕ) (s : Channels) (cs : List Call)
    → contains s.setup 3 ≡ true
    → (run is_utf8 trim s cs).video_config ≡ s.video_config
unfolding run call set_video_requested
video_config-run is_utf8 trim s [] h = refl
video_config-run is_utf8 trim s (message channel id body ∷ cs) h =
    let (p, q) = Step-IsFixed s channel _ (handle-Step is_utf8 trim s channel id body) h in
    video_config-run is_utf8 trim (left (handle is_utf8 trim s channel id body)) cs q ∙ p
video_config-run is_utf8 trim s (request_video b ∷ cs) h =
    video_config-run is_utf8 trim (set_video_requested s b) cs h

-- An error leaves the channels as they were.
pub handle_error :
    (is_utf8 : List ℕ → Bool) (trim : List ℕ → List ℕ) (s t : Channels) (channel id : ℕ)
    (body : List ℕ) (e : ChannelError)
    → handle is_utf8 trim s channel id body ≡ error t e
    → t ≡ s
handle_error is_utf8 trim s t channel id body e p =
    subst (IsUnchanged s) p
      (Step-IsUnchanged s channel _ (handle-Step is_utf8 trim s channel id body))
