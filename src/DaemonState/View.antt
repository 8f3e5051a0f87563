-- ===== src/DaemonState/View.antt =====
-- What a client that follows the messages knows.
use mathlib.Core.Logic.{ite, if_pos, if_neg}
use project_argo.Common.{
  ℕ, ◌≡◌, refl, ap, ◌∙◌, List, [], ◌∷◌, ◌++◌, Bool, true, false, Option, none, some, if◌then◌else◌,
  All,
}
use project_argo.AaChannels.Display.{DisplayConfig}
use project_argo.DaemonState.Runtime.{Device, Session, Runtime}
use project_argo.DaemonState.Notices.{
  Notice, session_removed, device_removed, device_told, session_told, metadata_told, video_told,
  audio_told, id_discrete, devices_discrete, differs, optional, device_id, removed_device,
  changed_device, shown_video, changed_video, changed_channel, changed_streams,
}

-- A thing with an id goes when the id is removed.
abbrev pub without {ℓ} : {A : Type ℓ} → (A → List ℕ) → List ℕ → Option A → Option A
without id_of id none = none
without id_of id (some a) = ite (id_discrete (some (id_of a)) (some id)) none (some a)

unfoldable pub tell_device : Option Device → Notice → Option Device
tell_device d (device_removed id) = without (λ x. x.id) id d
tell_device d (device_told e) = some e
tell_device d (session_removed id) = d
tell_device d (session_told s n) = d
tell_device d (metadata_told s m) = d
tell_device d (video_told s c e v n) = d
tell_device d (audio_told s i on) = d

-- The session with the revision of the returns to the host.
unfoldable pub tell_session : Option (Session × ℕ) → Notice → Option (Session × ℕ)
tell_session v (session_removed id) = without (λ x. x.0.id) id v
tell_session v (session_told s n) = some (s, n)
tell_session v (device_removed id) = v
tell_session v (device_told e) = v
tell_session v (metadata_told s m) = v
tell_session v (video_told s c e w n) = v
tell_session v (audio_told s i on) = v

unfoldable pub follow {ℓ} : {A : Type ℓ} → (A → Notice → A) → A → List Notice → A
follow tell v [] = v
follow tell v (n ∷ ns) = follow tell (tell v n) ns

abbrev pub session_view : Option Session → ℕ → Option (Session × ℕ)
session_view none n = none
session_view (some s) n = some (s, n)

pub follow-append {ℓ} :
    {A : Type ℓ} (tell : A → Notice → A) (v : A) (a b : List Notice)
    → follow tell v (a ++ b) ≡ follow tell (follow tell v a) b
unfolding follow
follow-append tell v [] b = refl
follow-append tell v (n ∷ a) b = follow-append tell (tell v n) a b

follow-optional {ℓ} :
    {A : Type ℓ} (tell : A → Notice → A) (v : A) (t : Bool) (n : Notice)
    → follow tell v (optional t n) ≡ (if t then tell v n else v)
unfolding follow
follow-optional tell v true n = refl
follow-optional tell v false n = refl

-- What an optional notice leaves as it is.
pub follow_silent {ℓ} :
    {A : Type ℓ} (tell : A → Notice → A) (v : A) (t : Bool) (n : Notice)
    → tell v n ≡ v
    → follow tell v (optional t n) ≡ v
unfolding follow
follow_silent tell v true n e = e
follow_silent tell v false n e = refl

-- The notices of the streams.
abbrev pub IsStream : Notice → Type 0
IsStream (video_told s c e v n) = Unit {0}
IsStream (audio_told s i on) = Unit {0}
IsStream (session_removed id) = ⊥
IsStream (device_removed id) = ⊥
IsStream (device_told e) = ⊥
IsStream (session_told s n) = ⊥
IsStream (metadata_told s m) = ⊥

optional-IsStream : (t : Bool) (n : Notice) → IsStream n → All IsStream (optional t n)
optional-IsStream true n i = (i, tt)
optional-IsStream false n i = tt

append-IsStream : (a b : List Notice) → All IsStream a → All IsStream b → All IsStream (a ++ b)
append-IsStream [] b h g = g
append-IsStream (n ∷ a) b h g = (h.0, append-IsStream a b h.1 g)

changed_video-IsStream :
    (p c : Runtime) (s : Session) (o : Option (DisplayConfig × Bool))
    → All IsStream (shown_video p c s o)
unfolding shown_video
changed_video-IsStream p c s none = tt
changed_video-IsStream p c s (some (display, visible)) = optional-IsStream _ _ tt

changed_channel-IsStream :
    (p c : Runtime) (s : Session) (i : ℕ) (before now : Bool)
    → All IsStream (changed_channel p c s i before now)
unfolding changed_channel
changed_channel-IsStream p c s i before now = optional-IsStream _ (audio_told s i now) tt

pub changed_streams-IsStream :
    (p c : Runtime) (o : Option Session) → All IsStream (changed_streams p c o)
unfolding changed_streams changed_video
changed_streams-IsStream p c none = tt
changed_streams-IsStream p c (some s) =
    let media = changed_channel p c s 0 p.audio.media c.audio.media in
    let speech = changed_channel p c s 1 p.audio.speech c.audio.speech in
    let system = changed_channel p c s 2 p.audio.system c.audio.system in
    append-IsStream (shown_video p c s c.video) (media ++ (speech ++ system))
      (changed_video-IsStream p c s c.video)
      (append-IsStream media (speech ++ system)
        (changed_channel-IsStream p c s 0 p.audio.media c.audio.media)
        (append-IsStream speech system
          (changed_channel-IsStream p c s 1 p.audio.speech c.audio.speech)
          (changed_channel-IsStream p c s 2 p.audio.system c.audio.system)))

pub tell_device-IsStream : (v : Option Device) (n : Notice) → IsStream n → tell_device v n ≡ v
unfolding tell_device
tell_device-IsStream v (video_told s c e w n) i = refl
tell_device-IsStream v (audio_told s k on) i = refl
tell_device-IsStream v (session_removed _) i = absurd i
tell_device-IsStream v (device_removed _) i = absurd i
tell_device-IsStream v (device_told _) i = absurd i
tell_device-IsStream v (session_told _ _) i = absurd i
tell_device-IsStream v (metadata_told _ _) i = absurd i

pub tell_session-IsStream :
    (v : Option (Session × ℕ)) (n : Notice) → IsStream n → tell_session v n ≡ v
unfolding tell_session
tell_session-IsStream v (video_told s c e w n) i = refl
tell_session-IsStream v (audio_told s k on) i = refl
tell_session-IsStream v (session_removed _) i = absurd i
tell_session-IsStream v (device_removed _) i = absurd i
tell_session-IsStream v (device_told _) i = absurd i
tell_session-IsStream v (session_told _ _) i = absurd i
tell_session-IsStream v (metadata_told _ _) i = absurd i

pub follow-IsStream {ℓ} :
    {A : Type ℓ} (tell : A → Notice → A) (v : A) (ns : List Notice)
    → ((n : Notice) → IsStream n → tell v n ≡ v)
    → All IsStream ns
    → follow tell v ns ≡ v
unfolding follow
follow-IsStream tell v [] h a = refl
follow-IsStream tell v (n ∷ ns) h a =
    ap (λ w. follow tell w ns) (h n a.0) ∙ follow-IsStream tell v ns h a.1

-- The device of the client behind the removal, and behind the news of a device.
removed_device_view :
    (d : Device) (c : Option Device)
    → follow tell_device (some d) (removed_device (some d) c)
      ≡ ite (id_discrete (some d.id) (device_id c)) (some d) none
unfolding removed_device
removed_device_view d c = go (id_discrete (some d.id) (device_id c))
  where
    go :
        (q : Dec (some d.id ≡ device_id c))
        → follow tell_device (some d) (optional (differs q) (device_removed d.id))
          ≡ ite q (some d) none
    go (yes _) = unfold follow in refl
    go (no _) =
        unfold follow tell_device in if_pos (id_discrete (some d.id) (some d.id)) refl none (some d)

changed_device_view :
    (p : Option Device) (e : Device) (v : Option Device)
    → (p ≡ some e → v ≡ some e)
    → follow tell_device v (changed_device p (some e)) ≡ some e
unfolding changed_device
changed_device_view p e v h = go (devices_discrete p (some e))
  where
    go :
        (q : Dec (p ≡ some e))
        → follow tell_device v (optional (differs q) (device_told e)) ≡ some e
    go (yes k) = unfold follow in h k
    go (no _) = unfold follow tell_device in refl

pub device_parts :
    (p c : Option Device)
    → follow tell_device (follow tell_device p (removed_device p c)) (changed_device p c) ≡ c
device_parts none none = unfold removed_device changed_device follow in refl
device_parts none (some e) =
    unfold removed_device follow in changed_device_view none e none (λ k. k)
device_parts (some d) none =
    unfold changed_device follow in
    removed_device_view d none
    ∙ if_neg (id_discrete (some d.id) none) (λ k. absurd cc) (some d) none
device_parts (some d) (some e) =
    changed_device_view (some d) e (follow tell_device (some d) (removed_device (some d) (some e)))
      (λ k.
        removed_device_view d (some e)
        ∙ if_pos (id_discrete (some d.id) (some e.id)) (ap device_id k) (some d) none
        ∙ k)
