-- ===== src/DaemonState/Tracks.antt =====
-- A client that follows the messages knows the device and the session of the daemon.
use mathlib.Core.Logic.{ite, if_pos, if_neg}
use project_argo.Common.{
  ℕ, ◌≡◌, refl, ap, ◌∙◌, List, [], ◌∷◌, ◌++◌, Bool, true, false, Option, none, some, not, ◌==◌,
  ==→eq, ◌||◌,
}
use project_argo.Metadata.Snapshot.{Snapshot}
use project_argo.DaemonState.Runtime.{Device, Session, Runtime}
use project_argo.DaemonState.Notices.{
  Notice, session_removed, device_removed, device_told, session_told, metadata_told, id_discrete,
  devices_discrete, sessions_discrete, Snapshot-discrete, differs, optional, session_id, device_id,
  removed_session, removed_device, changed_device, changed_session, changed_metadata,
  changed_streams, notices,
}
use project_argo.DaemonState.View.{
  tell_device, tell_session, follow, session_view, follow-append, follow_silent,
  changed_streams-IsStream, tell_device-IsStream, tell_session-IsStream, follow-IsStream,
  device_parts,
}

removed_session_view :
    (s : Session) (n : ℕ) (c : Option Session)
    → follow tell_session (some (s, n)) (removed_session (some s) c)
      ≡ ite (id_discrete (some s.id) (session_id c)) (some (s, n)) none
unfolding removed_session
removed_session_view s n c = go (id_discrete (some s.id) (session_id c))
  where
    go :
        (q : Dec (some s.id ≡ session_id c))
        → follow tell_session (some (s, n)) (optional (differs q) (session_removed s.id))
          ≡ ite q (some (s, n)) none
    go (yes _) = unfold follow in refl
    go (no _) =
        unfold follow tell_session in
        if_pos (id_discrete (some s.id) (some s.id)) refl none (some (s, n))

changed_session_view :
    (p : Option Session) (before : ℕ) (e : Session) (now : ℕ) (v : Option (Session × ℕ))
    → (p ≡ some e → before ≡ now → v ≡ some (e, now))
    → follow tell_session v (changed_session p before (some e) now) ≡ some (e, now)
unfolding changed_session
changed_session_view p before e now v h = go (sessions_discrete p (some e)) (before == now) refl
  where
    go :
        (q : Dec (p ≡ some e)) (t : Bool)
        → (before == now) ≡ t
        → follow tell_session v (optional (differs q || not t) (session_told e now)) ≡ some (e, now)
    go (yes k) true f = unfold follow in h k (==→eq before now f)
    go (yes k) false f = unfold follow tell_session in refl
    go (no _) t f = unfold follow tell_session in refl

session_parts :
    (p c : Option Session) (before now : ℕ)
    → follow tell_session
        (follow tell_session (session_view p before) (removed_session p c))
        (changed_session p before c now)
      ≡ session_view c now
session_parts none none before now = unfold removed_session changed_session follow in refl
session_parts none (some e) before now =
    unfold removed_session follow in changed_session_view none before e now none (λ k. absurd cc)
session_parts (some d) none before now =
    unfold changed_session follow in
    removed_session_view d before none
    ∙ if_neg (id_discrete (some d.id) none) (λ k. absurd cc) (some (d, before)) none
session_parts (some d) (some e) before now =
    changed_session_view (some d) before e now
      (follow tell_session (some (d, before)) (removed_session (some d) (some e)))
      (λ k n.
        removed_session_view d before (some e)
        ∙ if_pos (id_discrete (some d.id) (some e.id)) (ap session_id k) (some (d, before)) none
        ∙ ap (λ o. session_view o before) k
        ∙ ap (λ m. some (e, m)) n)

-- What a client shows: the device, and the session with the revision of the returns to the host.
pub record Shown : Type 0 where
  pub device : Option Device
  pub session : Option (Session × ℕ)

abbrev pub shown : Runtime → Shown
shown r = record { device = r.device; session = session_view r.session r.host_return_revision }

unfoldable pub tell : Shown → Notice → Shown
tell v n = record { device = tell_device v.device n; session = tell_session v.session n }

follow-tell :
    (v : Shown) (ns : List Notice)
    → follow tell v ns ≡ record {
      device = follow tell_device v.device ns;
      session = follow tell_session v.session ns;
    }
unfolding follow tell
follow-tell v [] = refl
follow-tell v (n ∷ ns) =
    follow-tell (record { device = tell_device v.device n; session = tell_session v.session n }) ns

skip_part {ℓ} :
    {A : Type ℓ} (tell : A → Notice → A) (v : A) (a b : List Notice)
    → follow tell v a ≡ v
    → follow tell v (a ++ b) ≡ follow tell v b
skip_part tell v a b e = follow-append tell v a b ∙ ap (λ w. follow tell w b) e

device-removed_session :
    (v : Option Device) (p c : Option Session) → follow tell_device v (removed_session p c) ≡ v
unfolding removed_session tell_device
device-removed_session v none c = unfold follow in refl
device-removed_session v (some s) c =
    follow_silent tell_device v (differs (id_discrete (some s.id) (session_id c)))
      (session_removed s.id) refl

device-changed_session :
    (v : Option Device) (p : Option Session) (before : ℕ) (c : Option Session) (now : ℕ)
    → follow tell_device v (changed_session p before c now) ≡ v
unfolding changed_session tell_device
device-changed_session v p before none now = unfold follow in refl
device-changed_session v p before (some s) now =
    follow_silent tell_device v (differs (sessions_discrete p (some s)) || not (before == now))
      (session_told s now) refl

silent-changed_metadata {ℓ} :
    {A : Type ℓ} (tell : A → Notice → A) (v : A) (p : Option Session) (before : Snapshot)
    (c : Option Session) (now : Snapshot)
    → ((s : Session) (m : Snapshot) → tell v (metadata_told s m) ≡ v)
    → follow tell v (changed_metadata p before c now) ≡ v
unfolding changed_metadata
silent-changed_metadata tell v p before none now h = unfold follow in refl
silent-changed_metadata tell v p before (some s) now h =
    follow_silent tell v
      (differs (Snapshot-discrete before now) || differs (id_discrete (session_id p) (some s.id)))
      (metadata_told s now) (h s now)

session-removed_device :
    (v : Option (Session × ℕ)) (p c : Option Device)
    → follow tell_session v (removed_device p c) ≡ v
unfolding removed_device tell_session
session-removed_device v none c = unfold follow in refl
session-removed_device v (some d) c =
    follow_silent tell_session v (differs (id_discrete (some d.id) (device_id c)))
      (device_removed d.id) refl

session-changed_device :
    (v : Option (Session × ℕ)) (p c : Option Device)
    → follow tell_session v (changed_device p c) ≡ v
unfolding changed_device tell_session
session-changed_device v p none = unfold follow in refl
session-changed_device v p (some d) =
    follow_silent tell_session v (differs (devices_discrete p (some d))) (device_told d) refl

notices-device : (p c : Runtime) → follow tell_device p.device (notices p c) ≡ c.device
unfolding notices
notices-device p c =
    let news = changed_session p.session p.host_return_revision c.session c.host_return_revision in
    let data_news = changed_metadata p.session p.metadata c.session c.metadata in
    let streams = changed_streams p c c.session in
    let gone = removed_device p.device c.device in
    let came = changed_device p.device c.device in
    let rest = news ++ (data_news ++ streams) in
    let v = follow tell_device p.device gone in
    let w = follow tell_device v came in
    skip_part tell_device p.device (removed_session p.session c.session) (gone ++ (came ++ rest))
      (device-removed_session p.device p.session c.session)
    ∙ follow-append tell_device p.device gone (came ++ rest)
    ∙ follow-append tell_device v came rest
    ∙ skip_part tell_device w news (data_news ++ streams)
        (device-changed_session w p.session p.host_return_revision c.session c.host_return_revision)
    ∙ skip_part tell_device w data_news streams (
        silent-changed_metadata tell_device w p.session p.metadata c.session c.metadata
          (λ s m. unfold tell_device in refl))
    ∙ follow-IsStream tell_device w streams (tell_device-IsStream w)
        (changed_streams-IsStream p c c.session)
    ∙ device_parts p.device c.device

notices-session :
    (p c : Runtime)
    → follow tell_session (session_view p.session p.host_return_revision) (notices p c)
      ≡ session_view c.session c.host_return_revision
unfolding notices
notices-session p c =
    let gone = removed_session p.session c.session in
    let news = changed_session p.session p.host_return_revision c.session c.host_return_revision in
    let data_news = changed_metadata p.session p.metadata c.session c.metadata in
    let streams = changed_streams p c c.session in
    let device_gone = removed_device p.device c.device in
    let device_came = changed_device p.device c.device in
    let rest = news ++ (data_news ++ streams) in
    let u = session_view p.session p.host_return_revision in
    let v = follow tell_session u gone in
    let w = follow tell_session v news in
    follow-append tell_session u gone (device_gone ++ (device_came ++ rest))
    ∙ skip_part tell_session v device_gone (device_came ++ rest)
        (session-removed_device v p.device c.device)
    ∙ skip_part tell_session v device_came rest (session-changed_device v p.device c.device)
    ∙ follow-append tell_session v news (data_news ++ streams)
    ∙ skip_part tell_session w data_news streams (
        silent-changed_metadata tell_session w p.session p.metadata c.session c.metadata
          (λ s m. unfold tell_session in refl))
    ∙ follow-IsStream tell_session w streams (tell_session-IsStream w)
        (changed_streams-IsStream p c c.session)
    ∙ session_parts p.session c.session p.host_return_revision c.host_return_revision

-- The notices from one state of the daemon to the next, one after another.
unfoldable pub all_notices : Runtime → List Runtime → List Notice
all_notices p [] = []
all_notices p (c ∷ cs) = notices p c ++ all_notices c cs

abbrev pub last_of : Runtime → List Runtime → Runtime
last_of p [] = p
last_of p (c ∷ cs) = last_of c cs

-- The messages that `snapshot_messages` decides on, as notices: what each tells, before it is
-- encoded. Whatever states the daemon goes through, a client that starts with what the first one
-- shows and follows the notices between them, taking away a device or a session when a notice names
-- its id, shows in the end the device of the last state, and its session with its state and failure
-- and with the revision of the returns to the host. That a notice can be encoded is not stated.
pub follow-all_notices :
    (p : Runtime) (cs : List Runtime)
    → follow tell (shown p) (all_notices p cs) ≡ shown (last_of p cs)
unfolding all_notices
follow-all_notices p [] = unfold follow in refl
follow-all_notices p (c ∷ cs) =
    follow-append tell (shown p) (notices p c) (all_notices c cs)
    ∙ ap (λ v. follow tell v (all_notices c cs))
        (follow-tell (shown p) (notices p c)
          ∙ ap
              (λ d. record {
                device = d;
                session =
                    follow tell_session (session_view p.session p.host_return_revision)
                      (notices p c);
              })
              (notices-device p c)
          ∙ ap (λ t. record { device = c.device; session = t }) (notices-session p c))
    ∙ follow-all_notices c cs
