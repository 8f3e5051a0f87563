-- ===== src/AaSession/Engine.antt =====
-- session.rs, `AndroidAutoSessionEngine`: the phases of a session and its channels.
pub mod Order
use project_argo.Common.{
  ℕ, ◌≡◌, refl, ◌⊎◌, inl, inr, List, [], ◌∷◌, ◌++◌, Option, none, some, Bool, true, false, ◌==◌,
  if◌then◌else◌, arith,
}

pub data SessionPhase : Type 0 where
  version_negotiation waiting_for_tls tls_handshake service_discovery : SessionPhase
  running closed failed : SessionPhase

pub data ChannelRole : Type 0 where
  control main_video media_audio speech_audio system_audio input microphone : ChannelRole

-- The channels are a map: the newest entry of a key counts.
pub record AndroidAutoSessionEngine : Type 0 where
  pub phase : SessionPhase
  pub channels : List (ℕ × ChannelRole)

unfoldable pub default_engine : AndroidAutoSessionEngine
default_engine = record { phase = version_negotiation; channels = [] }

-- `BTreeMap::extend`: one insertion after the other.
unfoldable pub extend : List (ℕ × ChannelRole) → List (ℕ × ChannelRole) → List (ℕ × ChannelRole)
extend m [] = m
extend m (e ∷ es) = extend (e ∷ m) es

unfoldable pub lookup : ℕ → List (ℕ × ChannelRole) → Option ChannelRole
lookup k [] = none
lookup k ((j, role) ∷ m) = if j == k then some role else lookup k m

unfoldable pub version_accepted : AndroidAutoSessionEngine → AndroidAutoSessionEngine
version_accepted s = elim s.phase [
  | version_negotiation ↦ record s { phase = waiting_for_tls }
  | _ ↦ s
]

unfoldable pub begin_tls : AndroidAutoSessionEngine → AndroidAutoSessionEngine
begin_tls s = elim s.phase [ waiting_for_tls ↦ record s { phase = tls_handshake } | _ ↦ s ]

unfoldable pub tls_established : AndroidAutoSessionEngine → AndroidAutoSessionEngine
tls_established s = elim s.phase [ tls_handshake ↦ record s { phase = service_discovery } | _ ↦ s ]

unfoldable pub services_discovered :
    List (ℕ × ChannelRole) → AndroidAutoSessionEngine → AndroidAutoSessionEngine
services_discovered channels s = elim s.phase [
  | service_discovery ↦ record { phase = running; channels = extend s.channels channels }
  | _ ↦ s
]

unfoldable pub channel : ℕ → AndroidAutoSessionEngine → Option ChannelRole
channel id s = lookup id s.channels

unfoldable pub disconnect_engine : AndroidAutoSessionEngine → AndroidAutoSessionEngine
disconnect_engine s = record { phase = closed; channels = [] }

-- A call of one of the methods that change the engine.
pub data Event : Type 0 where
  accept begin establish disconnects : Event
  discover : List (ℕ × ChannelRole) → Event

unfoldable pub step : Event → AndroidAutoSessionEngine → AndroidAutoSessionEngine
unfolding version_accepted begin_tls tls_established services_discovered disconnect_engine
step accept s = version_accepted s
step begin s = begin_tls s
step establish s = tls_established s
step (discover channels) s = services_discovered channels s
step disconnects s = disconnect_engine s

unfoldable pub run : List Event → AndroidAutoSessionEngine → AndroidAutoSessionEngine
run [] s = s
run (e ∷ es) s = run es (step e s)
