-- ===== src/AaSession/Engine/Order.antt =====
-- When a session runs: an account of the engine's phases by the order of the calls alone.
use project_argo.Common.{◌≡◌, ◌⊎◌, List, [], ◌∷◌, Bool, true, false, if◌then◌else◌}
use project_argo.AaSession.Engine.{
  SessionPhase, version_negotiation, waiting_for_tls, tls_handshake, service_discovery, closed,
  failed, Event, accept, begin, establish, disconnects, discover,
}

-- The four steps of the protocol.
pub data Stage : Type 0 where
  accepting starting securing discovering : Stage

abbrev pub takes : Stage → Event → Bool
takes accepting accept = true
takes starting begin = true
takes securing establish = true
takes discovering (discover channels) = true
takes _ _ = false

-- The stages occur among the calls, in this order, with any calls between them.
abbrev pub InOrder : List Stage → List Event → Type 0
InOrder [] es = Unit {0}
InOrder (k ∷ ks) [] = ⊥
InOrder (k ∷ ks) (e ∷ es) = ((takes k e ≡ true) × InOrder ks es) ⊎ InOrder (k ∷ ks) es

abbrev pub Connected : List Event → Type 0
Connected [] = Unit {0}
Connected (disconnects ∷ es) = ⊥
Connected (accept ∷ es) = Connected es
Connected (begin ∷ es) = Connected es
Connected (establish ∷ es) = Connected es
Connected (discover c ∷ es) = Connected es

abbrev remaining : SessionPhase → List Stage
remaining version_negotiation = accepting ∷ starting ∷ securing ∷ discovering ∷ []
remaining waiting_for_tls = starting ∷ securing ∷ discovering ∷ []
remaining tls_handshake = securing ∷ discovering ∷ []
remaining service_discovery = discovering ∷ []
remaining _ = []

abbrev is_live : SessionPhase → Bool
is_live closed = false
is_live failed = false
is_live _ = true

abbrev advance : List Stage → Event → List Stage
advance [] e = []
advance (k ∷ ks) e = if takes k e then ks else (k ∷ ks)
