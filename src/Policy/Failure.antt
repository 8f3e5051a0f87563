-- ===== src/Policy/Failure.antt =====
-- native/projection/argo-projectiond/src/failure.rs: which failures end a connection for good and
-- which are tried again. What the libraries say of their errors (their kinds and texts) is given.
pub mod Retry
use Prim.Native.String.{String}
use project_argo.Common.{Bool, true, false, ◌&&◌, Option, none, some, if◌then◌else◌}
use project_argo.AaSession.{FrameError, disconnect_mid_frame}
use project_argo.AaSession.Version.{
  IoError, VersionNegotiationError, transport, frame, disconnected,
}

pub data Kind : Type 0 where
  transport_loss network_loss setup_timeout cancelled_kind authorization protocol : Kind
  configuration_kind cleanup_kind bootstrap_closed : Kind

pub record Failure : Type 0 where
  pub kind : Kind
  pub detail : String
  pub cleanup : Option String

unfoldable pub new : Kind → String → Failure
new kind detail = record { kind = kind; detail = detail; cleanup = none }

unfoldable pub configuration : String → Failure
unfolding new
configuration detail = new configuration_kind detail

unfoldable pub network : String → Failure
unfolding new
network detail = new network_loss detail

unfoldable pub timeout : String → Failure
unfolding new
timeout detail = new setup_timeout detail

unfoldable pub cancelled : Failure
unfolding new
cancelled = new cancelled_kind "Explicit connection request stopped"

abbrev pub is_none : Option String → Bool
is_none none = true
is_none (some s) = false

abbrev pub is_loss : Kind → Bool
is_loss transport_loss = true
is_loss network_loss = true
is_loss setup_timeout = true
is_loss _ = false

unfoldable pub retryable : Failure → Bool
retryable f = is_none f.cleanup && is_loss f.kind

-- `io::ErrorKind`, and any kind that the code does not name.
pub data IoErrorKind : Type 0 where
  unexpected_eof connection_reset connection_aborted broken_pipe : IoErrorKind
  not_connected timed_out network_down network_unreachable : IoErrorKind
  host_unreachable invalid_data other_kind : IoErrorKind

abbrev pub kind_of_io : IoErrorKind → Kind
kind_of_io unexpected_eof = transport_loss
kind_of_io connection_reset = transport_loss
kind_of_io connection_aborted = transport_loss
kind_of_io broken_pipe = transport_loss
kind_of_io not_connected = transport_loss
kind_of_io timed_out = transport_loss
kind_of_io network_down = network_loss
kind_of_io network_unreachable = network_loss
kind_of_io host_unreachable = network_loss
kind_of_io invalid_data = protocol
kind_of_io other_kind = configuration_kind

-- `bluer::ErrorKind`, likewise.
pub data BluerErrorKind : Type 0 where
  authentication_canceled authentication_failed authentication_rejected : BluerErrorKind
  authentication_timeout not_authorized connection_attempt_failed : BluerErrorKind
  not_ready other_bluer : BluerErrorKind

abbrev pub kind_of_bluer : BluerErrorKind → Kind
kind_of_bluer authentication_canceled = authorization
kind_of_bluer authentication_failed = authorization
kind_of_bluer authentication_rejected = authorization
kind_of_bluer authentication_timeout = authorization
kind_of_bluer not_authorized = authorization
kind_of_bluer connection_attempt_failed = transport_loss
kind_of_bluer not_ready = network_loss
kind_of_bluer other_bluer = configuration_kind

unfoldable pub from_string : String → Failure
unfolding new
from_string s = new protocol s

unfoldable pub from_bluer : BluerErrorKind → String → Failure
unfolding new
from_bluer kind text = new (kind_of_bluer kind) text

unfoldable pub from_io : IoErrorKind → String → Failure
unfolding new
from_io kind text = new (kind_of_io kind) text

abbrev pub is_cut : FrameError → Bool
is_cut (disconnect_mid_frame n) = true
is_cut _ = false

module _ (io_kind : IoError → IoErrorKind) (io_text : IoError → String)
    (text : VersionNegotiationError → String) where
  unfoldable pub from_negotiation : VersionNegotiationError → Failure
  unfolding new from_io
  from_negotiation (transport x) = from_io (io_kind x) (io_text x)
  from_negotiation disconnected = new transport_loss (text disconnected)
  from_negotiation (frame x) =
      if is_cut x then new transport_loss (text (frame x)) else new protocol (text (frame x))
  from_negotiation e = new protocol (text e)
