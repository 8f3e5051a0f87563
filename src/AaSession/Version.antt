-- ===== src/AaSession/Version.antt =====
-- session.rs: the VersionRequest, its answer, and `negotiate_version` over a transport.

pub mod Exchange
use Prim.Native.String.{String}
use text.Mathlib.Text.{◌==◌ as str_eq}
use project_argo.Common.{
  Option, none, some, leb, ◌&&◌, ℕ, zero, suc, ◌+◌, ◌-◌, ◌≤◌, ◌≡◌, List, [], ◌∷◌, ◌++◌, ltb, ◌==◌,
  if◌then◌else◌, not, ◌||◌, length, byte_at, be16, be16_bytes, arith, lt→ltb,
}
use project_argo.AaSession.Frame.{
  Frame, FrameError, Result, ok, err, invalid_length, disconnect_mid_frame, encode_frame, push,
  flags_plaintext_single_frame, max_frame_payload_bytes,
}

pub record VersionResponse : Type 0 where
  pub major : ℕ
  pub minor : ℕ

-- Kinds of `io::Error` are numbers here, but for the one that the code makes itself.
pub data IoError : Type 0 where
  invalid_input : IoError
  other : ℕ → IoError

pub data VersionNegotiationError : Type 0 where
  transport : IoError → VersionNegotiationError
  frame : FrameError → VersionNegotiationError
  disconnected unexpected_frame malformed_response : VersionNegotiationError
  version_mismatch : ℕ → ℕ → VersionNegotiationError
  rejected_status : ℕ → VersionNegotiationError

-- `panicked` is no value of the code: it stands for `remove(0)` on an empty list.
pub data Answer (A : Type 0) : Type 0 where
  good : A → Answer A
  fail : VersionNegotiationError → Answer A
  panicked : Answer A

abbrev pub control_channel : ℕ
control_channel = 0

abbrev pub version_request_id : ℕ
version_request_id = 1

abbrev pub version_response_id : ℕ
version_response_id = 2

abbrev pub version_status_match : ℕ
version_status_match = 0

abbrev pub requested_version_major : ℕ
requested_version_major = 1

unfoldable pub version_request_frame_minor : ℕ → Frame
version_request_frame_minor minor = record {
  channel = control_channel;
  flags = flags_plaintext_single_frame;
  payload =
      be16_bytes version_request_id ++ (be16_bytes requested_version_major ++ be16_bytes minor);
}

-- The request of the default minor version, REQUESTED_VERSION_MINOR.
abbrev pub version_request_frame : Frame
version_request_frame = version_request_frame_minor 1

unfoldable pub parse_version_response : Frame → Answer VersionResponse
parse_version_response f =
    if not (f.channel == control_channel) || not (f.flags == flags_plaintext_single_frame)
    then fail unexpected_frame
    else if ltb (length f.payload) 8
    then fail malformed_response
    else let message_id = be16 (byte_at f.payload 0) (byte_at f.payload 1) in
      let major = be16 (byte_at f.payload 2) (byte_at f.payload 3) in
      let minor = be16 (byte_at f.payload 4) (byte_at f.payload 5) in
      let status = be16 (byte_at f.payload 6) (byte_at f.payload 7) in
      if not (message_id == version_response_id)
      then fail unexpected_frame
      else if major == 0
      then fail malformed_response
      else if status == 65535
      then fail (version_mismatch major minor)
      else if not (status == version_status_match)
      then fail (rejected_status status)
      else good (record { major = major; minor = minor })

-- A read that brings nothing: with bytes at hand the frame is cut, whatever the reason.
unfoldable pub interrupted : ℕ → VersionNegotiationError → Answer (List ℕ)
interrupted offset reason =
    if offset == 0 then fail reason else fail (frame (disconnect_mid_frame offset))

abbrev first_response : List Frame → Answer VersionResponse
first_response [] = panicked
first_response (f ∷ fs) = parse_version_response f

-- `FrameDecoder::default().push(&wire)?.remove(0)` and `parse_version_response`.
unfoldable pub decode_response : Answer (List ℕ) → Answer VersionResponse
decode_response (good wire) = elim (push [] wire).0 [
  | ok frames ↦ first_response frames
  | err e ↦ fail (frame e)
]
decode_response (fail e) = fail e
decode_response panicked = panicked

-- configuration.rs, `protocol_minor`: `none` is its error.
unfoldable pub protocol_minor : Option String → Option ℕ
protocol_minor none = some 1
protocol_minor (some v) = if str_eq v "1.1" then some 1 else if str_eq v "1.7" then some 7 else none

-- What `read` on the transport gives: bytes, none at the end of the stream, or an error.
pub data ReadResult : Type 0 where
  got : List ℕ → ReadResult
  read_error : IoError → ReadResult

-- `AndroidAutoTransport`: `read` is given the room there is, and fills at most that.
pub record AndroidAutoTransport : Type 1 where
  pub State : Type 0
  pub read : ℕ → State → ReadResult × State
  -- `none` when all is written, or the error.
  pub write_all : List ℕ → State → Option IoError × State
  pub fits :
      (room : ℕ) (s : State) (bs : List ℕ) (t : State)
      → read room s ≡ (got bs, t)
      → length bs ≤ room

module _ (tr : AndroidAutoTransport) where
  open tr use {State, read, write_all}

  -- The two loops `while offset < wire.len()`; `wire` holds the `offset` bytes read so far. In the
  -- second loop the offset is at least 4, so its cases for offset 0 do not arise. The fuel is
  -- the bytes that are missing: every turn that goes on reads at least one.
  unfoldable pub fill : ℕ → ℕ → List ℕ → State → Answer (List ℕ) × State
  fill zero len wire s = (good wire, s)
  fill (suc fuel) len wire s =
      let (r, t) = read (len - length wire) s in
      let ended : Answer (List ℕ) × State = elim r [
        | got [] ↦ (interrupted (length wire) disconnected, t)
        | got (b ∷ bs) ↦ fill fuel len (wire ++ (b ∷ bs)) t
        | read_error e ↦ (interrupted (length wire) (transport e), t)
      ] in
      if ltb (length wire) len then ended else (good wire, s)

  unfoldable pub read_payload : List ℕ → State → Answer VersionResponse × State
  read_payload header s =
      let len = be16 (byte_at header 2) (byte_at header 3) in
      if leb 2 len && leb len max_frame_payload_bytes
      then (let (w, t) = fill len (4 + len) header s in (decode_response w, t))
      else (fail (frame (invalid_length len)), s)

  unfoldable pub read_response : State → Answer VersionResponse × State
  read_response s =
      let (w, t) = fill 4 4 [] s in
      elim w [
        | good header ↦ read_payload header t
        | fail e ↦ (fail e, t)
        | panicked ↦ (panicked, t)
      ]

  unfoldable pub send_request : ℕ → State → Answer VersionResponse × State
  send_request minor s = elim (encode_frame (version_request_frame_minor minor)) [
    | err e ↦ (fail (frame e), s)
    | ok request ↦
        let (w, t) = write_all request s in
        elim w [ none ↦ read_response t | some e ↦ (fail (transport e), t) ]
  ]

  -- The argument is the variable ARGO_ANDROID_AUTO_PROTOCOL_VERSION of the environment.
  unfoldable pub negotiate_version : Option String → State → Answer VersionResponse × State
  negotiate_version value s = elim (protocol_minor value) [
    | none ↦ (fail (transport invalid_input), s)
    | some minor ↦ send_request minor s
  ]
