-- ===== src/CarPlay/Csm/Builders.antt =====
-- csm.rs, `AccessoryIdentity::wired_message` and `StartSession::message`.
pub mod Small
pub mod Encodes
use project_argo.Common.{
  ℕ, ◌+◌, ◌/◌, ◌%◌, List, [], ◌∷◌, ◌++◌, Bool, ◌||◌, ◌&&◌, not, ltb, leb, ◌==◌, if◌then◌else◌,
  length, be16_bytes, be32_bytes,
}
use project_argo.CarPlay.Defs.{bounds, Result, ok, err, ◌>>=◌}
use project_argo.CarPlay.Csm.Parameters.{Parameter, parameter, string, group}
use project_argo.CarPlay.Csm.Message.{Message}

abbrev pub identification : ℕ
identification = 0x1d01

abbrev pub availability : ℕ
availability = 0x4300

abbrev pub start_session : ℕ
start_session = 0x4301

pub record AccessoryIdentity : Type 0 where
  pub name : List ℕ
  pub model : List ℕ
  pub manufacturer : List ℕ
  pub serial : List ℕ
  pub firmware : List ℕ
  pub hardware : List ℕ
  pub language : List ℕ
  pub usb_interface : ℕ

-- "Argo USB".
abbrev pub usb_name : List ℕ
usb_name = 65 ∷ 114 ∷ 103 ∷ 111 ∷ 32 ∷ 85 ∷ 83 ∷ 66 ∷ []

-- The texts as parameters, numbered from the index on.
unfoldable pub strings : ℕ → List (List ℕ) → Result (List Parameter)
strings index [] = ok []
strings index (value ∷ values) = do
  p ← string index value
  ps ← strings (index + 1) values
  ok (p ∷ ps)

unfoldable pub usb_group : ℕ → Result Parameter
usb_group usb_interface = do
  label ← string 1 usb_name
  group 16 (
      parameter 0 (0 ∷ 1 ∷ [])
      ∷ label
      ∷ parameter 2 []
      ∷ parameter 3 (usb_interface ∷ [])
      ∷ parameter 4 []
      ∷ [])

unfoldable pub wired_message : AccessoryIdentity → Result Message
wired_message a = do
  texts ← strings 0 (a.name ∷ a.model ∷ a.manufacturer ∷ a.serial ∷ a.firmware ∷ a.hardware ∷ [])
  language ← string 12 a.language
  supported ← string 13 a.language
  usb ← usb_group a.usb_interface
  ok (record {
    id = identification;
    parameters =
        texts
        ++ (parameter 6 (be16_bytes start_session)
            ∷ parameter 7 (be16_bytes availability ++ be16_bytes 0x4e0e)
            ∷ parameter 8 (0 ∷ [])
            ∷ parameter 9 (0 ∷ 0 ∷ [])
            ∷ language
            ∷ supported
            ∷ usb
            ∷ []);
  })

-- What the standard library says of an `IpAddr`, and its text.
pub record IpAddr : Type 0 where
  pub is_unspecified : Bool
  pub is_loopback : Bool
  pub is_multicast : Bool
  pub is_v4_broadcast : Bool
  pub text : List ℕ

pub data SessionTransport : Type 0 where
  wired : IpAddr → SessionTransport
  wireless : IpAddr → List ℕ → List ℕ → ℕ → SessionTransport

pub record StartSession : Type 0 where
  pub transport : SessionTransport
  pub port : ℕ
  pub device_identifier : List ℕ
  pub public_key : List ℕ
  pub source_version : List ℕ

abbrev pub address_of : SessionTransport → IpAddr
address_of (wired address) = address
address_of (wireless address ssid passphrase channel) = address

abbrev pub transport_id : SessionTransport → ℕ
transport_id (wired address) = 0
transport_id (wireless address ssid passphrase channel) = 1

abbrev pub is_unusable : IpAddr → Bool
is_unusable a = a.is_unspecified || a.is_loopback || a.is_multicast || a.is_v4_broadcast

-- The parameters of an access point, the checks on it passed.
unfoldable pub access_point : IpAddr → List ℕ → List ℕ → ℕ → Result (List Parameter)
access_point address ssid passphrase channel = do
  name ← string 0 ssid
  secret ← string 1 passphrase
  host ← string 3 address.text
  ok (name ∷ secret ∷ parameter 2 (channel ∷ []) ∷ host ∷ parameter 4 (2 ∷ []) ∷ [])

unfoldable pub network : SessionTransport → Result (List Parameter)
network (wired address) = do host ← string 0 address.text; ok (host ∷ [])
network (wireless address ssid passphrase channel) =
    if ltb 32 (length ssid)
      || not (leb 8 (length passphrase) && leb (length passphrase) 63)
      || channel == 0
      || ltb 196 channel
    then err bounds
    else access_point address ssid passphrase channel

abbrev pub hex_digit : ℕ → ℕ
hex_digit d = if ltb d 10 then 48 + d else 87 + d

-- `format!("{b:02x}")` of each byte.
unfoldable pub hex : List ℕ → List ℕ
hex [] = []
hex (b ∷ bs) = hex_digit (b / 16) ∷ hex_digit (b % 16) ∷ hex bs

-- The message, the checks on the port and the address passed.
unfoldable pub session_message : StartSession → Result Message
session_message s = do
  fields ← network s.transport
  transport ← group (transport_id s.transport) fields
  device ← string 3 s.device_identifier
  key ← string 4 (hex s.public_key)
  source ← string 5 s.source_version
  ok (record {
    id = start_session;
    parameters = transport ∷ parameter 2 (be32_bytes s.port) ∷ device ∷ key ∷ source ∷ [];
  })

unfoldable pub message : StartSession → Result Message
message s =
    if s.port == 0 || is_unusable (address_of s.transport) then err bounds else session_message s
