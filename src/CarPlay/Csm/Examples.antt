-- ===== src/CarPlay/Csm/Examples.antt =====
-- Runs of the control messages and of the authentication, and their theorems at concrete inputs.
use project_argo.Common.{ℕ, ◌≡◌, ◌≢◌, false, refl, List, [], ◌∷◌, arith}
use project_argo.CarPlay.Defs.{ok}
use project_argo.CarPlay.Csm.Parameters.{
  string, has_control, group, Parameter, parameter, encode_loop, encode_parameters,
}
use project_argo.CarPlay.Csm.Message.{Message, empty, encode, decode, matching, one}
use project_argo.CarPlay.Csm.Message.RoundTrip.{message_decode-encode}
use project_argo.CarPlay.Csm.Builders.{
  AccessoryIdentity, wired_message, strings, usb_group, StartSession, wired, message,
  session_message, network, hex, is_unusable, address_of,
}
use project_argo.CarPlay.Csm.Builders.Encodes.{wired_message-encode, message-encode}
use project_argo.CarPlay.Csm.Authentication.{
  request_certificate, request_signature, auth_succeeded, authenticated, new, check_deadline,
  challenged, dispatch, receive, certificate, signature,
}
use project_argo.CarPlay.Csm.Authentication.Order.{
  Call, receives, certifies, signs, after, run, Completed, run_authenticated,
}

abbrev fields : List Parameter
fields = parameter 3 (1 ∷ 2 ∷ []) ∷ parameter 0 [] ∷ []

abbrev field_bytes : List ℕ
field_bytes = 0 ∷ 6 ∷ 0 ∷ 3 ∷ 1 ∷ 2 ∷ 0 ∷ 4 ∷ 0 ∷ 0 ∷ []

fields_encoded : encode_parameters fields ≡ ok field_bytes
unfolding encode_parameters encode_loop
fields_encoded = refl

abbrev start_message : Message
start_message = record { id = 0x1d01; parameters = fields }

abbrev start_bytes : List ℕ
start_bytes = 0x40 ∷ 0x40 ∷ 0 ∷ 16 ∷ 0x1d ∷ 1 ∷ field_bytes

start_encoded : encode start_message ≡ ok start_bytes
unfolding encode encode_parameters encode_loop
start_encoded = refl

message_decode-encode_example : decode start_bytes ≡ ok start_message
message_decode-encode_example =
    message_decode-encode start_message start_bytes (omega arith) (omega arith) start_encoded

abbrev challenge : List ℕ
challenge =
    1 ∷ 2 ∷ 3 ∷ 4 ∷ 5 ∷ 6 ∷ 7 ∷ 8 ∷ 9 ∷ 10 ∷ 11 ∷ 12 ∷ 13 ∷ 14 ∷ 15 ∷ 16 ∷ 17 ∷ 18 ∷ 19 ∷ 20 ∷ []

abbrev exchange : List Call
exchange =
    receives (empty request_certificate) 1
    ∷ certifies (9 ∷ []) 2
    ∷ receives (record { id = request_signature; parameters = parameter 0 challenge ∷ [] }) 3
    ∷ signs (8 ∷ []) 4
    ∷ receives (empty auth_succeeded) 5
    ∷ []

exchange_authenticated :
    (run (record { machine = new 0; log = [] }) exchange).machine.current ≡ authenticated
unfolding run after new receive check_deadline dispatch challenged one matching certificate
    signature
exchange_authenticated = refl

run_authenticated_example :
    Completed (new 0).deadline (run (record { machine = new 0; log = [] }) exchange).log
run_authenticated_example = run_authenticated 0 exchange exchange_authenticated

abbrev identity : AccessoryIdentity
identity = record {
  name = 65 ∷ [];
  model = 66 ∷ [];
  manufacturer = 67 ∷ [];
  serial = 49 ∷ [];
  firmware = 50 ∷ [];
  hardware = 51 ∷ [];
  language = 101 ∷ 110 ∷ [];
  usb_interface = 2;
}

abbrev usb_fields : List ℕ
usb_fields =
    0 ∷ 6 ∷ 0 ∷ 0 ∷ 0 ∷ 1 ∷ 0 ∷ 13 ∷ 0 ∷ 1 ∷ 65 ∷ 114 ∷ 103 ∷ 111 ∷ 32 ∷ 85 ∷ 83 ∷ 66 ∷ 0 ∷ 0 ∷ 4
    ∷ 0 ∷ 2 ∷ 0 ∷ 5 ∷ 0 ∷ 3 ∷ 2 ∷ 0 ∷ 4 ∷ 0 ∷ 4 ∷ []

abbrev identity_message : Message
identity_message = record {
  id = 0x1d01;
  parameters =
      parameter 0 (65 ∷ 0 ∷ [])
      ∷ parameter 1 (66 ∷ 0 ∷ [])
      ∷ parameter 2 (67 ∷ 0 ∷ [])
      ∷ parameter 3 (49 ∷ 0 ∷ [])
      ∷ parameter 4 (50 ∷ 0 ∷ [])
      ∷ parameter 5 (51 ∷ 0 ∷ [])
      ∷ parameter 6 (0x43 ∷ 1 ∷ [])
      ∷ parameter 7 (0x43 ∷ 0 ∷ 0x4e ∷ 0x0e ∷ [])
      ∷ parameter 8 (0 ∷ [])
      ∷ parameter 9 (0 ∷ 0 ∷ [])
      ∷ parameter 12 (101 ∷ 110 ∷ 0 ∷ [])
      ∷ parameter 13 (101 ∷ 110 ∷ 0 ∷ [])
      ∷ parameter 16 usb_fields
      ∷ [];
}

identity_built : wired_message identity ≡ ok identity_message
unfolding wired_message strings usb_group string has_control group encode_parameters encode_loop
identity_built = refl

wired_message-encode_example :
    (bs : List ℕ) × (encode identity_message ≡ ok bs) × (decode bs ≡ ok identity_message)
wired_message-encode_example = wired_message-encode identity identity_message identity_built

-- The address 10.0.0.1.
abbrev settings : StartSession
settings = record {
  transport = wired (record {
    is_unspecified = false;
    is_loopback = false;
    is_multicast = false;
    is_v4_broadcast = false;
    text = 49 ∷ 48 ∷ 46 ∷ 48 ∷ 46 ∷ 48 ∷ 46 ∷ 49 ∷ [];
  });
  port = 7000;
  device_identifier = 65 ∷ [];
  public_key = 0xab ∷ 1 ∷ [];
  source_version = 49 ∷ [];
}

abbrev settings_message : Message
settings_message = record {
  id = 0x4301;
  parameters =
      parameter 0 (0 ∷ 13 ∷ 0 ∷ 0 ∷ 49 ∷ 48 ∷ 46 ∷ 48 ∷ 46 ∷ 48 ∷ 46 ∷ 49 ∷ 0 ∷ [])
      ∷ parameter 2 (0 ∷ 0 ∷ 0x1b ∷ 0x58 ∷ [])
      ∷ parameter 3 (65 ∷ 0 ∷ [])
      ∷ parameter 4 (97 ∷ 98 ∷ 48 ∷ 49 ∷ 0 ∷ [])
      ∷ parameter 5 (49 ∷ 0 ∷ [])
      ∷ [];
}

settings_built : message settings ≡ ok settings_message
unfolding message session_message network string has_control group encode_parameters encode_loop hex
settings_built = refl

message-encode_example :
    ((bs : List ℕ) × (encode settings_message ≡ ok bs) × (decode bs ≡ ok settings_message))
    × (settings.port ≢ 0)
    × (is_unusable (address_of settings.transport) ≡ false)
message-encode_example = message-encode settings settings_message settings_built
