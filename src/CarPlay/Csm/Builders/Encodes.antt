-- ===== src/CarPlay/Csm/Builders/Encodes.antt =====
-- The messages that are built are encoded without an error.
use project_argo.Common.{
  ℕ, ◌+◌, ◌≤◌, ◌<◌, ◌≡◌, ◌≢◌, refl, sym, List, [], ◌∷◌, ◌++◌, false, arith, length, length-append,
  All, All-append, be16_bytes,
}
use project_argo.CarPlay.Defs.{ok, bind-ok}
use project_argo.CarPlay.Csm.Parameters.{Parameter, parameter, string, group}
use project_argo.CarPlay.Csm.Parameters.RoundTrip.{all_bytes}
use project_argo.CarPlay.Csm.Message.{Message, encode, decode}
use project_argo.CarPlay.Csm.Message.RoundTrip.{message_decode-encode}
use project_argo.CarPlay.Csm.Builders.{
  strings, IpAddr, access_point, session_message, usb_group, wired_message, AccessoryIdentity,
  identification, start_session, availability, network, message, StartSession, SessionTransport,
  wired, wireless, transport_id, hex, usb_name, is_unusable, address_of,
}
use project_argo.CarPlay.Csm.Builders.Small.{
  IsSmall, small-IsParameter, encode_parameters-small, string-IsSmall, strings-IsSmall,
  group-IsSmall, string-short,
}

-- A message of few and small parameters.
IsModest : Message → Type 0
IsModest m = (m.id < 65536) × All (IsSmall 2048) m.parameters × (length m.parameters ≤ 16)

encode-IsModest :
    (m : Message) → IsModest m → (bs : List ℕ) × (encode m ≡ ok bs) × (decode bs ≡ ok m)
unfolding IsModest
encode-IsModest m (i, v, h) =
    let (e, k) = encode_parameters-small m.parameters v h in
    let ps = all_bytes m.parameters in
    let bs = 0x40 ∷ (0x40 ∷ (be16_bytes (length ps + 6) ++ (be16_bytes m.id ++ ps))) in
    let whole : encode m ≡ ok bs = unfold encode in rw e refl in
    (bs, whole, message_decode-encode m bs i (small-IsParameter 2048 m.parameters v) whole)

usb_group-IsSmall :
    (usb_interface : ℕ) (p : Parameter) → usb_group usb_interface ≡ ok p → IsSmall 2048 p
unfolding usb_group
usb_group-IsSmall usb_interface p e =
    let (label, a, f) = bind-ok (string 1 usb_name) _ p e in
    let s = string-short 1 usb_name label (omega arith) a in
    group-IsSmall 16 _ p (omega arith) (omega (arith, s)) (omega arith) f

access_point-IsSmall :
    (address : IpAddr) (ssid passphrase : List ℕ) (channel : ℕ) (ps : List Parameter)
    → access_point address ssid passphrase channel ≡ ok ps
    → All (IsSmall 256) ps × (length ps ≤ 5)
unfolding access_point
access_point-IsSmall address ssid passphrase channel ps e =
    let (name, a, f) = bind-ok (string 0 ssid) _ ps e in
    let (secret, b, g) = bind-ok (string 1 passphrase) _ ps f in
    let (host, c, h) = bind-ok (string 3 address.text) _ ps g in
    let s = string-short 0 ssid name (omega arith) a in
    let t = string-short 1 passphrase secret (omega arith) b in
    let u = string-short 3 address.text host (omega arith) c in ground (arith, h, s, t, u)

network-IsSmall :
    (t : SessionTransport) (ps : List Parameter)
    → network t ≡ ok ps
    → All (IsSmall 256) ps × (length ps ≤ 5)
unfolding network
network-IsSmall (wired address) ps e =
    let (host, a, f) = bind-ok (string 0 address.text) _ ps e in
    let s = string-short 0 address.text host (omega arith) a in ground (arith, f, s)
network-IsSmall (wireless address ssid passphrase channel) ps e =
    access_point-IsSmall address ssid passphrase channel ps (ground arith)

transport_small : (t : SessionTransport) → transport_id t < 65536
transport_small (wired address) = omega arith
transport_small (wireless address ssid passphrase channel) = omega arith

ok-injective : {A : Type 0} {x y : A} → ok x ≡ ok y → x ≡ y
ok-injective e = cc

-- The identity of the accessory, when its texts are accepted, is encoded without an error and
-- decodes to the same message.
pub wired_message-encode :
    (a : AccessoryIdentity) (m : Message)
    → wired_message a ≡ ok m
    → (bs : List ℕ) × (encode m ≡ ok bs) × (decode bs ≡ ok m)
unfolding wired_message IsModest
wired_message-encode a m e =
    let (texts, p, f) = bind-ok (strings 0 _) _ m e in
    let (language, q, g) = bind-ok (string 12 a.language) _ m f in
    let (supported, r, h) = bind-ok (string 13 a.language) _ m g in
    let (usb, s, k) = bind-ok (usb_group a.usb_interface) _ m h in
    let (small, n) = strings-IsSmall 0 _ texts (omega arith) p in
    let t = string-IsSmall 12 a.language language (omega arith) q in
    let u = string-IsSmall 13 a.language supported (omega arith) r in
    let w = usb_group-IsSmall a.usb_interface usb s in
    let fixed : All (IsSmall 2048) (
        parameter 6 (be16_bytes start_session)
        ∷ parameter 7 (be16_bytes availability ++ be16_bytes 0x4e0e)
        ∷ parameter 8 (0 ∷ [])
        ∷ parameter 9 (0 ∷ 0 ∷ [])
        ∷ language
        ∷ supported
        ∷ usb
        ∷ []) =
      omega (arith, t, u, w) in
    encode-IsModest m (modest texts _ k small n fixed (omega arith))
  where
    modest :
        (front back : List Parameter)
        → ok (record { id = identification; parameters = front ++ back }) ≡ ok m
        → All (IsSmall 2048) front
        → length front ≡ 6
        → All (IsSmall 2048) back
        → length back ≤ 10
        → IsModest m
    modest front back k v n w l = rw (sym (ok-injective k)) (
      omega arith,
      All-append (IsSmall 2048) front back v w,
      omega (arith, length-append front back),
    )

session_message-IsModest : (s : StartSession) (m : Message) → session_message s ≡ ok m → IsModest m
unfolding session_message IsModest
session_message-IsModest s m e =
    let (fields, p, f) = bind-ok (network s.transport) _ m e in
    let (transport, q, g) = bind-ok (group (transport_id s.transport) fields) _ m f in
    let (device, r, h) = bind-ok (string 3 s.device_identifier) _ m g in
    let (key, x, i) = bind-ok (string 4 (hex s.public_key)) _ m h in
    let (source, y, k) = bind-ok (string 5 s.source_version) _ m i in
    let (short, few) = network-IsSmall s.transport fields p in
    let a =
      group-IsSmall (transport_id s.transport) fields transport (transport_small s.transport) short
        few q in
    let b = string-IsSmall 3 s.device_identifier device (omega arith) r in
    let c = string-IsSmall 4 (hex s.public_key) key (omega arith) x in
    let d = string-IsSmall 5 s.source_version source (omega arith) y in
    rw (sym (ok-injective k)) (omega (arith, a, b, c, d))

-- The start of a session, when its settings are accepted, is encoded without an error and decodes
-- to the same message; its port is not 0 and its address neither unspecified nor a loopback,
-- multicast or broadcast address.
pub message-encode :
    (s : StartSession) (m : Message)
    → message s ≡ ok m
    → ((bs : List ℕ) × (encode m ≡ ok bs) × (decode bs ≡ ok m))
      × (s.port ≢ 0)
      × (is_unusable (address_of s.transport) ≡ false)
unfolding message
message-encode s m e =
    let (p, u, k) = accepted in (encode-IsModest m (session_message-IsModest s m k), p, u)
  where
    accepted :
        (s.port ≢ 0) × (is_unusable (address_of s.transport) ≡ false) × (session_message s ≡ ok m)
    accepted = ground arith
