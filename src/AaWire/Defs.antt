-- ===== src/AaWire/Defs.antt =====
-- aa_wire.rs: the packet, and the errors, which the source writes as texts.
use project_argo.Common.{ℕ, ◌*◌, List}

pub data Error : Type 0 where
  receive_buffer_limit unknown_frame_flags empty_frame fragment_declaration_limit : Error
  disconnected_mid_frame fragment_overwritten too_many_fragment_channels : Error
  reassembly_limit continuation_without_first fragment_flags_changed : Error
  outbound_frame_limit short_tls_header short_tls_record : Error

pub data Result {ℓ} (A : Type ℓ) : Type ℓ where
  err : Error → Result A
  ok : A → Result A

infixl 5 ◌>>=◌
abbrev pub ◌>>=◌ {ℓ μ} : {A : Type ℓ} → {B : Type μ} → Result A → (A → Result B) → Result B
err reason >>= next = err reason
ok answer >>= next = next answer

abbrev pub max_message : ℕ
max_message = 4 * 1024 * 1024

pub record Packet : Type 0 where
  pub channel : ℕ
  pub flags : ℕ
  pub bytes : List ℕ
