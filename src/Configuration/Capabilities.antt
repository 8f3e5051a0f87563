-- ===== src/Configuration/Capabilities.antt =====
-- configuration.rs, `capabilities`: what the daemon tells of its displays and its audio. The
-- `unwrap` of a text that is too long is an answer of its own.
use project_argo.Common.{ℕ, ◌+◌, List, [], ◌∷◌, length}
use project_argo.Ipc.Frames.{Encoded, encoded, refused, Message}
use project_argo.Ipc.Payload.{write_u8, write_u16, write_string}
use project_argo.AaChannels.Display.{default_display}
use project_argo.AaChannels.Formats.{AudioFormat, audio}
use project_argo.Configuration.Display.{write_display}

abbrev pub modes : List (ℕ × ℕ)
modes = (800, 480) ∷ (1280, 720) ∷ (1920, 1080) ∷ []

abbrev pub rates : List ℕ
rates = 30 ∷ 60 ∷ []

unfoldable pub write_modes : List ℕ → List (ℕ × ℕ) → List ℕ
write_modes w [] = w
write_modes w ((width, height) ∷ rest) = write_modes (write_u16 (write_u16 w width) height) rest

unfoldable pub write_rates : List ℕ → List ℕ → List ℕ
write_rates w [] = w
write_rates w (fps ∷ rest) = write_rates (write_u8 w fps) rest

unfoldable pub write_formats : List ℕ → ℕ → List AudioFormat → List ℕ
write_formats w role [] = w
write_formats w role (f ∷ rest) =
    let w' = write_u8 (write_u8 (write_u16 (write_u8 w role) f.rate) f.bits) f.channels in
    write_formats w' (role + 1) rest

-- The payload behind the text.
unfoldable pub write_catalog : List ℕ → List ℕ
write_catalog w =
    let with_modes = write_modes (write_u8 w (length modes)) modes in
    let with_rates = write_rates (write_u8 with_modes (length rates)) rates in
    let with_display = write_display (write_u16 (write_u16 with_rates 80) 640) default_display in
    write_formats (write_u8 with_display (length audio)) 0 audio

pub data Told : Type 0 where
  told : Message → Told
  panics : Told

abbrev pub tell : Encoded → Told
tell (refused e) = panics
tell (encoded w) = told (record { kind = 9; payload = write_catalog w })

unfoldable pub capabilities : ℕ → List ℕ → Told
capabilities readiness detail = tell (write_string (write_u8 [] readiness) detail)
