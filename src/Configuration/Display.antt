-- ===== src/Configuration/Display.antt =====
-- configuration.rs, `write_display` and `read_display`.
pub mod RoundTrip
use project_argo.Common.{
  ℕ, List, [], ◌∷◌, Bool, true, false, Option, none, some, ltb, ◌==◌, if◌then◌else◌,
}
use project_argo.Ipc.Payload.{PayloadReader, write_u8, write_u16, read_u8, read_u16}
use project_argo.AaChannels.Display.{Insets, DisplayConfig}

abbrev pub flag : Bool → ℕ
flag true = 1
flag false = 0

unfoldable pub write_insets : List ℕ → Insets → List ℕ
write_insets w v = write_u16 (write_u16 (write_u16 (write_u16 w v.left) v.top) v.right) v.bottom

unfoldable pub write_display : List ℕ → DisplayConfig → List ℕ
write_display w d =
    let sizes = write_u16 (write_u16 (write_u16 w d.width) d.height) d.dpi in
    let sides = write_u8 (write_u8 sizes d.fps) (flag d.right_driver) in
    write_insets (write_insets sides d.view_insets) d.safe_insets

infixl 5 ◌>>=◌
abbrev pub ◌>>=◌ {ℓ μ} : {A : Type ℓ} → {B : Type μ} → Option A → (A → Option B) → Option B
none >>= after = none
some x >>= after = after x

unfoldable pub read_insets : PayloadReader → Option (Insets × PayloadReader)
read_insets r = do
  (left, r1) ← read_u16 r
  (top, r2) ← read_u16 r1
  (right, r3) ← read_u16 r2
  (bottom, r4) ← read_u16 r3
  some (record { left = left; top = top; right = right; bottom = bottom }, r4)

unfoldable pub read_display : PayloadReader → Option (DisplayConfig × PayloadReader)
read_display r = do
  (width, r1) ← read_u16 r
  (height, r2) ← read_u16 r1
  (dpi, r3) ← read_u16 r2
  (fps, r4) ← read_u8 r3
  (side, r5) ← read_u8 r4
  if ltb 1 side then none else (do
    (view, r6) ← read_insets r5
    (safe, r7) ← read_insets r6
    some (
      record {
        width = width;
        height = height;
        dpi = dpi;
        fps = fps;
        right_driver = side == 1;
        view_insets = view;
        safe_insets = safe;
      },
      r7,
    ))
