-- ===== src/Configuration/Display/RoundTrip.antt =====
-- A display is read as it was written.
use project_argo.Common.{
  ℕ, ◌<◌, ◌≡◌, refl, ap, ◌∙◌, List, [], ◌∷◌, ◌++◌, append_assoc, Bool, true, false, some, ◌==◌, ltb,
  be16_bytes, length,
}
use project_argo.Ipc.Payload.{write_u8, write_u16}
use project_argo.Ipc.Payload.RoundTrip.{at, read_u8-at, read_u16-at}
use project_argo.AaChannels.Display.{Insets, DisplayConfig}
use project_argo.Configuration.Display.{
  flag, write_insets, write_display, read_insets, read_display,
}

-- Four 16-bit numbers.
abbrev pub AreInsets : Insets → Type 0
AreInsets v = (v.left < 65536) × (v.top < 65536) × (v.right < 65536) × (v.bottom < 65536)

-- The widths of the fields.
pub record IsWire (d : DisplayConfig) : Type 0 where
  pub width_fits : d.width < 65536
  pub height_fits : d.height < 65536
  pub dpi_fits : d.dpi < 65536
  pub view_fits : AreInsets d.view_insets
  pub safe_fits : AreInsets d.safe_insets

abbrev insets_before : Insets → List ℕ → List ℕ
insets_before v rest =
    be16_bytes v.left ++ (be16_bytes v.top ++ (be16_bytes v.right ++ (be16_bytes v.bottom ++ rest)))

abbrev display_before : DisplayConfig → List ℕ → List ℕ
display_before d rest =
    be16_bytes d.width
    ++ (be16_bytes d.height
        ++ (be16_bytes d.dpi
            ++ (d.fps
                ∷ flag d.right_driver
                ∷ insets_before d.view_insets (insets_before d.safe_insets rest))))

read_insets-at :
    (front : List ℕ) (v : Insets) (back : List ℕ)
    → AreInsets v
    → read_insets (at front (insets_before v back)) ≡ some (v, at (write_insets front v) back)
unfolding read_insets write_insets write_u16
read_insets-at front v back i =
    let f1 = front ++ be16_bytes v.left in
    let f2 = f1 ++ be16_bytes v.top in
    let f3 = f2 ++ be16_bytes v.right in
    rw
      (
        read_u16-at front
            (be16_bytes v.top ++ (be16_bytes v.right ++ (be16_bytes v.bottom ++ back))) v.left i.0,
        read_u16-at f1 (be16_bytes v.right ++ (be16_bytes v.bottom ++ back)) v.top i.1,
        read_u16-at f2 (be16_bytes v.bottom ++ back) v.right i.2,
        read_u16-at f3 back v.bottom i.3,
      )
      refl

flag-eq : (b : Bool) → (flag b == 1) ≡ b
flag-eq true = refl
flag-eq false = refl

flag_small : (b : Bool) → ltb 1 (flag b) ≡ false
flag_small true = refl
flag_small false = refl

read_display-at :
    (front : List ℕ) (d : DisplayConfig) (back : List ℕ)
    → IsWire d
    → read_display (at front (display_before d back)) ≡ some (d, at (write_display front d) back)
unfolding read_display write_display write_u16 write_u8
read_display-at front d back i =
    let all = insets_before d.view_insets (insets_before d.safe_insets back) in
    let f1 = front ++ be16_bytes d.width in
    let f2 = f1 ++ be16_bytes d.height in
    let f3 = f2 ++ be16_bytes d.dpi in
    let f4 = f3 ++ (d.fps ∷ []) in
    let f5 = f4 ++ (flag d.right_driver ∷ []) in
    rw
      (
        read_u16-at front
            (be16_bytes d.height ++ (be16_bytes d.dpi ++ (d.fps ∷ flag d.right_driver ∷ all)))
            d.width i.width_fits,
        read_u16-at f1 (be16_bytes d.dpi ++ (d.fps ∷ flag d.right_driver ∷ all)) d.height
            i.height_fits,
        read_u16-at f2 (d.fps ∷ flag d.right_driver ∷ all) d.dpi i.dpi_fits,
        read_u8-at f3 (flag d.right_driver ∷ all) d.fps,
        read_u8-at f4 all (flag d.right_driver),
        flag_small d.right_driver,
        flag-eq d.right_driver,
        read_insets-at f5 d.view_insets (insets_before d.safe_insets back) i.view_fits,
        read_insets-at (write_insets f5 d.view_insets) d.safe_insets back i.safe_fits,
      )
      refl

before-write_display :
    (front : List ℕ) (d : DisplayConfig) (back : List ℕ)
    → write_display front d ++ back ≡ front ++ display_before d back
unfolding write_display write_insets write_u16 write_u8
before-write_display front d back = simp append_assoc

-- A display whose sizes and insets have 16 bits, written behind anything and with anything written
-- behind it, is read from where it begins to where it ends as the display it was.
pub read_display-write_display :
    (front : List ℕ) (d : DisplayConfig) (back : List ℕ)
    → IsWire d
    → read_display (record { bytes = write_display front d ++ back; offset = length front })
      ≡ some (
        d,
        record { bytes = write_display front d ++ back; offset = length (write_display front d) },
      )
read_display-write_display front d back i =
    ap (λ b. read_display (record { bytes = b; offset = length front }))
      (before-write_display front d back)
    ∙ read_display-at front d back i
