-- ===== src/AaChannels/Display.antt =====
-- aa_channels.rs, `DisplayConfig`, and the modes and rates of configuration.rs.
pub mod Bounds
use project_argo.Common.{
  ℕ, ◌+◌, ◌-◌, List, [], ◌∷◌, Bool, true, false, not, ltb, leb, ◌==◌, ◌&&◌, ◌||◌, if◌then◌else◌,
}
use project_argo.AaChannels.Proto.{numeric, bytewise, build}

-- `[u16; 4]`, in the order of the source.
pub record Insets : Type 0 where
  pub left : ℕ
  pub top : ℕ
  pub right : ℕ
  pub bottom : ℕ

pub record DisplayConfig : Type 0 where
  pub width : ℕ
  pub height : ℕ
  pub dpi : ℕ
  pub fps : ℕ
  pub right_driver : Bool
  pub view_insets : Insets
  pub safe_insets : Insets

abbrev pub no_insets : Insets
no_insets = record { left = 0; top = 0; right = 0; bottom = 0 }

abbrev pub default_display : DisplayConfig
default_display = record {
  width = 1280;
  height = 720;
  dpi = 160;
  fps = 30;
  right_driver = false;
  view_insets = no_insets;
  safe_insets = no_insets;
}

-- `u16` differences, which do not go below 0 in a display that `validate` takes.
unfoldable pub content_width : DisplayConfig → ℕ
content_width d = d.width - d.view_insets.left - d.view_insets.right

unfoldable pub content_height : DisplayConfig → ℕ
content_height d = d.height - d.view_insets.top - d.view_insets.bottom

unfoldable pub insets : Insets → List ℕ
insets v = build (numeric 1 v.top ∷ numeric 2 v.bottom ∷ numeric 3 v.left ∷ numeric 4 v.right ∷ [])

unfoldable pub ui_config : DisplayConfig → List ℕ
ui_config d = build (
    bytewise 1 (insets d.view_insets)
    ∷ bytewise 2 (insets d.safe_insets)
    ∷ bytewise 3 (insets d.safe_insets)
    ∷ [])

-- `MODES.contains` and `FPS.contains`.
unfoldable pub is_mode : ℕ → ℕ → Bool
is_mode width height =
    (width == 800 && height == 480)
    || (width == 1280 && height == 720)
    || (width == 1920 && height == 1080)

unfoldable pub is_rate : ℕ → Bool
is_rate fps = fps == 30 || fps == 60

-- The insets leave an area of the given size empty.
unfoldable pub leaves_nothing : Insets → ℕ → ℕ → Bool
leaves_nothing v width height = leb width (v.left + v.right) || leb height (v.top + v.bottom)

pub data DisplayError : Type 0 where
  unsupported_display empty_view_area empty_safe_area : DisplayError

pub data Validated : Type 0 where
  valid : Validated
  invalid : DisplayError → Validated

unfoldable pub validate : DisplayConfig → Validated
unfolding content_width
validate d =
    if not (is_mode d.width d.height) || not (is_rate d.fps) || not (leb 80 d.dpi && leb d.dpi 640)
    then invalid unsupported_display
    else if leaves_nothing d.view_insets d.width d.height
    then invalid empty_view_area
    else if leaves_nothing d.safe_insets (content_width d) (content_height d)
    then invalid empty_safe_area
    else valid
