-- ===== src/AaChannels/Display/Bounds.antt =====
-- What a display that `validate` takes has.
use project_argo.Common.{ℕ, ◌+◌, ◌≤◌, ◌<◌, ◌≡◌, ◌⊎◌, arith}
use project_argo.AaChannels.Display.{
  Insets, DisplayConfig, content_width, content_height, is_mode, is_rate, leaves_nothing, valid,
  validate,
}

abbrev pub IsMode : ℕ → ℕ → Type 0
IsMode w h = ((w ≡ 800) × (h ≡ 480)) ⊎ (((w ≡ 1280) × (h ≡ 720)) ⊎ ((w ≡ 1920) × (h ≡ 1080)))

-- An inner rectangle: the insets lie within the given size and leave at least one pixel.
abbrev pub Leaves : Insets → ℕ → ℕ → Type 0
Leaves v width height = (v.left + v.right < width) × (v.top + v.bottom < height)

pub record IsDisplay (d : DisplayConfig) : Type 0 where
  pub is_mode : IsMode d.width d.height
  pub is_rate : (d.fps ≡ 30) ⊎ (d.fps ≡ 60)
  pub is_dpi : (80 ≤ d.dpi) × (d.dpi ≤ 640)
  pub view_leaves : Leaves d.view_insets d.width d.height
  pub content_fits :
      (content_width d + (d.view_insets.left + d.view_insets.right) ≡ d.width)
      × (content_height d + (d.view_insets.top + d.view_insets.bottom) ≡ d.height)
  pub safe_leaves : Leaves d.safe_insets (content_width d) (content_height d)

-- `validate` takes a display only if it has one of the modes, rates and densities, if its view
-- insets leave content, whose size is then the mode's without them, no difference going below 0,
-- and if the safe insets leave a part of that content.
pub validate-IsDisplay : (d : DisplayConfig) → validate d ≡ valid → IsDisplay d
unfolding validate is_mode is_rate leaves_nothing content_width content_height
validate-IsDisplay d e = record {
  is_mode = ground arith;
  is_rate = ground arith;
  is_dpi = ground arith;
  view_leaves = ground arith;
  content_fits = ground arith;
  safe_leaves = ground arith;
}
