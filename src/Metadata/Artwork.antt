-- ===== src/Metadata/Artwork.antt =====
-- artwork.rs, `validate`, `store` and `Image`: which pictures are taken. Writing the file is not
-- modelled: its outcome, the path of the new file, is an argument.
use project_argo.Common.{
  ℕ, zero, suc, ◌+◌, ◌≤◌, ◌<◌, ◌≢◌, List, [], ◌∷◌, Bool, true, false, Option, none, some, ltb, leb,
  ◌==◌, ◌&&◌, ◌||◌, not, if◌then◌else◌, length, take, byte_at, be16, be32, arith,
}

abbrev pub max_bytes : ℕ
max_bytes = 1048576

abbrev pub max_side : ℕ
max_side = 2048

pub record Image : Type 0 where
  pub path : List ℕ
  pub picture : List ℕ

unfoldable pub same_bytes : List ℕ → List ℕ → Bool
same_bytes [] [] = true
same_bytes [] (b ∷ bs) = false
same_bytes (a ∷ s) [] = false
same_bytes (a ∷ s) (b ∷ bs) = (a == b) && same_bytes s bs

unfoldable pub matches : Image → List ℕ → Bool
matches image content = same_bytes image.picture content

-- `data.starts_with(..)` of eight and of two bytes.
abbrev pub is_png : List ℕ → Bool
is_png content = same_bytes (take 8 content) (0x89 ∷ 0x50 ∷ 0x4e ∷ 0x47 ∷ 13 ∷ 10 ∷ 26 ∷ 10 ∷ [])

abbrev pub is_jpeg : List ℕ → Bool
is_jpeg content = same_bytes (take 2 content) (0xff ∷ 0xd8 ∷ [])

abbrev pub is_ihdr : List ℕ → Bool
is_ihdr content =
    byte_at content 12 == 0x49
    && byte_at content 13 == 0x48
    && byte_at content 14 == 0x44
    && byte_at content 15 == 0x52

abbrev pub u16_at : List ℕ → ℕ → ℕ
u16_at content i = be16 (byte_at content i) (byte_at content (i + 1))

abbrev pub u32_at : List ℕ → ℕ → ℕ
u32_at content i =
    be32 (byte_at content i) (byte_at content (i + 1)) (byte_at content (i + 2))
      (byte_at content (i + 3))

-- `matches!(marker, 0xc0..=0xc3 | 0xc5..=0xc7 | 0xc9..=0xcb | 0xcd..=0xcf)`.
abbrev pub is_start_of_frame : ℕ → Bool
is_start_of_frame m =
    leb 0xc0 m && leb m 0xcf && not (m == 0xc4) && not (m == 0xc8) && not (m == 0xcc)

abbrev pub has_no_length : ℕ → Bool
has_no_length m = m == 1 || (leb 0xd0 m && leb m 0xd7)

-- What the search for a size comes to; the source has no rounds to use up.
pub data Scan : Type 0 where
  out_of_rounds not_found : Scan
  size : (width height : ℕ) → Scan

-- The loop over the segments of a JPEG picture, at the byte `i`.
unfoldable pub jpeg_loop : List ℕ → ℕ → ℕ → Scan
jpeg_loop content zero i = out_of_rounds
jpeg_loop content (suc rounds) i =
    let marker = byte_at content (i + 1) in
    let len = u16_at content (i + 2) in
    let at_fill = jpeg_loop content rounds (i + 1) in
    let behind_marker = jpeg_loop content rounds (i + 2) in
    let behind_segment = jpeg_loop content rounds (i + 2 + len) in
    if ltb (length content) (i + 4)
    then not_found
    else if not (byte_at content i == 0xff)
    then not_found
    else if marker == 0xff
    then at_fill
    else if marker == 0xda || marker == 0xd9
    then not_found
    else if has_no_length marker
    then behind_marker
    else if ltb len 2 || ltb (length content) (i + 2 + len)
    then not_found
    else if is_start_of_frame marker && leb 8 len
    then size (u16_at content (i + 7)) (u16_at content (i + 5))
    else behind_segment

abbrev pub found_size : Scan → Option (ℕ × ℕ)
found_size out_of_rounds = none
found_size not_found = none
found_size (size width height) = some (width, height)

-- The width and the height.
unfoldable pub dimensions : List ℕ → Option (ℕ × ℕ)
dimensions content =
    if is_png content && leb 33 (length content) && is_ihdr content
    then some (u32_at content 16, u32_at content 20)
    else if is_jpeg content
    then found_size (jpeg_loop content (length content) 2)
    else none

abbrev pub is_bounded : Option (ℕ × ℕ) → Bool
is_bounded none = false
is_bounded (some (w, h)) = ltb 0 w && ltb 0 h && leb w max_side && leb h max_side

unfoldable pub validate : List ℕ → Bool
validate content = not (ltb max_bytes (length content)) && is_bounded (dimensions content)

-- `file` is the path under which the picture was written, or none where a file operation failed.
unfoldable pub store : Option (List ℕ) → List ℕ → Option Image
store none content = none
store (some path) content =
    if validate content then some (record { path = path; picture = content }) else none

-- The loop over the segments ends: given one round for each byte behind the one it begins at, and
-- one more, it never uses up its rounds, whatever the bytes are.
pub jpeg_loop-ne-out_of_rounds :
    (content : List ℕ) (rounds i : ℕ)
    → 1 ≤ rounds
    → length content < rounds + i
    → jpeg_loop content rounds i ≢ out_of_rounds
unfolding jpeg_loop
jpeg_loop-ne-out_of_rounds content zero i r h = absurd (omega arith)
jpeg_loop-ne-out_of_rounds content (suc rounds) i r h = ground (
  arith,
  jpeg_loop-ne-out_of_rounds content rounds (i + 1),
  jpeg_loop-ne-out_of_rounds content rounds (i + 2),
  jpeg_loop-ne-out_of_rounds content rounds (i + 2 + u16_at content (i + 2)),
)
