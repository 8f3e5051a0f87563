-- ===== src/Metadata/Parse.antt =====
-- metadata.rs, `Update` and `parse`: the four metadata messages of the phone. Which bytes are valid
-- UTF-8 and what `str::trim` leaves are parameters.
use project_argo.Common.{
  ℕ, ◌*◌, List, [], ◌∷◌, Bool, false, Option, none, some, not, ltb, leb, ◌==◌, ◌&&◌, ◌||◌,
  if◌then◌else◌, length,
}
use project_argo.Metadata.Artwork.{max_bytes}
use project_argo.Metadata.Wire.{
  invalid_utf8, nul_in_text, invalid_or_oversized_text, invalid_number, invalid_playback_value,
  invalid_battery_value, unsupported_metadata_message, Result, wrong, right, ◌>>=◌, Value, number,
  bytes, other, Values, get, fields,
}

abbrev pub channel_id : ℕ
channel_id = 10

pub data Update : Type 0 where
  track : (title artist album artwork : Option (List ℕ)) → (duration_ms : Option ℕ) → Update
  playback :
      (state : Option ℕ) → (application : Option (List ℕ)) → (position_ms : Option ℕ) → Update
  phone : (name manufacturer : Option (List ℕ)) → Update
  battery : (level : Option ℕ) → (critical : Option Bool) → Update

-- `s.contains('\0')`.
unfoldable pub contains_nul : List ℕ → Bool
contains_nul [] = false
contains_nul (b ∷ bs) = b == 0 || contains_nul bs

-- `Option::is_some_and` of a bound.
unfoldable pub exceeds : ℕ → Option ℕ → Bool
exceeds limit none = false
exceeds limit (some value) = ltb limit value

unfoldable pub field_number : Option Value → Result (Option ℕ)
field_number none = right none
field_number (some (number n)) = right (some n)
field_number (some (bytes b)) = wrong invalid_number
field_number (some other) = wrong invalid_number

unfoldable pub picture : Option Value → Option (List ℕ)
picture none = none
picture (some (number n)) = none
picture (some (bytes b)) = if leb (length b) max_bytes then some b else none
picture (some other) = none

-- Milliseconds of a duration in seconds that has 32 bits.
unfoldable pub duration : Option ℕ → Option ℕ
duration none = none
duration (some v) = if leb v 4294967295 then some (v * 1000) else none

unfoldable pub times_1000 : Option ℕ → Option ℕ
times_1000 none = none
times_1000 (some p) = some (p * 1000)

unfoldable pub is_one : Option ℕ → Option Bool
is_one none = none
is_one (some v) = some (v == 1)

module _ (is_utf8 : List ℕ → Bool) (trim : List ℕ → List ℕ) where
  -- The text of a field, trimmed; one that is empty then is no text.
  abbrev pub trimmed : List ℕ → Option (List ℕ)
  trimmed s = if length (trim s) == 0 then none else some (trim s)

  unfoldable pub text : Option Value → Result (Option (List ℕ))
  text none = right none
  text (some (number n)) = wrong invalid_or_oversized_text
  text (some other) = wrong invalid_or_oversized_text
  text (some (bytes b)) =
      if leb (length b) 1024
      then if not (is_utf8 b)
        then wrong invalid_utf8
        else if contains_nul b
        then wrong nul_in_text
        else right (trimmed b)
      else wrong invalid_or_oversized_text

  unfoldable pub parse_track : Values → Result Update
  parse_track f = do
    title ← text (get f 1)
    artist ← text (get f 2)
    album ← text (get f 3)
    seconds ← field_number (get f 6)
    right (track title artist album (picture (get f 4)) (duration seconds))

  unfoldable pub parse_playback : Values → Result Update
  parse_playback f = do
    state ← field_number (get f 1)
    position ← field_number (get f 3)
    if exceeds 4 state || exceeds 4294967295 position then wrong invalid_playback_value else (do
      application ← text (get f 2)
      right (playback state application (times_1000 position)))

  unfoldable pub parse_phone : Values → Result Update
  parse_phone f = do
    name ← text (get f 4)
    manufacturer ← text (get f 5)
    right (phone name manufacturer)

  unfoldable pub parse_battery : Values → Result Update
  parse_battery f = do
    level ← field_number (get f 1)
    critical ← field_number (get f 3)
    if exceeds 100 level || exceeds 1 critical
        then wrong invalid_battery_value
        else right (battery level (is_one critical))

  unfoldable pub parse : ℕ → ℕ → List ℕ → Result Update
  parse channel id body = fields body >>= λ f.
      if channel == channel_id && id == 0x8003
      then parse_track f
      else if channel == channel_id && id == 0x8001
      then parse_playback f
      else if channel == 0 && id == 5
      then parse_phone f
      else if channel == 0 && id == 23
      then parse_battery f
      else wrong unsupported_metadata_message
