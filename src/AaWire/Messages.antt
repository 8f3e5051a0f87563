-- ===== src/AaWire/Messages.antt =====
-- aa_wire.rs, `Messages`: the reassembly of fragments, per channel.
pub mod Invariant
pub mod Reassembly
use project_argo.Common.{
  ℕ, ◌+◌, List, [], ◌∷◌, ◌++◌, Option, none, some, Bool, true, false, bit_and, ltb, ◌==◌,
  if◌then◌else◌, not, length,
}
use project_argo.AaWire.Defs.{
  fragment_overwritten, too_many_fragment_channels, reassembly_limit, continuation_without_first,
  fragment_flags_changed, Result, ok, err, max_message,
}

-- An entry of the map: its key, the flags of its first fragment and the bytes so far.
pub record Fragment : Type 0 where
  pub channel : ℕ
  pub original : ℕ
  pub bytes : List ℕ

-- The map, at most one entry a key.
abbrev pub Fragments : Type 0
Fragments = List Fragment

unfoldable pub get : ℕ → Fragments → Option Fragment
get c [] = none
get c (f ∷ m) = if f.channel == c then some f else get c m

unfoldable pub remove : ℕ → Fragments → Fragments
remove c [] = []
remove c (f ∷ m) = if f.channel == c then m else f ∷ remove c m

-- `data.extend(bytes)` through `get_mut`.
unfoldable pub extend : ℕ → List ℕ → Fragments → Fragments
extend c bytes [] = []
extend c bytes (f ∷ m) =
    if f.channel == c then record f { bytes = f.bytes ++ bytes } ∷ m else f ∷ extend c bytes m

unfoldable pub total : Fragments → ℕ
total [] = 0
total (f ∷ m) = length f.bytes + total m

abbrev is_held : ℕ → Fragments → Bool
is_held c m = elim (get c m) [ none ↦ false | some f ↦ true ]

-- The entry that a first fragment inserts.
abbrev pub opened : ℕ → ℕ → Fragment
opened channel flags = record { channel = channel; original = bit_and flags 0x0c; bytes = [] }

-- `accept` behind its first `if`.
unfoldable pub continue : ℕ → ℕ → List ℕ → Fragments → Result (Option (List ℕ)) × Fragments
continue channel flags bytes m =
    if ltb max_message (total m + length bytes)
    then (err reassembly_limit, m)
    else elim (get channel m) [
      | none ↦ (err continuation_without_first, m)
      | some f ↦
          if not (f.original == bit_and flags 0x0c)
          then (err fragment_flags_changed, m)
          else if not (bit_and flags 2 == 0)
          then (ok (some (f.bytes ++ bytes)), remove channel m)
          else (ok none, extend channel bytes m)
    ]

unfoldable pub accept : ℕ → ℕ → List ℕ → Fragments → Result (Option (List ℕ)) × Fragments
accept channel flags bytes m =
    if not (bit_and flags 1 == 0)
    then if is_held channel m
      then (err fragment_overwritten, m)
      else if not (bit_and flags 2 == 0)
      then (ok (some bytes), m)
      else if ltb 15 (length m)
      then (err too_many_fragment_channels, m)
      else continue channel flags bytes (opened channel flags ∷ m)
    else continue channel flags bytes m
