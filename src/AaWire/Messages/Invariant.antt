-- ===== src/AaWire/Messages/Invariant.antt =====
-- What every call of `accept` keeps, whatever the phone sends.
use project_argo.Common.{
  ℕ, ◌+◌, ◌≤◌, ◌<◌, ◌≡◌, ◌≢◌, refl, ◌∙◌, ◌⊎◌, inl, inr, List, [], ◌∷◌, ◌++◌, none, some, length,
  length-append, arith,
}
use project_argo.AaWire.Defs.{max_message}
use project_argo.AaWire.Messages.{
  Fragment, Fragments, get, remove, extend, total, opened, continue, accept,
}

-- No channel has two entries.
abbrev pub IsDistinct : Fragments → Type 0
IsDistinct [] = Unit {0}
IsDistinct (f ∷ m) = (get f.channel m ≡ none) × IsDistinct m

pub record IsBounded (m : Fragments) : Type 0 where
  pub distinct : IsDistinct m
  pub few : length m ≤ 16
  pub small : total m ≤ max_message

-- The entries of other channels are not touched.
pub get-remove : (c d : ℕ) (m : Fragments) → c ≢ d → get d (remove c m) ≡ get d m
unfolding get remove
get-remove c d [] h = refl
get-remove c d (f ∷ m) h = ground (arith, get-remove c d m h)

pub get-extend :
    (c d : ℕ) (bytes : List ℕ) (m : Fragments) → c ≢ d → get d (extend c bytes m) ≡ get d m
unfolding get extend
get-extend c d bytes [] h = refl
get-extend c d bytes (f ∷ m) h = ground (arith, get-extend c d bytes m h)

pub get-extend_self :
    (c : ℕ) (bytes : List ℕ) (m : Fragments) (f : Fragment)
    → get c m ≡ some f
    → get c (extend c bytes m) ≡ some (record f { bytes = f.bytes ++ bytes })
unfolding get extend
get-extend_self c bytes [] f h = cc
get-extend_self c bytes (g ∷ m) f h = ground (arith, get-extend_self c bytes m f)

-- A key that is not there stays away.
get-remove-none : (c d : ℕ) (m : Fragments) → get d m ≡ none → get d (remove c m) ≡ none
unfolding get remove
get-remove-none c d [] h = refl
get-remove-none c d (f ∷ m) h = ground (arith, get-remove-none c d m)

get-extend-none :
    (c d : ℕ) (bytes : List ℕ) (m : Fragments) → get d m ≡ none → get d (extend c bytes m) ≡ none
unfolding get extend
get-extend-none c d bytes [] h = refl
get-extend-none c d bytes (f ∷ m) h = ground (arith, get-extend-none c d bytes m)

remove-IsDistinct : (c : ℕ) (m : Fragments) → IsDistinct m → IsDistinct (remove c m)
unfolding remove
remove-IsDistinct c [] h = tt
remove-IsDistinct c (f ∷ m) h =
    ground (arith, remove-IsDistinct c m h.1, get-remove-none c f.channel m)

extend-IsDistinct :
    (c : ℕ) (bytes : List ℕ) (m : Fragments) → IsDistinct m → IsDistinct (extend c bytes m)
unfolding extend
extend-IsDistinct c bytes [] h = tt
extend-IsDistinct c bytes (f ∷ m) h =
    ground (arith, extend-IsDistinct c bytes m h.1, get-extend-none c f.channel bytes m)

same-key : (c d : ℕ) (m : Fragments) → c ≡ d → get c m ≡ none → get d m ≡ none
same-key c d m e h = rw (← e) h

-- After a removal the key is free again.
pub get-remove_self : (c : ℕ) (m : Fragments) → IsDistinct m → get c (remove c m) ≡ none
unfolding get remove
get-remove_self c [] h = refl
get-remove_self c (f ∷ m) h = ground (arith, get-remove_self c m h.1, same-key f.channel c m)

remove_sizes :
    (c : ℕ) (m : Fragments) → (length (remove c m) ≤ length m) × (total (remove c m) ≤ total m)
unfolding remove total
remove_sizes c [] = omega arith
remove_sizes c (f ∷ m) = ground (arith, remove_sizes c m)

pub extend_sizes :
    (c : ℕ) (bytes : List ℕ) (m : Fragments)
    → (length (extend c bytes m) ≡ length m) × (total (extend c bytes m) ≤ total m + length bytes)
unfolding extend total
extend_sizes c bytes [] = omega arith
extend_sizes c bytes (f ∷ m) = ground (arith, extend_sizes c bytes m, length-append f.bytes bytes)

continue-IsBounded :
    (channel flags : ℕ) (bytes : List ℕ) (m : Fragments)
    → IsBounded m
    → IsBounded (continue channel flags bytes m).1
unfolding continue
continue-IsBounded channel flags bytes m v = ground (
  arith,
  remove-IsDistinct channel m v.distinct,
  extend-IsDistinct channel bytes m v.distinct,
  remove_sizes channel m,
  extend_sizes channel bytes m,
)

-- What `accept` makes of the map: nothing, or what `continue` makes of it, behind a new entry
-- if the packet is a first fragment.
accept_state :
    (channel flags : ℕ) (bytes : List ℕ) (m : Fragments)
    → ((accept channel flags bytes m).1 ≡ m)
      ⊎ (((get channel m ≡ none)
            × (length m < 16)
            × ((accept channel flags bytes m).1
                ≡ (continue channel flags bytes (opened channel flags ∷ m)).1))
          ⊎ ((accept channel flags bytes m).1 ≡ (continue channel flags bytes m).1))
unfolding accept
accept_state channel flags bytes m = ground arith

pub total-opened : (channel flags : ℕ) (m : Fragments) → total (opened channel flags ∷ m) ≡ total m
unfolding total
total-opened channel flags m = omega arith

-- At most 16 channels hold fragments, one entry each, of at most 4 MiB together, after any
-- packet, whether it is accepted or refused.
pub accept-IsBounded :
    (channel flags : ℕ) (bytes : List ℕ) (m : Fragments)
    → IsBounded m
    → IsBounded (accept channel flags bytes m).1
accept-IsBounded channel flags bytes m v = elim (accept_state channel flags bytes m) [
  | inl e ↦ rw e v
  | inr (inl (free, few, e)) ↦ rw e (
      continue-IsBounded channel flags bytes (opened channel flags ∷ m) (record {
        distinct = (free, v.distinct);
        few = omega arith;
        small = omega (arith, total-opened channel flags m);
      }))
  | inr (inr e) ↦ rw e (continue-IsBounded channel flags bytes m v)
]

get-continue :
    (channel flags other : ℕ) (bytes : List ℕ) (m : Fragments)
    → channel ≢ other
    → get other (continue channel flags bytes m).1 ≡ get other m
unfolding continue
get-continue channel flags other bytes m h =
    ground (arith, get-remove channel other m h, get-extend channel other bytes m h)

get-opened :
    (channel flags other : ℕ) (m : Fragments)
    → channel ≢ other
    → get other (opened channel flags ∷ m) ≡ get other m
unfolding get
get-opened channel flags other m h = ground arith

-- A packet leaves the fragments of every other channel as they are.
pub get-accept :
    (channel flags other : ℕ) (bytes : List ℕ) (m : Fragments)
    → channel ≢ other
    → get other (accept channel flags bytes m).1 ≡ get other m
get-accept channel flags other bytes m h = elim (accept_state channel flags bytes m) [
  | inl e ↦ rw e
  | inr (inl (free, few, e)) ↦ rw e (
      get-continue channel flags other bytes (opened channel flags ∷ m) h
      ∙ get-opened channel flags other m h)
  | inr (inr e) ↦ rw e (get-continue channel flags other bytes m h)
]
