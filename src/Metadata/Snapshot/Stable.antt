-- ===== src/Metadata/Snapshot/Stable.antt =====
-- An update that arrives twice: the second one is no change.
use mathlib.Core.Logic.{ite, if_pos}
use project_argo.Common.{
  ℕ, ◌≡◌, refl, sym, ap, ◌∙◌, List, [], ◌∷◌, Bool, true, false, Bool-cases, Option, none, some, inl,
  inr, arith,
}
use project_argo.Metadata.Artwork.{Image, same_bytes, matches, validate, store}
use project_argo.Metadata.Parse.{Update, track, playback, phone, battery}
use project_argo.Metadata.Snapshot.{
  Metadata, Metadata-discrete, texts_discrete, text_discrete, Snapshot, shown_artwork,
  kept_position, switch_application, switched, with_application, or_else, state_or, updated,
  changed, apply,
}

same_bytes_refl : (b : List ℕ) → same_bytes b b ≡ true
unfolding same_bytes
same_bytes_refl [] = refl
same_bytes_refl (b ∷ bs) = ground (arith, same_bytes_refl bs)

store_invalid : (file : Option (List ℕ)) (b : List ℕ) → validate b ≡ false → store file b ≡ none
unfolding store
store_invalid none b h = refl
store_invalid (some p) b h = rw h refl

store_again :
    (file file' : Option (List ℕ)) (b : List ℕ)
    → (file ≡ none → file' ≡ none)
    → shown_artwork file' (store file b) (some b) ≡ store file b
unfolding shown_artwork store matches
store_again none file' b h = rw (h refl) refl
store_again (some p) file' b h = elim (Bool-cases (validate b)) [
  | inl t ↦ rw (t, same_bytes_refl b) refl
  | inr f ↦ rw f (store_invalid file' b f)
]

shown_artwork_again :
    (file file' : Option (List ℕ)) (old : Option Image) (new : Option (List ℕ))
    → (file ≡ none → file' ≡ none)
    → shown_artwork file' (shown_artwork file old new) new ≡ shown_artwork file old new
unfolding shown_artwork
shown_artwork_again file file' old none h = refl
shown_artwork_again file file' none (some b) h = store_again file file' b h
shown_artwork_again file file' (some image) (some b) h = elim (Bool-cases (matches image b)) [
  | inl t ↦ rw (t, t) refl
  | inr f ↦ rw f (store_again file file' b h)
]

switched-application :
    (d : Metadata) (new : List ℕ) (old : Option (List ℕ))
    → (switched d new old).application ≡ some new
unfolding switched switch_application
switched-application d new none = refl
switched-application d new (some old) = go (text_discrete old new)
  where
    go :
        (q : Dec (old ≡ new))
        → (ite q (record d { application = some new }) (switch_application d new)).application
          ≡ some new
    go (yes _) = refl
    go (no _) = refl

with_application_same :
    (d : Metadata) (new : List ℕ) → d.application ≡ some new → with_application d (some new) ≡ d
unfolding with_application switched
with_application_same d new e =
    ap (switched d new) e
    ∙ if_pos (text_discrete new new) refl (record d { application = some new })
        (switch_application d new)
    ∙ ap (λ a. record d { application = a }) (sym e)

or_else_again {ℓ} :
    {A : Type ℓ} → (new old : Option A) → or_else new (or_else new old) ≡ or_else new old
unfolding or_else
or_else_again none old = refl
or_else_again (some x) old = refl

state_or_again : (new : Option ℕ) (old : ℕ) → state_or new (state_or new old) ≡ state_or new old
unfolding state_or
state_or_again none old = refl
state_or_again (some x) old = refl

updated_again :
    (file file' : Option (List ℕ)) (d : Metadata) (u : Update)
    → (file ≡ none → file' ≡ none)
    → updated file' (updated file d u) u ≡ updated file d u
unfolding updated kept_position
updated_again file file' d (track title artist album artwork duration_ms) h =
    let texts : Option (List ℕ) × (Option (List ℕ) × Option (List ℕ)) = (title, (artist, album)) in
    rw
      (
        shown_artwork_again file file' d.artwork artwork h,
        if_pos (texts_discrete texts texts) refl (kept_position d title artist album) none,
      )
      refl
updated_again file file' d (playback state none position_ms) h =
    unfold with_application in
    rw (state_or_again state d.playback, or_else_again position_ms d.position_ms) refl
updated_again file file' d (playback state (some new) position_ms) h =
    let d' = with_application d (some new) in
    rw
      (
        with_application_same (updated file d (playback state (some new) position_ms)) new
            (unfold with_application in switched-application d new d.application),
        state_or_again state d'.playback,
        or_else_again position_ms d'.position_ms,
      )
      refl
updated_again file file' d (phone name manufacturer) h = refl
updated_again file file' d (battery level critical) h =
    rw (or_else_again level d.battery, or_else_again critical d.critical) refl

pub apply-content :
    (now : ℕ) (file : Option (List ℕ)) (s : Snapshot) (u : Update)
    → (apply now file s u).0.content ≡ updated file s.content u
unfolding apply
apply-content now file s u = go (Metadata-discrete (updated file s.content u) s.content)
  where
    go :
        (q : Dec (updated file s.content u ≡ s.content))
        → (ite {C = Snapshot × Bool} q
            (record s { content = updated file s.content u }, false)
            (changed now (updated file s.content u) s, true)).0.content
          ≡ updated file s.content u
    go (yes _) = refl
    go (no _) = unfold changed in refl

apply_unchanged :
    (now : ℕ) (file : Option (List ℕ)) (s : Snapshot) (u : Update)
    → updated file s.content u ≡ s.content
    → apply now file s u ≡ (s, false)
unfolding apply
apply_unchanged now file s u e =
    if_pos (Metadata-discrete (updated file s.content u) s.content) e
      (record s { content = updated file s.content u }, false)
      (changed now (updated file s.content u) s, true)
    ∙ ap (λ d. (record s { content = d }, false)) e

-- The same update once more, after it was applied, is no change, whatever the clock says and
-- whatever comes of writing its picture, as long as that does not succeed only the second time:
-- the snapshot and with it the revision stay, and `apply` says so.
pub apply_again :
    (now now' : ℕ) (file file' : Option (List ℕ)) (s : Snapshot) (u : Update)
    → (file ≡ none → file' ≡ none)
    → apply now' file' (apply now file s u).0 u ≡ ((apply now file s u).0, false)
apply_again now now' file file' s u h = apply_unchanged now' file' (apply now file s u).0 u (
    ap (λ d. updated file' d u) (apply-content now file s u)
    ∙ updated_again file file' s.content u h
    ∙ sym (apply-content now file s u))
