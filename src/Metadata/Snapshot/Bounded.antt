-- ===== src/Metadata/Snapshot/Bounded.antt =====
-- The sizes of the texts of a snapshot, and of its message.
use mathlib.Core.Logic.{ite}
use project_argo.Common.{
  ℕ, ◌≤◌, ◌≡◌, List, Bool, true, false, Bool-cases, Option, none, some, inl, inr, arith, length,
  leb, not, ◌==◌, ◌&&◌, ◌||◌, if◌then◌else◌,
}
use project_argo.Metadata.Wire.{
  Result, wrong, right, ◌>>=◌, Value, number, bytes, other, Values, get, fields,
}
use project_argo.Metadata.Artwork.{Image, matches, validate, store}
use project_argo.Metadata.Parse.{
  Update, track, playback, phone, battery, text, trimmed, field_number, contains_nul, exceeds,
  channel_id, parse_track, parse_playback, parse_phone, parse_battery, parse,
}
use project_argo.Metadata.Snapshot.{
  Metadata, text_discrete, shown_artwork, switched, switch_application, with_application, updated,
}
use project_argo.Metadata.Snapshot.Message.{path_of}

-- A text of at most so many bytes, if there is one.
abbrev pub IsText : ℕ → Option (List ℕ) → Type 0
IsText n none = Unit {0}
IsText n (some t) = length t ≤ n

abbrev pub IsShown : Option Image → Type 0
IsShown artwork = IsText 4096 (path_of artwork)

-- Texts of at most 1024 bytes, and a path of at most 4096.
abbrev pub IsBounded : Metadata → Type 0
IsBounded d =
    IsText 1024 d.title
    × IsText 1024 d.artist
    × IsText 1024 d.album
    × IsText 1024 d.application
    × IsText 1024 d.device_name
    × IsText 1024 d.manufacturer
    × IsText 1024 d.model
    × IsShown d.artwork

abbrev pub IsUpdate : Update → Type 0
IsUpdate (track title artist album artwork duration_ms) =
    IsText 1024 title × IsText 1024 artist × IsText 1024 album
IsUpdate (playback state application position_ms) = IsText 1024 application
IsUpdate (phone name manufacturer) = IsText 1024 name × IsText 1024 manufacturer
IsUpdate (battery level critical) = Unit {0}

store-IsShown : (file : Option (List ℕ)) (b : List ℕ) → IsText 4096 file → IsShown (store file b)
unfolding store path_of
store-IsShown none b h = tt
store-IsShown (some path) b h = elim (Bool-cases (validate b)) [ inl t ↦ rw t h | inr f ↦ rw f tt ]

shown_artwork-IsShown :
    (file : Option (List ℕ)) (old : Option Image) (new : Option (List ℕ))
    → IsText 4096 file
    → IsShown old
    → IsShown (shown_artwork file old new)
unfolding shown_artwork
shown_artwork-IsShown file old none h g = unfold path_of in tt
shown_artwork-IsShown file none (some b) h g = store-IsShown file b h
shown_artwork-IsShown file (some image) (some b) h g = elim (Bool-cases (matches image b)) [
  | inl t ↦ rw t g
  | inr f ↦ rw f (store-IsShown file b h)
]

switched-IsBounded :
    (d : Metadata) (new : List ℕ) (old : Option (List ℕ))
    → length new ≤ 1024
    → IsBounded d
    → IsBounded (switched d new old)
unfolding switched switch_application path_of
switched-IsBounded d new none h i =
    let (title, artist, album, application, name, maker, model, artwork) = i in
    (title, artist, album, h, name, maker, model, artwork)
switched-IsBounded d new (some old) h i = go (text_discrete old new)
  where
    go :
        (q : Dec (old ≡ new))
        → IsBounded (ite q (record d { application = some new }) (switch_application d new))
    go (yes _) =
        let (title, artist, album, application, name, maker, model, artwork) = i in
        (title, artist, album, h, name, maker, model, artwork)
    go (no _) =
        let (title, artist, album, application, name, maker, model, artwork) = i in
        (tt, tt, tt, h, name, maker, model, tt)

pub updated-IsBounded :
    (file : Option (List ℕ)) (d : Metadata) (u : Update)
    → IsText 4096 file
    → IsUpdate u
    → IsBounded d
    → IsBounded (updated file d u)
unfolding updated with_application
updated-IsBounded file d (track title artist album artwork duration_ms) f h i =
    let (t, a, l, application, name, maker, model, shown) = i in
    (
      h.0,
      h.1,
      h.2,
      application,
      name,
      maker,
      model,
      shown_artwork-IsShown file d.artwork artwork f shown,
    )
updated-IsBounded file d (playback state none position_ms) f h i = i
updated-IsBounded file d (playback state (some new) position_ms) f h i =
    switched-IsBounded d new d.application h i
updated-IsBounded file d (phone name manufacturer) f h i =
    let (t, a, l, application, device, maker, model, shown) = i in
    (t, a, l, application, h.0, h.1, model, shown)
updated-IsBounded file d (battery level critical) f h i = i

-- What holds of a result if there is one.
abbrev pub Satisfies {ℓ} : {A : Type ℓ} → (A → Type 0) → Result A → Type 0
Satisfies P (wrong e) = Unit {0}
Satisfies P (right x) = P x

bind-Satisfies {ℓ} :
    {A B : Type ℓ} (P : A → Type 0) (Q : B → Type 0) (r : Result A) (next : A → Result B)
    → Satisfies P r
    → ((x : A) → P x → Satisfies Q (next x))
    → Satisfies Q (r >>= next)
bind-Satisfies P Q (wrong e) next p h = tt
bind-Satisfies P Q (right x) next p h = h x p

Satisfies-any {ℓ} : {A : Type ℓ} → (r : Result A) → Satisfies (λ x. Unit {0}) r
Satisfies-any (wrong e) = tt
Satisfies-any (right x) = tt

if-Satisfies {ℓ} :
    {A : Type ℓ} (P : A → Type 0) (t : Bool) (r q : Result A)
    → Satisfies P r
    → Satisfies P q
    → Satisfies P (if t then r else q)
if-Satisfies P true r q h g = h
if-Satisfies P false r q h g = g

module _ (is_utf8 : List ℕ → Bool) (trim : List ℕ → List ℕ)
    (trim_shortens : (s : List ℕ) → length (trim s) ≤ length s) where
  text-IsText : (v : Option Value) → Satisfies (IsText 1024) (text is_utf8 trim v)
  unfolding text
  text-IsText none = tt
  text-IsText (some (number n)) = tt
  text-IsText (some other) = tt
  text-IsText (some (bytes b)) = elim (Bool-cases (leb (length b) 1024)) [
    | inr f ↦ rw f tt
    | inl t ↦
        let fits : length b ≤ 1024 = ground arith in
        rw t (
          if-Satisfies (IsText 1024) (not (is_utf8 b)) _ _ tt
            (if-Satisfies (IsText 1024) (contains_nul b) _ _ tt (trimmed-IsText b fits)))
  ]
    where
      trimmed-IsText : (b : List ℕ) → length b ≤ 1024 → IsText 1024 (trimmed is_utf8 trim b)
      trimmed-IsText b h = elim (Bool-cases (length (trim b) == 0)) [
        | inl t ↦ rw t tt
        | inr f ↦ let k = trim_shortens b in rw f (omega arith)
      ]

  parse_track-IsUpdate : (f : Values) → Satisfies IsUpdate (parse_track is_utf8 trim f)
  unfolding parse_track
  parse_track-IsUpdate f =
      bind-Satisfies _ IsUpdate (text is_utf8 trim (get f 1)) _ (text-IsText (get f 1)) (λ title a.
        bind-Satisfies _ IsUpdate (text is_utf8 trim (get f 2)) _ (text-IsText (get f 2))
          (λ artist b.
            bind-Satisfies _ IsUpdate (text is_utf8 trim (get f 3)) _ (text-IsText (get f 3))
              (λ album c.
                bind-Satisfies _ IsUpdate (field_number (get f 6)) _
                  (Satisfies-any (field_number (get f 6))) (λ seconds d. (a, b, c)))))

  parse_playback-IsUpdate : (f : Values) → Satisfies IsUpdate (parse_playback is_utf8 trim f)
  unfolding parse_playback
  parse_playback-IsUpdate f =
      bind-Satisfies _ IsUpdate (field_number (get f 1)) _ (Satisfies-any (field_number (get f 1)))
        (λ state a.
          bind-Satisfies _ IsUpdate (field_number (get f 3)) _
            (Satisfies-any (field_number (get f 3)))
            (λ position b.
              if-Satisfies IsUpdate (exceeds 4 state || exceeds 4294967295 position) _ _ tt (
                bind-Satisfies _ IsUpdate (text is_utf8 trim (get f 2)) _ (text-IsText (get f 2))
                  (λ application c. c))))

  parse_phone-IsUpdate : (f : Values) → Satisfies IsUpdate (parse_phone is_utf8 trim f)
  unfolding parse_phone
  parse_phone-IsUpdate f =
      bind-Satisfies _ IsUpdate (text is_utf8 trim (get f 4)) _ (text-IsText (get f 4)) (λ name a.
        bind-Satisfies _ IsUpdate (text is_utf8 trim (get f 5)) _ (text-IsText (get f 5))
          (λ maker b. (a, b)))

  parse_battery-IsUpdate : (f : Values) → Satisfies IsUpdate (parse_battery is_utf8 trim f)
  unfolding parse_battery
  parse_battery-IsUpdate f =
      bind-Satisfies _ IsUpdate (field_number (get f 1)) _ (Satisfies-any (field_number (get f 1)))
        (λ level a.
          bind-Satisfies _ IsUpdate (field_number (get f 3)) _
            (Satisfies-any (field_number (get f 3)))
            (λ critical b.
              if-Satisfies IsUpdate (exceeds 100 level || exceeds 1 critical) _ _ tt tt))

  pub parse-IsUpdate :
      (channel id : ℕ) (body : List ℕ) → Satisfies IsUpdate (parse is_utf8 trim channel id body)
  unfolding parse
  parse-IsUpdate channel id body =
      bind-Satisfies _ IsUpdate (fields body) _ (Satisfies-any (fields body)) (λ f u.
        if-Satisfies IsUpdate (channel == channel_id && id == 0x8003) _ _ (parse_track-IsUpdate f) (
          if-Satisfies IsUpdate (channel == channel_id && id == 0x8001) _ _
            (parse_playback-IsUpdate f)
            (if-Satisfies IsUpdate (channel == 0 && id == 5) _ _ (parse_phone-IsUpdate f) (
              if-Satisfies IsUpdate (channel == 0 && id == 23) _ _ (parse_battery-IsUpdate f) tt))))
