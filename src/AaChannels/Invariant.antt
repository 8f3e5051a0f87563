-- ===== src/AaChannels/Invariant.antt =====
-- What holds of the channels of a session after any messages of the phone and requests of the host.
use mathlib.Core.Path.{subst}
use project_argo.Common.{
  ℕ, ◌≡◌, ◌≢◌, ◌⊎◌, inl, inr, refl, sym, ap, ◌∙◌, arith, List, [], ◌∷◌, Bool, true, false, none,
  some, ◌==◌, ==→eq, if_holds, Bool-cases,
}
use project_argo.AaChannels.Display.{DisplayConfig}
use project_argo.AaChannels.State.{
  Channels, new, with_hevc, set_video_requested, contains, insert, lookup, remove, note_warning,
  is_noted, Answer, left,
}
use project_argo.AaChannels.Steps.{
  IsMedia, IsService, IsConfig, Step, refuses, answers, streams, warns, discovers, warns_discovers,
  opens, sets_up_microphone, sets_up, starts, stops, focuses,
}

-- A channel is open only after discovery, and only if it is a service; it is set up only if it is
-- open; a stream runs only if its channel is a media channel that is set up; and HEVC is configured
-- only if it was offered, by the setup of the video channel.
pub record IsChannels (s : Channels) : Type 0 where
  pub open_discovered :
      (c : ℕ) → contains s.open_channels c ≡ true → (s.discovered ≡ true) × IsService c
  pub setup_open : (c : ℕ) → contains s.setup c ≡ true → contains s.open_channels c ≡ true
  pub session_setup :
      (c n : ℕ) → lookup s.sessions c ≡ some n → IsMedia c × (contains s.setup c ≡ true)
  pub config_offered : IsConfig s s.video_config

contains-insert :
    (xs : List ℕ) (c d : ℕ) → contains (insert xs c) d ≡ true → (c ≡ d) ⊎ (contains xs d ≡ true)
unfolding contains insert
contains-insert xs c d e = ground arith

pub contains-insert_keeps :
    (xs : List ℕ) (c d : ℕ) → contains xs d ≡ true → contains (insert xs c) d ≡ true
unfolding contains insert
contains-insert_keeps xs c d e = ground arith

pub lookup-remove_same {ℓ} : {A : Type ℓ} (l : List (ℕ × A)) (c : ℕ) → lookup (remove l c) c ≡ none
unfolding lookup remove
lookup-remove_same [] c = refl
lookup-remove_same ((k, b) ∷ l) c = ground (arith, lookup-remove_same l c)

pub lookup-remove {ℓ} :
    {A : Type ℓ} (l : List (ℕ × A)) (c d : ℕ) (a : A)
    → lookup (remove l c) d ≡ some a
    → lookup l d ≡ some a
unfolding lookup remove
lookup-remove [] c d a e = e
lookup-remove ((k, b) ∷ l) c d a e = elim (Bool-cases (c == d)) [
  | inl t ↦
      let none_left : lookup (remove ((k, b) ∷ l) c) d ≡ none =
        subst (λ x. lookup (remove ((k, b) ∷ l) c) x ≡ none) (==→eq c d t)
          (lookup-remove_same ((k, b) ∷ l) c) in
      cc
  | inr f ↦ ground (arith, lookup-remove l c d a)
]

pub new-IsChannels : (display : DisplayConfig) (hevc : Bool) → IsChannels (with_hevc display hevc)
unfolding with_hevc new contains lookup
new-IsChannels display hevc = record {
  open_discovered = λ c e. absurd cc;
  setup_open = λ c e. absurd cc;
  session_setup = λ c n e. absurd cc;
  config_offered = inl refl;
}

lookup_later {ℓ} :
    {A : Type ℓ} (l : List (ℕ × A)) (k : ℕ) (b : A) (c : ℕ) (a : A)
    → (k == c) ≡ false
    → lookup ((k, b) ∷ l) c ≡ some a
    → lookup l c ≡ some a
unfolding lookup
lookup_later l k b c a f e = rw f at e

not_==_refl : (a b : ℕ) → a ≡ b → (a == b) ≢ false
not_==_refl a b p f = ground arith

note_warning-IsChannels :
    (s : Channels) (c id : ℕ) → IsChannels s → IsChannels (note_warning s c id)
unfolding note_warning
note_warning-IsChannels s c id i =
    if_holds IsChannels (is_noted s.metadata_warnings c id) _ _ (λ _. i)
      (λ _. record {
        open_discovered = i.open_discovered;
        setup_open = i.setup_open;
        session_setup = i.session_setup;
        config_offered = i.config_offered;
      })

discovered-IsChannels : (s : Channels) → IsChannels s → IsChannels (record s { discovered = true })
discovered-IsChannels s i = record {
  open_discovered = λ c e. (refl, (i.open_discovered c e).1);
  setup_open = i.setup_open;
  session_setup = i.session_setup;
  config_offered = i.config_offered;
}

pub Step-IsChannels :
    (s : Channels) (channel : ℕ) {id : ℕ} {body : List ℕ} (a : Answer)
    → Step s channel id body a
    → IsChannels s
    → IsChannels (left a)
unfolding left
Step-IsChannels s channel _ (refuses e) i = i
Step-IsChannels s channel _ (answers effects q) i = i
Step-IsChannels s channel _ (streams session content r m l h j k e) i = i
Step-IsChannels s channel _ (warns effects q) i = note_warning-IsChannels s channel _ i
Step-IsChannels s channel _ (discovers effects q) i = discovered-IsChannels s i
Step-IsChannels s channel _ (warns_discovers effects q) i =
    discovered-IsChannels (note_warning s channel _) (note_warning-IsChannels s channel _ i)
Step-IsChannels s channel _ (opens target effects q d t) i = record {
  open_discovered = λ c e. elim (contains-insert s.open_channels target c e) [
    | inl p ↦ (d, subst IsService p t)
    | inr h ↦ i.open_discovered c h
  ];
  setup_open = λ c e. contains-insert_keeps s.open_channels target c (i.setup_open c e);
  session_setup = i.session_setup;
  config_offered = i.config_offered;
}
Step-IsChannels s channel _ (sets_up_microphone effects q o) i = record {
  open_discovered = i.open_discovered;
  setup_open = λ c e. elim (contains-insert s.setup 9 c e) [
    | inl p ↦ ap (contains s.open_channels) (sym p) ∙ o
    | inr h ↦ i.setup_open c h
  ];
  session_setup =
      λ c n e. let (m, h) = i.session_setup c n e in (m, contains-insert_keeps s.setup 9 c h);
  config_offered = i.config_offered;
}
Step-IsChannels s channel _ (sets_up config effects q m o other fits fixed) i = record {
  open_discovered = i.open_discovered;
  setup_open = λ c e. elim (contains-insert s.setup channel c e) [
    | inl p ↦ ap (contains s.open_channels) (sym p) ∙ o
    | inr h ↦ i.setup_open c h
  ];
  session_setup = λ c n e.
      let (media_channel, h) = i.session_setup c n e in
      (media_channel, contains-insert_keeps s.setup channel c h);
  config_offered = elim (Bool-cases (channel == 3)) [
    | inl t ↦ fits (==→eq channel 3 t)
    | inr f ↦ subst (IsConfig s) (sym (other (λ p. not_==_refl channel 3 p f))) i.config_offered
  ];
}
Step-IsChannels s channel _ (starts session effects q m o j k) i = record {
  open_discovered = i.open_discovered;
  setup_open = i.setup_open;
  session_setup = λ c n e. elim (Bool-cases (channel == c)) [
    | inl t ↦ let p = ==→eq channel c t in (subst IsMedia p m, ap (contains s.setup) (sym p) ∙ o)
    | inr f ↦ i.session_setup c n (lookup_later s.sessions channel session c n f e)
  ];
  config_offered = i.config_offered;
}
Step-IsChannels s channel _ (stops effects q) i = record {
  open_discovered = i.open_discovered;
  setup_open = i.setup_open;
  session_setup = λ c n e. i.session_setup c n (lookup-remove s.sessions channel c n e);
  config_offered = i.config_offered;
}
Step-IsChannels s channel _ (focuses requested effects q) i = record {
  open_discovered = i.open_discovered;
  setup_open = i.setup_open;
  session_setup = i.session_setup;
  config_offered = i.config_offered;
}

pub requested-IsChannels :
    (s : Channels) (b : Bool) → IsChannels s → IsChannels (set_video_requested s b)
unfolding set_video_requested
requested-IsChannels s b i = record {
  open_discovered = i.open_discovered;
  setup_open = i.setup_open;
  session_setup = i.session_setup;
  config_offered = i.config_offered;
}
