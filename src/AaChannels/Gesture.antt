-- ===== src/AaChannels/Gesture.antt =====
-- The contacts of a gesture after any touches.
use project_argo.Common.{
  ℕ, ◌-◌, ◌≤◌, ◌<◌, ◌≡◌, refl, arith, List, [], ◌∷◌, Bool, false, Option, none, some, ltb, ◌==◌,
  ◌||◌, not, if_holds, length,
}
use project_argo.AaChannels.State.{Contact, Channels, lookup, contains}
use project_argo.AaChannels.Display.{content_width, content_height}
use project_argo.AaChannels.Touch.{
  Pointers, insert_pointer, wire_id_of, released, TouchAnswer, touched, ignored, refused, panics,
  report, is_passed_over, touch,
}
use project_argo.AaChannels.Contacts.{
  AreContacts-insert_new, AreContacts-insert_moved, AreContacts-remove,
}
use project_argo.AaChannels.WireIds.{AreContacts, free_id_found}

-- The contacts of a gesture: at most ten, in order, with different numbers below 10.
abbrev pub IsGesture : Pointers → Type 0
IsGesture ps = AreContacts ps × (length ps ≤ 10)

released-IsGesture : (phase p : ℕ) (ps : Pointers) → IsGesture ps → IsGesture (released phase p ps)
unfolding released
released-IsGesture phase p ps g =
    if_holds IsGesture (phase == 3) _ _ (λ _. (tt, omega arith))
      (λ _.
        if_holds IsGesture (phase == 2) _ _
          (λ _. let (i, n) = AreContacts-remove ps p g.0 in (i, omega (arith, n, g.1))) (λ _. g))

-- What a touch answers: no panic, and the contacts stay a gesture.
abbrev pub IsSound : TouchAnswer → Type 0
IsSound (touched t r) = IsGesture t.pointers
IsSound (ignored t) = IsGesture t.pointers
IsSound (refused t e) = IsGesture t.pointers
IsSound panics = ⊥

report-IsSound :
    (s : Channels) (p phase : ℕ) (point : ℕ × ℕ) (timestamp w : ℕ)
    → IsGesture (insert_pointer s.pointers p (record { wire_id = w; x = point.0; y = point.1 }))
    → IsSound (report s p phase point timestamp (some w))
unfolding report
report-IsSound s p phase point timestamp w g = released-IsGesture phase p _ g

-- A touch that is not passed over, with the contact that the pointer has.
held-IsSound :
    (s : Channels) (p phase : ℕ) (point : ℕ × ℕ) (timestamp : ℕ) (q : Option Contact)
    → lookup s.pointers p ≡ q
    → is_passed_over s p phase ≡ false
    → IsGesture s.pointers
    → IsSound (report s p phase point timestamp (wire_id_of s.pointers q))
unfolding wire_id_of
held-IsSound s p phase point timestamp none e n g =
    let few : length s.pointers < 10 = ground arith in
    let (w, f, small, free) = free_id_found s.pointers few in
    let (i, k) =
      AreContacts-insert_new s.pointers p (record { wire_id = w; x = point.0; y = point.1 }) e free
        small g.0 in
    rw f (report-IsSound s p phase point timestamp w (i, omega (arith, k, few)))
held-IsSound s p phase point timestamp (some c) e n g =
    let (i, k) =
      AreContacts-insert_moved s.pointers p c
        (record { wire_id = c.wire_id; x = point.0; y = point.1 }) e refl g.0 in
    report-IsSound s p phase point timestamp c.wire_id (i, omega (arith, k, g.1))

touch-IsSound :
    (at_x at_y : ℕ → ℕ) (in_square : Bool) (s : Channels) (p phase timestamp : ℕ)
    → IsGesture s.pointers
    → IsSound (touch at_x at_y in_square s p phase timestamp)
unfolding touch
touch-IsSound at_x at_y in_square s p phase timestamp g =
    let point : ℕ × ℕ = (at_x (content_width s.display - 1), at_y (content_height s.display - 1)) in
    if_holds IsSound (not (contains s.open_channels 8)) _ _ (λ _. g)
      (λ _.
        if_holds IsSound (not in_square || ltb 3 phase) _ _ (λ _. g)
          (λ _.
            if_holds IsSound (is_passed_over s p phase) _ _ (λ _. g)
              (λ n. held-IsSound s p phase point timestamp (lookup s.pointers p) refl n g)))

pub record Touch : Type 0 where
  pub at_x : ℕ → ℕ
  pub at_y : ℕ → ℕ
  pub in_square : Bool
  pub pointer : ℕ
  pub phase : ℕ
  pub timestamp : ℕ

abbrev pub touch_one : Channels → Touch → TouchAnswer
touch_one s t = touch t.at_x t.at_y t.in_square s t.pointer t.phase t.timestamp

-- The channels behind an answer, none after a panic.
unfoldable pub behind : TouchAnswer → Option Channels
behind (touched t r) = some t
behind (ignored t) = some t
behind (refused t e) = some t
behind panics = none

unfoldable pub touch_all : List Touch → Option Channels → Option Channels
touch_all [] s = s
touch_all (t ∷ ts) none = none
touch_all (t ∷ ts) (some s) = touch_all ts (behind (touch_one s t))

-- From channels whose contacts are a gesture, as none are, no sequence of touches, whatever their pointers, phases and
-- points, makes `touch` panic for want of a free number, and in the end there are at most ten
-- contacts, in the order of their pointers, with different numbers below 10.
pub touch_all-IsGesture :
    (ts : List Touch) (s : Channels)
    → IsGesture s.pointers
    → (t : Channels) × (touch_all ts (some s) ≡ some t) × IsGesture t.pointers
unfolding touch_all behind
touch_all-IsGesture [] s g = (s, refl, g)
touch_all-IsGesture (t ∷ ts) s g =
    go (touch_one s t) (touch-IsSound t.at_x t.at_y t.in_square s t.pointer t.phase t.timestamp g)
      (λ u. touch_all-IsGesture ts u)
  where
    go :
        (a : TouchAnswer)
        → IsSound a
        → ((u : Channels)
            → IsGesture u.pointers
            → (v : Channels) × (touch_all ts (some u) ≡ some v) × IsGesture v.pointers)
        → (v : Channels) × (touch_all ts (behind a) ≡ some v) × IsGesture v.pointers
    go (touched u r) i ih = ih u i
    go (ignored u) i ih = ih u i
    go (refused u e) i ih = ih u i
    go panics i ih = absurd i
