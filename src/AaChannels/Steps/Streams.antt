-- ===== src/AaChannels/Steps/Streams.antt =====
-- Every message of a media channel is one of the steps.
use project_argo.Common.{
  ℕ, ◌≡◌, ◌≢◌, refl, arith, List, [], Bool, true, false, Option, none, some, not, ltb, ◌==◌, ◌&&◌,
  ◌||◌, if◌then◌else◌, if_holds, length, drop, ◌≤◌, ==→eq,
}
use project_argo.AaChannels.Proto.{Fields, get, found, numbers}
use project_argo.AaChannels.State.{Effect, Channels, contains, lookup}
use project_argo.AaChannels.Streams.{
  is_value, is_media, media_packet, in_session, handle_media, or_value, is_offered, config_index,
  config_after, handle_setup, start_stream, handle_start, handle_stop, handle_focus, handle_stream,
}
use project_argo.AaChannels.Steps.{
  has_media, content_of, IsMedia, IsConfig, Step, refuses, answers, streams, sets_up, starts, stops,
  focuses,
}

pub not-false : (t : Bool) → not t ≡ false → t ≡ true
not-false true e = refl
not-false false e = cc

pub is_media-IsMedia : (c : ℕ) → is_media c ≡ true → IsMedia c
is_media-IsMedia c e = ground arith

quiet_if :
    (t : Bool) (a b : List Effect)
    → has_media a ≡ false
    → has_media b ≡ false
    → has_media (if t then a else b) ≡ false
quiet_if true a b h g = h
quiet_if false a b h g = g

media_packet-Step :
    (s : Channels) (c id : ℕ) (body content : List ℕ) (session : ℕ)
    → IsMedia c
    → lookup s.sessions c ≡ some session
    → id ≤ 1
    → content ≡ content_of id body
    → Step s c id body (media_packet s c content session)
unfolding media_packet
media_packet-Step s c id body content session m e j k =
    if_holds (Step s c id body) (ltb 4194304 (length content)) _ _ (λ t. refuses _)
      (λ f. streams session content _ m e (ground arith) j k refl)

pub handle_media-Step :
    (s : Channels) (c id : ℕ) (body : List ℕ)
    → IsMedia c
    → id ≤ 1
    → Step s c id body (handle_media s c id body)
unfolding handle_media
handle_media-Step s c id body m j = go (lookup s.sessions c) refl
  where
    go : (q : Option ℕ) → lookup s.sessions c ≡ q → Step s c id body (in_session s c id body q)
    go none e = refuses _
    go (some session) e =
        if_holds (Step s c id body) (id == 0) _ _
          (λ t.
            if_holds (Step s c id body) (ltb (length body) 8) _ _ (λ u. refuses _)
              (λ u. media_packet-Step s c id body (drop 8 body) session m e j (ground arith)))
          (λ t. media_packet-Step s c id body body session m e j (ground arith))

config_after-IsConfig :
    (s : Channels) (c : ℕ) (codec : Option ℕ)
    → is_offered s c codec ≡ true
    → c ≡ 3
    → IsConfig s (config_after s c codec)
unfolding is_offered
config_after-IsConfig s c none e three = ground arith
config_after-IsConfig s c (some n) e three = ground arith

config_after_other :
    (s : Channels) (c : ℕ) (codec : Option ℕ) → c ≢ 3 → config_after s c codec ≡ s.video_config
config_after_other s c codec h = ground arith

config_after_fixed :
    (s : Channels) (c : ℕ) (codec : Option ℕ)
    → (c == 3 && contains s.setup 3 && not (s.video_config == config_index c codec)) ≡ false
    → c ≡ 3
    → contains s.setup 3 ≡ true
    → config_after s c codec ≡ s.video_config
config_after_fixed s c codec f three h = ground arith

handle_setup-Step :
    (s : Channels) (c id : ℕ) (body : List ℕ) (fields : Fields)
    → IsMedia c
    → contains s.open_channels c ≡ true
    → Step s c id body (handle_setup s c fields)
unfolding handle_setup has_media
handle_setup-Step s c id body fields m o =
    let codec = get 1 fields in
    if_holds (Step s c id body) (not (is_offered s c codec)) _ _ (λ _. refuses _)
      (λ offered.
        if_holds (Step s c id body)
          (c == 3 && contains s.setup 3 && not (s.video_config == config_index c codec)) _ _
          (λ _. refuses _)
          (λ fixed.
            sets_up (config_after s c codec) _ (quiet_if (c == 3) _ _ refl refl) m o
              (config_after_other s c codec)
              (config_after-IsConfig s c codec (not-false (is_offered s c codec) offered))
              (config_after_fixed s c codec fixed)))

start_stream-Step :
    (s : Channels) (c id : ℕ) (body : List ℕ) (fields : Fields) (o : Option ℕ)
    → IsMedia c
    → contains s.setup c ≡ true
    → id ≡ 0x8001
    → numbers body ≡ found fields
    → get 1 fields ≡ o
    → Step s c id body (start_stream s c o)
unfolding start_stream has_media
start_stream-Step s c id body fields none m o j k e = refuses _
start_stream-Step s c id body fields (some session) m o j k e =
    starts session _ (quiet_if (c == 3) _ _ refl refl) m o j (fields, k, e)

handle_start-Step :
    (s : Channels) (c id : ℕ) (body : List ℕ) (fields : Fields)
    → IsMedia c
    → id ≡ 0x8001
    → numbers body ≡ found fields
    → Step s c id body (handle_start s c fields)
unfolding handle_start
handle_start-Step s c id body fields m j k =
    let fits = or_value (get 2 fields) 0 == (if c == 3 then s.video_config else 0) in
    if_holds (Step s c id body) (not (contains s.setup c) || not fits) _ _ (λ _. refuses _)
      (λ f. start_stream-Step s c id body fields (get 1 fields) m (ground arith) j k refl)

handle_stop-Step : (s : Channels) (c id : ℕ) (body : List ℕ) → Step s c id body (handle_stop s c)
unfolding handle_stop has_media
handle_stop-Step s c id body = stops _ (quiet_if (c == 3) _ _ refl refl)

handle_focus-Step :
    (s : Channels) (c id : ℕ) (body : List ℕ) (fields : Fields)
    → Step s c id body (handle_focus s fields)
unfolding handle_focus has_media
handle_focus-Step s c id body fields =
    focuses _ _ (quiet_if (is_value (get 2 fields) 2) _ _ refl refl)

pub handle_stream-Step :
    (s : Channels) (c id : ℕ) (body : List ℕ) (fields : Fields)
    → IsMedia c
    → contains s.open_channels c ≡ true
    → numbers body ≡ found fields
    → Step s c id body (handle_stream s c id fields)
unfolding handle_stream has_media
handle_stream-Step s c id body fields m o k =
    if_holds (Step s c id body) (id == 0x8000) _ _ (λ _. handle_setup-Step s c id body fields m o)
      (λ _.
        if_holds (Step s c id body) (id == 0x8001) _ _
          (λ e. handle_start-Step s c id body fields m (==→eq id 0x8001 e) k)
          (λ _.
            if_holds (Step s c id body) (id == 0x8002) _ _ (λ _. handle_stop-Step s c id body)
              (λ _.
                if_holds (Step s c id body) (id == 0x8007 && c == 3) _ _
                  (λ _. handle_focus-Step s c id body fields) (λ _. answers [] refl))))
