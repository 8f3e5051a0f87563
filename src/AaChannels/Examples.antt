-- ===== src/AaChannels/Examples.antt =====
-- Runs of the channels, and their theorems at concrete inputs.
use project_argo.Common.{ℕ, ◌≡◌, refl, List, [], ◌∷◌, ◌++◌, Bool, true, false, some, arith}
use project_argo.AaChannels.Proto.{Field, numeric, bytewise, build, found, numbers}
use project_argo.AaChannels.Proto.RoundTrip.{numbers-build, numeric_fields}
use project_argo.AaChannels.Display.{
  default_display, validate, is_mode, is_rate, leaves_nothing, content_width, content_height,
}
use project_argo.AaChannels.Display.Bounds.{IsDisplay, validate-IsDisplay}
use project_argo.AaChannels.State.{
  Channels, new, with_hevc, contains, lookup, error, media_before_start,
}
use project_argo.AaChannels.Streams.{handle_media}
use project_argo.AaChannels.Handle.{handle}
use project_argo.AaChannels.Safety.{
  Call, message, request_video, run, video_config-run, handle_error,
}
use project_argo.AaChannels.Delivery.{starting}
use project_argo.Metadata.Wire
use project_argo.AaChannels.Gesture.{IsGesture, Touch, touch_all, touch_all-IsGesture}

-- A number, a text and the number again.
abbrev some_fields : List Field
some_fields = numeric 1 300 ∷ bytewise 2 (65 ∷ 66 ∷ []) ∷ numeric 1 7 ∷ []

numbers-build_example : numbers (build some_fields) ≡ found ((1, 7) ∷ (1, 300) ∷ [])
unfolding numeric_fields
numbers-build_example =
    numbers-build some_fields
      (
        (omega arith, omega arith, omega arith),
        ((omega arith, omega arith, omega arith), ((omega arith, omega arith, omega arith), tt)),
      )
      (omega arith)

validate-IsDisplay_example : IsDisplay default_display
unfolding validate is_mode is_rate leaves_nothing content_width content_height
validate-IsDisplay_example = validate-IsDisplay default_display refl

abbrev any_text : List ℕ → Bool
any_text s = true

abbrev same_text : List ℕ → List ℕ
same_text s = s

-- The phone asks for the services, opens the music channel, sets it up and starts the stream 9.
abbrev music_starts : List Call
music_starts =
    message 0 5 []
    ∷ message 0 7 (16 ∷ 4 ∷ [])
    ∷ message 4 0x8000 (8 ∷ 1 ∷ [])
    ∷ message 4 0x8001 (8 ∷ 9 ∷ [])
    ∷ request_video false
    ∷ []

abbrev playing : Channels
playing = run any_text same_text (with_hevc default_display true) music_starts

abbrev answered : Channels
answered = record (with_hevc default_display true) { discovered = true }

abbrev video_starts : Channels
video_starts = run any_text same_text answered (starting 3 3 9)

abbrev video_stops : Channels
video_stops = run any_text same_text answered (starting 3 3 9 ++ (message 3 0x8002 (build []) ∷ []))

-- The video channel is set up for H.264.
abbrev video_set_up : Channels
video_set_up = record (with_hevc default_display true) {
  discovered = true;
  open_channels = 3 ∷ [];
  setup = 3 ∷ [];
}

-- A phone that asks for HEVC then does not get it.
video_config-run_example :
    (run any_text same_text video_set_up (message 3 0x8000 (8 ∷ 7 ∷ []) ∷ [])).video_config ≡ 0
unfolding with_hevc new
video_config-run_example =
    video_config-run any_text same_text video_set_up (message 3 0x8000 (8 ∷ 7 ∷ []) ∷ [])
      (unfold contains in refl)

refused_stream :
    handle any_text same_text video_set_up 3 1 (1 ∷ []) ≡ error video_set_up media_before_start
unfolding handle handle_media lookup with_hevc new
refused_stream = refl

handle_error_example : video_set_up ≡ video_set_up
handle_error_example =
    handle_error any_text same_text video_set_up video_set_up 3 1 (1 ∷ []) media_before_start
      refused_stream

abbrev press : ℕ → Touch
press pointer = record {
  at_x = λ n. n;
  at_y = λ n. 0;
  in_square = true;
  pointer = pointer;
  phase = 0;
  timestamp = 5;
}

abbrev input_open : Channels
input_open = record (new default_display) { discovered = true; open_channels = 8 ∷ [] }

-- Two fingers, one with a number above those of Android.
touch_all-IsGesture_example :
    (t : Channels) × (touch_all (press 77 ∷ press 3 ∷ []) (some input_open) ≡ some t)
    × IsGesture t.pointers
unfolding new
touch_all-IsGesture_example =
    touch_all-IsGesture (press 77 ∷ press 3 ∷ []) input_open (tt, omega arith)
