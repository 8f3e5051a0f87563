-- ===== src/AaChannels/Discovery.antt =====
-- aa_channels.rs, `discovery_codecs`: the services that the answer to a discovery request lists. The
-- texts of the answer are their ASCII codes.
use project_argo.Common.{ℕ, ◌+◌, List, [], ◌∷◌, ◌++◌, map, Bool, ◌==◌, if◌then◌else◌}
use project_argo.AaChannels.Proto.{Field, numeric, bytewise, build}
use project_argo.AaChannels.Display.{DisplayConfig, content_width, content_height, ui_config}
use project_argo.AaChannels.Formats.{AudioFormat, audio}

-- "Project Argo".
abbrev pub project_argo_text : List ℕ
project_argo_text = 80 ∷ 114 ∷ 111 ∷ 106 ∷ 101 ∷ 99 ∷ 116 ∷ 32 ∷ 65 ∷ 114 ∷ 103 ∷ 111 ∷ []

-- "Universal".
abbrev pub universal : List ℕ
universal = 85 ∷ 110 ∷ 105 ∷ 118 ∷ 101 ∷ 114 ∷ 115 ∷ 97 ∷ 108 ∷ []

-- "2026".
abbrev pub year : List ℕ
year = 50 ∷ 48 ∷ 50 ∷ 54 ∷ []

-- "argo-001".
abbrev pub vehicle_id : List ℕ
vehicle_id = 97 ∷ 114 ∷ 103 ∷ 111 ∷ 45 ∷ 48 ∷ 48 ∷ 49 ∷ []

-- "Argo Head Unit".
abbrev pub head_unit_model : List ℕ
head_unit_model = 65 ∷ 114 ∷ 103 ∷ 111 ∷ 32 ∷ 72 ∷ 101 ∷ 97 ∷ 100 ∷ 32 ∷ 85 ∷ 110 ∷ 105 ∷ 116 ∷ []

-- "1".
abbrev pub build_number : List ℕ
build_number = 49 ∷ []

-- "1.0".
abbrev pub build_version : List ℕ
build_version = 49 ∷ 46 ∷ 48 ∷ []

unfoldable pub ping : List ℕ
ping = build (numeric 1 5000 ∷ numeric 2 1500 ∷ numeric 3 500 ∷ numeric 4 5 ∷ [])

unfoldable pub connection : List ℕ
connection = build (bytewise 1 ping ∷ [])

unfoldable pub headunit_info : List ℕ
headunit_info = build (
    bytewise 1 project_argo_text
    ∷ bytewise 2 universal
    ∷ bytewise 3 year
    ∷ bytewise 4 vehicle_id
    ∷ bytewise 5 project_argo_text
    ∷ bytewise 6 head_unit_model
    ∷ bytewise 7 build_number
    ∷ bytewise 8 build_version
    ∷ [])

-- The fields before the services.
unfoldable pub identity_fields : DisplayConfig → List Field
identity_fields display =
    bytewise 2 project_argo_text
    ∷ bytewise 3 universal
    ∷ bytewise 4 year
    ∷ bytewise 5 vehicle_id
    ∷ numeric 6 (if display.right_driver then 1 else 0)
    ∷ bytewise 7 project_argo_text
    ∷ bytewise 8 head_unit_model
    ∷ bytewise 9 build_number
    ∷ bytewise 10 build_version
    ∷ numeric 11 1
    ∷ bytewise 14 project_argo_text
    ∷ numeric 15 0
    ∷ bytewise 16 connection
    ∷ bytewise 17 headunit_info
    ∷ []

unfoldable pub sensor_field : ℕ → Field
sensor_field sensor = bytewise 1 (build (numeric 1 sensor ∷ []))

unfoldable pub sensor_service : List ℕ
sensor_service = build (numeric 1 1 ∷ bytewise 2 (build (map sensor_field (10 ∷ 13 ∷ []))) ∷ [])

unfoldable pub resolution : DisplayConfig → ℕ
resolution display = if display.width == 800 then 1 else if display.width == 1920 then 3 else 2

-- The video configuration with the codec of the given number: the H.264 one and the HEVC one
-- differ in it only.
unfoldable pub video_config : DisplayConfig → ℕ → List ℕ
video_config display codec = build (
    numeric 1 (resolution display)
    ∷ numeric 2 (if display.fps == 60 then 1 else 2)
    ∷ numeric 3 (display.view_insets.left + display.view_insets.right)
    ∷ numeric 4 (display.view_insets.top + display.view_insets.bottom)
    ∷ bytewise 11 (ui_config display)
    ∷ numeric 5 display.dpi
    ∷ numeric 8 10000
    ∷ numeric 10 codec
    ∷ [])

-- The sink of the video channel: HEVC is offered behind H.264 if the host decodes it.
unfoldable pub sink_fields : DisplayConfig → Bool → List Field
sink_fields display hevc =
    numeric 1 3
    ∷ bytewise 4 (video_config display 3)
    ∷ ((if hevc then bytewise 4 (video_config display 7) ∷ [] else [])
        ++ (numeric 5 1 ∷ numeric 7 0 ∷ []))

unfoldable pub video_service : DisplayConfig → Bool → List ℕ
video_service display hevc =
    build (numeric 1 3 ∷ bytewise 3 (build (sink_fields display hevc)) ∷ [])

unfoldable pub audio_service : AudioFormat → List ℕ
audio_service format =
    let config =
      build (numeric 1 format.rate ∷ numeric 2 format.bits ∷ numeric 3 format.channels ∷ []) in
    build (
      numeric 1 format.channel
      ∷ bytewise 3
          (build (numeric 1 1 ∷ numeric 2 format.role ∷ bytewise 3 config ∷ numeric 5 1 ∷ []))
      ∷ [])

unfoldable pub microphone_service : List ℕ
microphone_service =
    let mic_config = build (numeric 1 16000 ∷ numeric 2 16 ∷ numeric 3 1 ∷ []) in
    build (
      numeric 1 9
      ∷ bytewise 5 (build (numeric 1 1 ∷ bytewise 2 mic_config ∷ numeric 3 1 ∷ []))
      ∷ [])

unfoldable pub metadata_service : List ℕ
metadata_service = build (numeric 1 10 ∷ bytewise 9 (build []) ∷ [])

unfoldable pub input_service : DisplayConfig → List ℕ
input_service display =
    let touch =
      build (numeric 1 (content_width display) ∷ numeric 2 (content_height display) ∷ []) in
    build (
      numeric 1 8
      ∷ bytewise 4 (
          build
            (numeric 1 87 ∷ numeric 1 88 ∷ numeric 1 126 ∷ numeric 1 127 ∷ bytewise 2 touch ∷ []))
      ∷ [])

-- The services in the order of the answer.
unfoldable pub services : DisplayConfig → Bool → List (List ℕ)
services display hevc =
    sensor_service
    ∷ video_service display hevc
    ∷ (map audio_service audio
        ++ (microphone_service ∷ metadata_service ∷ input_service display ∷ []))

unfoldable pub discovery_codecs : DisplayConfig → Bool → List ℕ
discovery_codecs display hevc =
    build (identity_fields display ++ map (λ service. bytewise 1 service) (services display hevc))
