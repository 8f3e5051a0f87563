-- ===== src/AaChannels/Steps/Refinement.antt =====
-- Every message is one of the steps.
use project_argo.Common.{
  ℕ, ◌≡◌, refl, sym, ap, ◌∙◌, arith, List, [], Bool, true, Option, none, some, not, leb, ◌==◌, ◌&&◌,
  ◌||◌, if_holds, ==→eq,
}
use project_argo.AaChannels.Proto.{Fields, get, failed, found, numbers, numeric, build}
use project_argo.AaChannels.Proto
use project_argo.AaChannels.State.{Channels, contains}
use project_argo.AaChannels.Streams.{is_value, is_media}
use project_argo.AaChannels.Handle.{
  is_service, open_service, handle_open, handle_control, sensor_request, handle_sensor,
  handle_microphone, handle_fields, with_update, with_discovery, is_metadata, read_fields,
  handle_metadata, handle,
}
use project_argo.AaChannels.Steps.{
  has_media, Step, refuses, answers, warns, discovers, warns_discovers, opens, sets_up_microphone,
}
use project_argo.Metadata.Wire.{Result, wrong, right, truncated_bytes}
use project_argo.Metadata.Parse.{Update, parse}
use project_argo.AaChannels.Steps.Streams.{
  not-false, is_media-IsMedia, handle_media-Step, handle_stream-Step,
}

open_service-Step :
    (s : Channels) (c id : ℕ) (body : List ℕ) (o : Option ℕ) → Step s c id body (open_service s c o)
unfolding open_service has_media
open_service-Step s c id body none = refuses _
open_service-Step s c id body (some target) =
    if_holds (Step s c id body) (s.discovered && is_service target) _ _
      (λ t. opens target _ refl (ground arith) (ground arith)) (λ t. answers _ refl)

handle_control-Step :
    (s : Channels) (c id : ℕ) (body : List ℕ) (fields : Fields)
    → Step s c id body (handle_control s id body fields)
unfolding handle_control has_media
handle_control-Step s c id body fields =
    if_holds (Step s c id body) (id == 11) _ _ (λ _. answers _ refl)
      (λ _.
        if_holds (Step s c id body) (id == 13) _ _ (λ _. answers _ refl)
          (λ _.
            if_holds (Step s c id body) (id == 15) _ _ (λ _. answers _ refl)
              (λ _.
                if_holds (Step s c id body) (id == 18) _ _ (λ _. answers _ refl)
                  (λ _. answers _ refl))))

sensor_request-Step :
    (s : Channels) (c id : ℕ) (body : List ℕ) (o : Option ℕ) → Step s c id body (sensor_request s o)
unfolding sensor_request has_media
sensor_request-Step s c id body none = refuses _
sensor_request-Step s c id body (some kind) =
    if_holds (Step s c id body) (kind == 10 || kind == 13) _ _ (λ _. answers _ refl)
      (λ _. answers _ refl)

handle_microphone-Step :
    (s : Channels) (c id : ℕ) (body : List ℕ) (fields : Fields)
    → contains s.open_channels 9 ≡ true
    → Step s c id body (handle_microphone s id fields)
unfolding handle_microphone has_media
handle_microphone-Step s c id body fields o =
    if_holds (Step s c id body) (id == 0x8000) _ _
      (λ _.
        if_holds (Step s c id body) (is_value (get 1 fields) 1) _ _
          (λ _. sets_up_microphone _ refl o) (λ _. refuses _))
      (λ _.
        if_holds (Step s c id body) (id == 0x8005) _ _
          (λ _.
            if_holds (Step s c id body) (contains s.setup 9) _ _ (λ _. answers _ refl)
              (λ _. refuses _))
          (λ _.
            if_holds (Step s c id body) (id == 0x8002) _ _ (λ _. answers _ refl)
              (λ _.
                if_holds (Step s c id body) (id == 0x8004) _ _ (λ _. answers _ refl)
                  (λ _. answers _ refl))))

handle_fields-Step :
    (s : Channels) (c id : ℕ) (body : List ℕ) (fields : Fields)
    → numbers body ≡ found fields
    → Step s c id body (handle_fields s c id body fields)
unfolding handle_fields handle_open handle_sensor has_media
handle_fields-Step s c id body fields k =
    if_holds (Step s c id body) (id == 7) _ _ (λ _. open_service-Step s c id body (get 2 fields))
      (λ _.
        if_holds (Step s c id body) (c == 0) _ _ (λ _. handle_control-Step s c id body fields)
          (λ _.
            if_holds (Step s c id body) (not (contains s.open_channels c)) _ _ (λ _. refuses _)
              (λ o.
                if_holds (Step s c id body) (c == 1 && id == 0x8001) _ _
                  (λ _. sensor_request-Step s c id body (get 1 fields))
                  (λ _.
                    if_holds (Step s c id body) (c == 8 && (id == 0x8002 || id == 0x19)) _ _
                      (λ _. answers _ refl)
                      (λ _.
                        if_holds (Step s c id body) (c == 9) _ _
                          (λ e. handle_microphone-Step s c id body fields (
                            ap (contains s.open_channels) (sym (==→eq c 9 e))
                            ∙ not-false (contains s.open_channels c) o))
                          (λ _.
                            if_holds (Step s c id body) (is_media c) _ _
                              (λ e.
                                handle_stream-Step s c id body fields (is_media-IsMedia c e)
                                  (ground arith) k)
                              (λ _. answers [] refl)))))))

with_update-Step :
    (s : Channels) (c id : ℕ) (body : List ℕ) (q : Result Update)
    → Step s c id body (with_discovery c id (with_update s c id q))
unfolding has_media
with_update-Step s c id body (wrong e) =
    if_holds (Step s c id body) (c == 0 && id == 5) _ _ (λ _. warns_discovers _ refl)
      (λ _. warns _ refl)
with_update-Step s c id body (right u) =
    if_holds (Step s c id body) (c == 0 && id == 5) _ _ (λ _. discovers _ refl)
      (λ _. answers _ refl)

-- The answer of `handle` to any message, in any state, is one of the steps of the relation.
pub handle-Step :
    (is_utf8 : List ℕ → Bool) (trim : List ℕ → List ℕ) (s : Channels) (channel id : ℕ)
    (body : List ℕ)
    → Step s channel id body (handle is_utf8 trim s channel id body)
unfolding handle handle_metadata has_media
handle-Step is_utf8 trim s c id body =
    if_holds (Step s c id body) (leb id 1 && is_media c) _ _
      (λ e. handle_media-Step s c id body (is_media-IsMedia c (ground arith)) (ground arith))
      (λ _.
        if_holds (Step s c id body) (is_metadata c id) _ _
          (λ _.
            if_holds (λ q. Step s c id body (with_discovery c id q))
              (c == 0 || contains s.open_channels c) _ _
              (λ _. with_update-Step s c id body (parse is_utf8 trim c id body))
              (λ _. with_update-Step s c id body (wrong truncated_bytes)))
          (λ _.
            if_holds (Step s c id body) (c == 10 && not (id == 7)) _ _ (λ _. answers [] refl)
              (λ _. go (numbers body) refl)))
  where
    go : (q : Proto.Result Fields) → numbers body ≡ q → Step s c id body (read_fields s c id body q)
    go (failed e) k = refuses _
    go (found fields) k = handle_fields-Step s c id body fields k
