-- ===== src/Configuration/Examples.antt =====
-- Runs of the configuration, and its theorem at a concrete input.
use project_argo.Common.{◌≡◌, refl, [], ◌∷◌, ◌++◌, none, some, arith, length}
use project_argo.AaChannels.Display.{default_display}
use project_argo.Configuration.Endpoint.{
  resolve_endpoint, is_refused, chosen_path, starts_with_slash, ends_with_slash,
}
use project_argo.Metadata.Artwork.{same_bytes}
use project_argo.Metadata.Parse.{contains_nul}
use project_argo.Configuration.Display.{write_display, read_display}
use project_argo.Configuration.Display.RoundTrip.{read_display-write_display}

-- "/r" and "p": the socket is "/r/argo/p".
socket_test :
    resolve_endpoint (λ path. path) none (some (47 ∷ 114 ∷ [])) (112 ∷ [])
    ≡ some (47 ∷ 114 ∷ 47 ∷ 97 ∷ 114 ∷ 103 ∷ 111 ∷ 47 ∷ 112 ∷ [])
unfolding resolve_endpoint is_refused chosen_path starts_with_slash ends_with_slash same_bytes
    contains_nul
socket_test = refl

-- A relative path is refused.
relative_test : resolve_endpoint (λ path. path) (some (114 ∷ [])) none (112 ∷ []) ≡ none
unfolding resolve_endpoint is_refused chosen_path starts_with_slash
relative_test = refl

read_display-write_display_example :
    read_display (record { bytes = write_display (9 ∷ []) default_display ++ (7 ∷ []); offset = 1 })
    ≡ some (
      default_display,
      record {
        bytes = write_display (9 ∷ []) default_display ++ (7 ∷ []);
        offset = length (write_display (9 ∷ []) default_display);
      },
    )
read_display-write_display_example =
    read_display-write_display (9 ∷ []) default_display (7 ∷ []) (record {
      width_fits = omega arith;
      height_fits = omega arith;
      dpi_fits = omega arith;
      view_fits = (omega arith, omega arith, omega arith, omega arith);
      safe_fits = (omega arith, omega arith, omega arith, omega arith);
    })
