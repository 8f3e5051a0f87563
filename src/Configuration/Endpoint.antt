-- ===== src/Configuration/Endpoint.antt =====
-- configuration.rs, `resolve_endpoint`. A path is its UTF-8 bytes. What `str::trim` leaves is a
-- parameter, and so are the values of the two environment variables, as arguments.
use project_argo.Common.{
  ℕ, List, [], ◌∷◌, ◌++◌, Bool, false, Option, none, some, not, leb, ◌==◌, ◌||◌, if◌then◌else◌,
  length,
}
use project_argo.Metadata.Artwork.{same_bytes}
use project_argo.Metadata.Parse.{contains_nul}

-- "/run" and "/argo/".
abbrev run_text : List ℕ
run_text = 47 ∷ 114 ∷ 117 ∷ 110 ∷ []

abbrev argo_text : List ℕ
argo_text = 47 ∷ 97 ∷ 114 ∷ 103 ∷ 111 ∷ 47 ∷ []

abbrev runtime_or : Option (List ℕ) → List ℕ
runtime_or none = run_text
runtime_or (some runtime) = runtime

unfoldable pub chosen_path : Option (List ℕ) → Option (List ℕ) → List ℕ → List ℕ
chosen_path none runtime filename = runtime_or runtime ++ (argo_text ++ filename)
chosen_path (some value) runtime filename = value

-- `starts_with('/')` and `ends_with('/')`.
unfoldable pub starts_with_slash : List ℕ → Bool
starts_with_slash [] = false
starts_with_slash (b ∷ bs) = b == 47

unfoldable pub ends_with_slash : List ℕ → Bool
ends_with_slash [] = false
ends_with_slash (b ∷ []) = b == 47
ends_with_slash (b ∷ c ∷ bs) = ends_with_slash (c ∷ bs)

module _ (trim : List ℕ → List ℕ) where
  unfoldable pub is_refused : List ℕ → Bool
  is_refused path =
      not (starts_with_slash path)
      || not (same_bytes (trim path) path)
      || contains_nul path
      || leb 108 (length path)
      || ends_with_slash path

  -- None stands for the error.
  unfoldable pub resolve_endpoint : Option (List ℕ) → Option (List ℕ) → List ℕ → Option (List ℕ)
  unfolding is_refused
  resolve_endpoint value runtime filename =
      let path = chosen_path value runtime filename in if is_refused path then none else some path
