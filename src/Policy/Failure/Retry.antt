-- ===== src/Policy/Failure/Retry.antt =====
-- Which failures of the version negotiation are tried again.
use Prim.Native.String.{String}
use project_argo.Common.{ℕ, ◌≡◌, true, false, arith}
use project_argo.AaSession.Version.{
  IoError, VersionNegotiationError, disconnected, fail, parse_version_response, interrupted,
}
use project_argo.Policy.Failure.{IoErrorKind, retryable, from_negotiation}

module _ (io_kind : IoError → IoErrorKind) (io_text : IoError → String)
    (text : VersionNegotiationError → String) where
  -- The failure of an answer of the phone that is not accepted is never tried again.
  pub retryable-parse_version_response :
      (f : _) (e : VersionNegotiationError)
      → parse_version_response f ≡ fail e
      → retryable (from_negotiation io_kind io_text text e) ≡ false
  unfolding retryable from_negotiation parse_version_response
  retryable-parse_version_response f e p = ground arith

  -- The failure of a connection that ends before or within the answer is tried again.
  pub retryable-interrupted :
      (offset : ℕ) (e : VersionNegotiationError)
      → interrupted offset disconnected ≡ fail e
      → retryable (from_negotiation io_kind io_text text e) ≡ true
  unfolding retryable from_negotiation interrupted
  retryable-interrupted offset e p = ground arith
