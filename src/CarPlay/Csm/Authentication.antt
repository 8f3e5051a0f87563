-- ===== src/CarPlay/Csm/Authentication.antt =====
-- csm.rs, `Authentication`: the certificate and the signature of the coprocessor, in their order
-- and before a deadline. Times are nanoseconds.
pub mod Order
use project_argo.Common.{
  ℕ, ◌*◌, ◌≡◌, List, [], ◌∷◌, Bool, true, false, ltb, leb, ◌==◌, if◌then◌else◌, not, ◌||◌, ◌&&◌,
  length,
}
use project_argo.CarPlay.Defs.{Error, bounds, state, timeout, rejected, Result, ok, err}
use project_argo.CarPlay.Csm.Parameters.{parameter}
use project_argo.CarPlay.Csm.Message.{Message, one}
use project_argo.CarPlay.Iap2.Window.{saturating_add}

abbrev pub request_certificate : ℕ
request_certificate = 0xaa00

abbrev pub certificate_id : ℕ
certificate_id = 0xaa01

abbrev pub request_signature : ℕ
request_signature = 0xaa02

abbrev pub signature_id : ℕ
signature_id = 0xaa03

abbrev pub auth_failed : ℕ
auth_failed = 0xaa04

abbrev pub auth_succeeded : ℕ
auth_succeeded = 0xaa05

pub data AuthenticationState : Type 0 where
  await_certificate_request await_certificate await_challenge : AuthenticationState
  await_signature await_result authenticated closed : AuthenticationState

pub data AuthenticationAction : Type 0 where
  read_real_certificate : AuthenticationAction
  sign_with_real_coprocessor : List ℕ → AuthenticationAction
  sends : Message → AuthenticationAction
  complete : AuthenticationAction

pub record Authentication : Type 0 where
  pub current : AuthenticationState
  pub deadline : ℕ

unfoldable pub new : ℕ → Authentication
new now = record {
  current = await_certificate_request;
  deadline = saturating_add now (15 * 1000000000);
}

unfoldable pub fail : Authentication → Authentication
fail a = record a { current = closed }

abbrev pub is_closed : AuthenticationState → Bool
is_closed closed = true
is_closed _ = false

abbrev pub is_authenticated : AuthenticationState → Bool
is_authenticated authenticated = true
is_authenticated _ = false

unfoldable pub check_deadline : Authentication → ℕ → Result (Unit {0}) × Authentication
unfolding fail
check_deadline a now =
    if is_closed a.current
    then (err state, a)
    else if not (is_authenticated a.current) && leb a.deadline now
    then (err timeout, fail a)
    else (ok tt, a)

abbrev pub Answer : Type 0
Answer = Result AuthenticationAction × Authentication

-- `self.check_deadline(now)?`, then the rest.
abbrev pub in_time : Result (Unit {0}) × Authentication → (Authentication → Answer) → Answer
in_time (ok t, a) k = k a
in_time (err e, a) k = (err e, a)

unfoldable pub reject : Authentication → Error → Answer
unfolding fail
reject a e = (err e, fail a)

abbrev pub go : Authentication → AuthenticationState → AuthenticationAction → Answer
go a s action = (ok action, record a { current = s })

-- The challenge of a request for a signature.
unfoldable pub challenged : Authentication → Message → Answer
unfolding reject
challenged a m = elim (one m 0) [
  | err e ↦ reject a e
  | ok challenge ↦
      if not (length m.parameters == 1) || not (length challenge == 20 || length challenge == 32)
      then reject a bounds
      else go a await_signature (sign_with_real_coprocessor challenge)
]

-- The `match` of `receive`, each state with its own message; any other is an error of order.
unfoldable pub dispatch : Authentication → Message → Answer
unfolding reject
dispatch a m = if m.id == auth_failed then reject a rejected else elim a.current [
  | await_certificate_request ↦
      if m.id == request_certificate && length m.parameters == 0
      then go a await_certificate read_real_certificate
      else reject a state
  | await_challenge ↦ if m.id == request_signature then challenged a m else reject a state
  | await_result ↦
      if m.id == auth_succeeded && length m.parameters == 0
      then go a authenticated complete
      else reject a state
  | _ ↦ reject a state
]

unfoldable pub receive : Authentication → Message → ℕ → Answer
unfolding check_deadline dispatch
receive a m now = in_time (check_deadline a now) (λ b. dispatch b m)

-- `certificate` and `signature`: the bytes of the coprocessor, of 1 to `limit` bytes, in one state.
unfoldable pub certificate : Authentication → List ℕ → ℕ → Answer
unfolding check_deadline reject
certificate a bytes now = in_time (check_deadline a now) λ b. elim b.current [
  | await_certificate ↦
      if length bytes == 0 || ltb 8192 (length bytes)
      then reject b bounds
      else go b await_challenge
          (sends (record { id = certificate_id; parameters = parameter 0 bytes ∷ [] }))
  | _ ↦ reject b state
]

unfoldable pub signature : Authentication → List ℕ → ℕ → Answer
unfolding check_deadline reject
signature a bytes now = in_time (check_deadline a now) λ b. elim b.current [
  | await_signature ↦
      if length bytes == 0 || ltb 512 (length bytes)
      then reject b bounds
      else go b await_result
          (sends (record { id = signature_id; parameters = parameter 0 bytes ∷ [] }))
  | _ ↦ reject b state
]
