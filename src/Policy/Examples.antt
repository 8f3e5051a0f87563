-- ===== src/Policy/Examples.antt =====
-- Runs of the liveness, and its theorem at a concrete input.
use project_argo.Common.{◌≡◌, refl, List, [], ◌∷◌, some, true, false}
use project_argo.Policy.Liveness.{
  establish, valid, retain, pop_front, request, remove_match, response,
}
use project_argo.Policy.Liveness.Pending.{IsLive}
use project_argo.Policy.Liveness.Once.{
  Call, establishes, requests, responds, default_liveness, after, run, run-response-once,
}

abbrev asked : List Call
asked = establishes 0 ∷ requests 500 1 ∷ requests 500 2 ∷ []

abbrev asked_again : List Call
asked_again = requests 400 5 ∷ responds (some 501) 6 ∷ []

answered : (response (run (default_liveness 7) asked) (some 500) 3).0 ≡ true
unfolding run after default_liveness establish request retain pop_front response remove_match valid
answered = refl

run-response-once_example :
    IsLive (run (default_liveness 7) asked)
    × ((response
          (run (response (run (default_liveness 7) asked) (some 500) 3).1 asked_again)
          (some 500)
          7).0
        ≡ false)
run-response-once_example = run-response-once 7 asked asked_again 500 3 7 answered
