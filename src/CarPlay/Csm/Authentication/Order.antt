-- ===== src/CarPlay/Csm/Authentication/Order.antt =====
-- A phone is authenticated in one order of actions only.
use project_argo.Common.{ℕ, ◌≤◌, ◌<◌, ◌≡◌, refl, ◌⊎◌, inl, inr, List, [], ◌∷◌, ◌++◌, arith, length}
use project_argo.CarPlay.Defs.{Error, Result, ok, err}
use project_argo.CarPlay.Csm.Parameters.{parameter}
use project_argo.CarPlay.Csm.Message.{Message, one}
use project_argo.CarPlay.Csm.Authentication.{
  request_certificate, request_signature, certificate_id, signature_id, auth_succeeded,
  AuthenticationState, await_certificate_request, await_certificate, await_challenge,
  await_signature, await_result, authenticated, closed, AuthenticationAction, read_real_certificate,
  sign_with_real_coprocessor, sends, complete, Authentication, new, fail, check_deadline,
  challenged, go, receive, certificate, signature, Answer,
}

pub data Call : Type 0 where
  receives : Message → ℕ → Call
  certifies signs : List ℕ → ℕ → Call
  fails : Call
  checks : ℕ → Call

-- A call with the action that it was answered.
pub record Entry : Type 0 where
  pub call : Call
  pub action : AuthenticationAction

-- The state, and the calls that were answered with an action so far, oldest first.
pub record History : Type 0 where
  pub machine : Authentication
  pub log : List Entry

abbrev entry : Call → AuthenticationAction → Entry
entry c action = record { call = c; action = action }

abbrev noted : List Entry → Call → Answer → History
noted log c (ok action, a) = record { machine = a; log = log ++ (entry c action ∷ []) }
noted log c (err e, a) = record { machine = a; log = log }

unfoldable pub after : History → Call → History
after h (receives m now) = noted h.log (receives m now) (receive h.machine m now)
after h (certifies bytes now) = noted h.log (certifies bytes now) (certificate h.machine bytes now)
after h (signs bytes now) = noted h.log (signs bytes now) (signature h.machine bytes now)
after h fails = record h { machine = fail h.machine }
after h (checks now) = record h { machine = (check_deadline h.machine now).1 }

unfoldable pub run : History → List Call → History
run h [] = h
run h (c ∷ cs) = run (after h c) cs

abbrev pub certificate_sent : List ℕ → AuthenticationAction
certificate_sent bytes = sends (record { id = certificate_id; parameters = parameter 0 bytes ∷ [] })

abbrev pub signature_sent : List ℕ → AuthenticationAction
signature_sent bytes = sends (record { id = signature_id; parameters = parameter 0 bytes ∷ [] })

-- A message of the given kind without parameters.
abbrev pub IsBare : ℕ → Message → Type 0
IsBare id m = (m.id ≡ id) × (length m.parameters ≡ 0)

abbrev pub IsCertificate : List ℕ → Type 0
IsCertificate c = (0 < length c) × (length c ≤ 8192)

-- A request to sign the given challenge, which is its only parameter.
abbrev pub IsRequest : Message → List ℕ → Type 0
IsRequest m d =
    (m.id ≡ request_signature)
    × (length m.parameters ≡ 1)
    × (one m 0 ≡ ok d)
    × ((length d ≡ 20) ⊎ (length d ≡ 32))

abbrev pub IsSignature : List ℕ → Type 0
IsSignature s = (0 < length s) × (length s ≤ 512)

-- The logs of an exchange with a deadline, step by step: each is the one before and one entry.
abbrev pub Asked : ℕ → List Entry → Type 0
Asked deadline log =
    (m : Message) × (t : ℕ) × (log
      ≡ record { call = receives m t; action = read_real_certificate } ∷ [])
    × IsBare request_certificate m
    × (t < deadline)

abbrev pub Certified : ℕ → List Entry → Type 0
Certified deadline log =
    (before : List Entry) × Asked deadline before
    × (c : List ℕ) × (t : ℕ) × (log
        ≡ before ++ (record { call = certifies c t; action = certificate_sent c } ∷ []))
    × IsCertificate c
    × (t < deadline)

abbrev pub Challenged : ℕ → List Entry → Type 0
Challenged deadline log =
    (before : List Entry) × Certified deadline before
    × (m : Message) × (d : List ℕ) × (t : ℕ) × (log
        ≡ before ++ (record { call = receives m t; action = sign_with_real_coprocessor d } ∷ []))
    × IsRequest m d
    × (t < deadline)

abbrev pub Signed : ℕ → List Entry → Type 0
Signed deadline log =
    (before : List Entry) × Challenged deadline before
    × (s : List ℕ) × (t : ℕ) × (log
        ≡ before ++ (record { call = signs s t; action = signature_sent s } ∷ []))
    × IsSignature s
    × (t < deadline)

abbrev pub Completed : ℕ → List Entry → Type 0
Completed deadline log =
    (before : List Entry) × Signed deadline before
    × (m : Message) × (t : ℕ) × (log
        ≡ before ++ (record { call = receives m t; action = complete } ∷ []))
    × IsBare auth_succeeded m
    × (t < deadline)

-- What the log holds in each state, and that the deadline is still the first one.
abbrev Fits : ℕ → ℕ → AuthenticationState → List Entry → Type 0
Fits deadline now await_certificate_request log = (now ≡ deadline) × (log ≡ [])
Fits deadline now await_certificate log = (now ≡ deadline) × Asked deadline log
Fits deadline now await_challenge log = (now ≡ deadline) × Certified deadline log
Fits deadline now await_signature log = (now ≡ deadline) × Challenged deadline log
Fits deadline now await_result log = (now ≡ deadline) × Signed deadline log
Fits deadline now authenticated log = (now ≡ deadline) × Completed deadline log
Fits deadline now closed log = Unit {0}

abbrev IsHistory : ℕ → History → Type 0
IsHistory deadline h = Fits deadline h.machine.deadline h.machine.current h.log

closed-Fits :
    (deadline : ℕ) (a : Authentication) (log : List Entry)
    → a.current ≡ closed
    → Fits deadline a.deadline a.current log
closed-Fits deadline a log e = rw e tt

noted_closed :
    (deadline : ℕ) (log : List Entry) (c : Call) (r : Answer)
    → r.1.current ≡ closed
    → IsHistory deadline (noted log c r)
noted_closed deadline log c (ok action, a) e =
    closed-Fits deadline a (log ++ (entry c action ∷ [])) e
noted_closed deadline log c (err x, a) e = closed-Fits deadline a log e

certificate_cases :
    (a : Authentication) (bytes : List ℕ) (now : ℕ)
    → ((certificate a bytes now).1.current ≡ closed)
      ⊎ ((a.current ≡ await_certificate)
          × IsCertificate bytes
          × (now < a.deadline)
          × (certificate a bytes now ≡ go a await_challenge (certificate_sent bytes)))
unfolding certificate
certificate_cases a bytes now = ground arith

signature_cases :
    (a : Authentication) (bytes : List ℕ) (now : ℕ)
    → ((signature a bytes now).1.current ≡ closed)
      ⊎ ((a.current ≡ await_signature)
          × IsSignature bytes
          × (now < a.deadline)
          × (signature a bytes now ≡ go a await_result (signature_sent bytes)))
unfolding signature
signature_cases a bytes now = ground arith

check_cases :
    (a : Authentication) (now : ℕ)
    → ((check_deadline a now).1.current ≡ closed) ⊎ ((check_deadline a now).1 ≡ a)
unfolding check_deadline
check_cases a now = ground arith

-- The challenge of a request is the one that `one` reads.
abbrev Asks : Authentication → Message → Type 0
Asks a m =
    ((challenged a m).1.current ≡ closed)
    ⊎ ((d : List ℕ) × IsRequest m d
        × (challenged a m ≡ go a await_signature (sign_with_real_coprocessor d)))

challenged_ok :
    (a : Authentication) (m : Message) (d : List ℕ)
    → m.id ≡ request_signature
    → one m 0 ≡ ok d
    → ((challenged a m).1.current ≡ closed)
      ⊎ (IsRequest m d × (challenged a m ≡ go a await_signature (sign_with_real_coprocessor d)))
unfolding challenged
challenged_ok a m d i p = ground arith

challenged_cases : (a : Authentication) (m : Message) → m.id ≡ request_signature → Asks a m
unfolding challenged
challenged_cases a m i = elim (one-cases (one m 0)) [
  | inl (e, p) ↦ inl (rw (p, challenged))
  | inr (d, p) ↦ found d (challenged_ok a m d i p)
]
  where
    one-cases : (r : Result (List ℕ)) → ((e : Error) × (r ≡ err e)) ⊎ ((d : List ℕ) × (r ≡ ok d))
    one-cases (ok d) = inr (d, refl)
    one-cases (err e) = inl (e, refl)

    found :
        (d : List ℕ)
        → ((challenged a m).1.current ≡ closed)
          ⊎ (IsRequest m d × (challenged a m ≡ go a await_signature (sign_with_real_coprocessor d)))
        → Asks a m
    found d (inl e) = inl e
    found d (inr (h, e)) = inr (d, h, e)

receive_cases :
    (a : Authentication) (m : Message) (now : ℕ)
    → ((receive a m now).1.current ≡ closed)
      ⊎ (((a.current ≡ await_certificate_request)
            × IsBare request_certificate m
            × (now < a.deadline)
            × (receive a m now ≡ go a await_certificate read_real_certificate))
          ⊎ (((a.current ≡ await_challenge)
                × (m.id ≡ request_signature)
                × (now < a.deadline)
                × (receive a m now ≡ challenged a m))
              ⊎ ((a.current ≡ await_result)
                  × IsBare auth_succeeded m
                  × (now < a.deadline)
                  × (receive a m now ≡ go a authenticated complete))))
unfolding receive
receive_cases a m now = ground arith

receive-Fits :
    (deadline : ℕ) (h : History) (m : Message) (now : ℕ)
    → IsHistory deadline h
    → IsHistory deadline (noted h.log (receives m now) (receive h.machine m now))
receive-Fits deadline h m now v = elim (receive_cases h.machine m now) [
  | inl e ↦ noted_closed deadline h.log (receives m now) (receive h.machine m now) e
  | inr (inl (s, b, t, e)) ↦ rw e (asked b t (rw s at v))
  | inr (inr (inl (s, i, t, e))) ↦ rw e (challenge t (rw s at v) (challenged_cases h.machine m i))
  | inr (inr (inr (s, b, t, e))) ↦ rw e (completed b t (rw s at v))
]
  where
    asked :
        IsBare request_certificate m
        → now < h.machine.deadline
        → Fits deadline h.machine.deadline await_certificate_request h.log
        → IsHistory deadline
            (noted h.log (receives m now) (go h.machine await_certificate read_real_certificate))
    asked b t (d, l) = (d, (m, now, rw l refl, b, omega arith))

    challenge :
        now < h.machine.deadline
        → Fits deadline h.machine.deadline await_challenge h.log
        → Asks h.machine m
        → IsHistory deadline (noted h.log (receives m now) (challenged h.machine m))
    challenge t f (inl e) = noted_closed deadline h.log (receives m now) (challenged h.machine m) e
    challenge t (w, l) (inr (d, i, e)) = rw e (w, (h.log, l, m, d, now, refl, i, omega arith))

    completed :
        IsBare auth_succeeded m
        → now < h.machine.deadline
        → Fits deadline h.machine.deadline await_result h.log
        → IsHistory deadline (noted h.log (receives m now) (go h.machine authenticated complete))
    completed b t (w, l) = (w, (h.log, l, m, now, refl, b, omega arith))

certified-Fits :
    (deadline : ℕ) (h : History) (bytes : List ℕ) (now : ℕ)
    → IsCertificate bytes
    → now < h.machine.deadline
    → Fits deadline h.machine.deadline await_certificate h.log
    → IsHistory deadline
        (noted h.log (certifies bytes now) (go h.machine await_challenge (certificate_sent bytes)))
certified-Fits deadline h bytes now k t (w, l) = (w, (h.log, l, bytes, now, refl, k, omega arith))

signed-Fits :
    (deadline : ℕ) (h : History) (bytes : List ℕ) (now : ℕ)
    → IsSignature bytes
    → now < h.machine.deadline
    → Fits deadline h.machine.deadline await_signature h.log
    → IsHistory deadline
        (noted h.log (signs bytes now) (go h.machine await_result (signature_sent bytes)))
signed-Fits deadline h bytes now k t (w, l) = (w, (h.log, l, bytes, now, refl, k, omega arith))

after-IsHistory :
    (deadline : ℕ) (h : History) (c : Call) → IsHistory deadline h → IsHistory deadline (after h c)
unfolding after
after-IsHistory deadline h (receives m now) v = receive-Fits deadline h m now v
after-IsHistory deadline h (certifies bytes now) v = elim (certificate_cases h.machine bytes now) [
  | inl e ↦ noted_closed deadline h.log (certifies bytes now) (certificate h.machine bytes now) e
  | inr (s, k, t, e) ↦ rw e (certified-Fits deadline h bytes now k t (rw s at v))
]
after-IsHistory deadline h (signs bytes now) v = elim (signature_cases h.machine bytes now) [
  | inl e ↦ noted_closed deadline h.log (signs bytes now) (signature h.machine bytes now) e
  | inr (s, k, t, e) ↦ rw e (signed-Fits deadline h bytes now k t (rw s at v))
]
after-IsHistory deadline h fails v = unfold fail in tt
after-IsHistory deadline h (checks now) v = elim (check_cases h.machine now) [
  | inl e ↦ closed-Fits deadline (check_deadline h.machine now).1 h.log e
  | inr e ↦ rw e v
]

run-IsHistory :
    (deadline : ℕ) (h : History) (cs : List Call)
    → IsHistory deadline h
    → IsHistory deadline (run h cs)
unfolding run
run-IsHistory deadline h [] v = v
run-IsHistory deadline h (c ∷ cs) v =
    run-IsHistory deadline (after h c) cs (after-IsHistory deadline h c v)

-- Whatever is called and received, in any order and at any times: where a session is authenticated,
-- the calls that were answered with an action are five, in this order: the phone asked for the
-- certificate; a certificate of 1 to 8192 bytes was given, and sent; the phone asked to sign a
-- challenge of 20 or 32 bytes, which went to the coprocessor; a signature of 1 to 512 bytes was
-- given, and sent; and the phone told of success. Each was made before the deadline.
pub run_authenticated :
    (now : ℕ) (cs : List Call)
    → (run (record { machine = new now; log = [] }) cs).machine.current ≡ authenticated
    → Completed (new now).deadline (run (record { machine = new now; log = [] }) cs).log
run_authenticated now cs e =
    (rw e at (
      run-IsHistory (new now).deadline (record { machine = new now; log = [] }) cs
        (unfold new in (refl, refl)))).1
