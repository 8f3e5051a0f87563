-- ===== src/Policy/Liveness/Once.antt =====
-- Sequences of calls: the pings that are waited for, and that each is answered once at most.
use Prim.Native.Nat.{max}
use project_argo.Common.{
  ℕ, ◌+◌, ◌≤◌, ◌<◌, ◌≡◌, ◌≢◌, refl, List, [], ◌∷◌, Option, none, some, arith, All, length, Bool,
  true, false, ◌⊎◌, inl, inr, Option-cases, All-append, if◌then◌else◌, ◌==◌,
}
use project_argo.Policy.Liveness.{
  Ping, Liveness, establish, valid, retain, pop_front, request, remove_match, response,
}
use project_argo.Policy.Liveness.Pending.{
  IsAfter, IsIncreasing, IsLive, retain-All, pop_front-All, remove_match-All, weaken-All,
  remove_match-IsIncreasing, length-remove_match, request-IsLive, room,
}

pub data Call : Type 0 where
  establishes valids : ℕ → Call
  requests : ℕ → ℕ → Call
  responds : Option ℕ → ℕ → Call

-- `last` is what the static `LAST` holds, which outlives the sessions.
unfoldable pub default_liveness : ℕ → Liveness
default_liveness last = record { valid_at = none; matched_at = none; pending = []; last = last }

unfoldable pub after : Liveness → Call → Liveness
after l (establishes now) = establish l now
after l (valids now) = valid l now
after l (requests clock now) = (request l clock now).1
after l (responds field now) = (response l field now).1

unfoldable pub run : Liveness → List Call → Liveness
run l [] = l
run l (c ∷ cs) = run (after l c) cs

-- The calls that only touch the times keep what is said of the pings.
module _ (P : List Ping → ℕ → Type 0) where
  establish-keeps :
      (l : Liveness) (now : ℕ)
      → P l.pending l.last
      → P (establish l now).pending (establish l now).last
  unfolding establish
  establish-keeps l now v = elim (Option-cases l.valid_at) [
    | inl e ↦ rw (e, establish) v
    | inr (x, e) ↦ rw (e, establish) v
  ]

  valid-keeps :
      (l : Liveness) (now : ℕ) → P l.pending l.last → P (valid l now).pending (valid l now).last
  unfolding valid
  valid-keeps l now v = elim (Option-cases l.valid_at) [
    | inl e ↦ rw (e, valid) v
    | inr (x, e) ↦ rw (e, valid) v
  ]

  response-keeps :
      (l : Liveness) (field : Option ℕ) (now : ℕ)
      → P l.pending l.last
      → ((t : ℕ) (qs : List Ping) → remove_match t now l.pending ≡ some qs → P qs l.last)
      → P (response l field now).1.pending (response l field now).1.last
  unfolding response
  response-keeps l none now v f = v
  response-keeps l (some t) now v f = elim (Option-cases (remove_match t now l.pending)) [
    | inl e ↦ rw (e, response) v
    | inr (qs, e) ↦
        rw (e, response)
          (valid-keeps (record l { pending = qs; matched_at = some now }) now (f t qs e))
  ]

abbrev Live : List Ping → ℕ → Type 0
Live ps last = (length ps ≤ 8) × IsIncreasing ps × All (λ p. p.timestamp ≤ last) ps

live : (l : Liveness) → IsLive l → Live l.pending l.last
live l v = (v.few, v.increasing, v.bounded)

alive : (l : Liveness) → Live l.pending l.last → IsLive l
alive l (f, i, b) = record { few = f; increasing = i; bounded = b }

after-IsLive : (l : Liveness) (c : Call) → IsLive l → IsLive (after l c)
unfolding after
after-IsLive l (establishes now) v = alive (establish l now) (establish-keeps Live l now (live l v))
after-IsLive l (valids now) v = alive (valid l now) (valid-keeps Live l now (live l v))
after-IsLive l (requests clock now) v = request-IsLive l now v clock
after-IsLive l (responds field now) v = alive (response l field now).1 (
    response-keeps Live l field now (live l v) (λ t. λ qs. λ e. (
      omega (arith, v.few, length-remove_match t now l.pending qs e),
      remove_match-IsIncreasing t now l.pending qs e v.increasing,
      remove_match-All (λ p. p.timestamp ≤ l.last) t now l.pending qs e v.bounded,
    )))

run-IsLive_from : (l : Liveness) (cs : List Call) → IsLive l → IsLive (run l cs)
unfolding run
run-IsLive_from l [] v = v
run-IsLive_from l (c ∷ cs) v = run-IsLive_from (after l c) cs (after-IsLive l c v)

-- The timestamp was sent before, and is no longer waited for.
abbrev Gone : ℕ → List Ping → ℕ → Type 0
Gone t ps last = (t ≤ last) × All (λ p. p.timestamp ≢ t) ps

after_later :
    (t : ℕ) (p : Ping) (ps : List Ping)
    → p.timestamp ≡ t
    → All (IsAfter p) ps
    → All (λ q. q.timestamp ≢ t) ps
after_later t p ps e v = weaken-All (IsAfter p) (λ q. q.timestamp ≢ t) ps (λ q. λ h. omega arith) v

remove_match-Gone :
    (t now : ℕ) (ps qs : List Ping)
    → IsIncreasing ps
    → remove_match t now ps ≡ some qs
    → All (λ q. q.timestamp ≢ t) qs × ((p : Ping) → All (IsAfter p) ps → p.timestamp < t)
unfolding remove_match
remove_match-Gone t now [] qs v e = cc
remove_match-Gone t now (p ∷ ps) qs v e = elim (Option-cases (remove_match t now ps)) [
  | inl n ↦ here (ground (arith, n))
  | inr (rest, n) ↦ there rest (remove_match-Gone t now ps rest v.1 n) (ground (arith, n))
]
  where
    here :
        (p.timestamp ≡ t) × (qs ≡ ps)
        → All (λ q. q.timestamp ≢ t) qs × ((r : Ping) → All (IsAfter r) (p ∷ ps) → r.timestamp < t)
    here (a, b) = (rw b (after_later t p ps a v.0), λ r. λ h. omega arith)

    there :
        (rest : List Ping)
        → All (λ q. q.timestamp ≢ t) rest × ((r : Ping) → All (IsAfter r) ps → r.timestamp < t)
        → ((p.timestamp ≡ t) × (qs ≡ ps)) ⊎ (qs ≡ p ∷ rest)
        → All (λ q. q.timestamp ≢ t) qs × ((r : Ping) → All (IsAfter r) (p ∷ ps) → r.timestamp < t)
    there rest (a, b) (inl c) = here c
    there rest (a, b) (inr c) = (rw c (omega (arith, b p v.0), a), λ r. λ h. b r h.1)

choose :
    (P : Ping → Type 0) (b : Bool) (xs ys : List Ping)
    → All P xs
    → All P ys
    → All P (if b then xs else ys)
choose P true xs ys v w = v
choose P false xs ys v w = w

request-Gone :
    (t : ℕ) (l : Liveness) (clock now : ℕ)
    → Gone t l.pending l.last
    → Gone t (request l clock now).1.pending (request l clock now).1.last
unfolding request
request-Gone t l clock now v =
    let kept = retain-All (λ p. p.timestamp ≢ t) now l.pending v.1 in
    let stays : All (λ p. p.timestamp ≢ t) (room l now) =
      choose (λ p. p.timestamp ≢ t) (length (retain now l.pending) == 8)
        (pop_front (retain now l.pending)) (retain now l.pending)
        (pop_front-All (λ p. p.timestamp ≢ t) (retain now l.pending) kept) kept in
    let s = max clock (l.last + 1) in
    (
      omega (arith, v.0),
      All-append (λ p. p.timestamp ≢ t) (room l now) (record { timestamp = s; sent = now } ∷ [])
          stays (omega (arith, v.0)),
    )

after-Gone :
    (t : ℕ) (l : Liveness) (c : Call)
    → Gone t l.pending l.last
    → Gone t (after l c).pending (after l c).last
unfolding after
after-Gone t l (establishes now) v = establish-keeps (Gone t) l now v
after-Gone t l (valids now) v = valid-keeps (Gone t) l now v
after-Gone t l (requests clock now) v = request-Gone t l clock now v
after-Gone t l (responds field now) v =
    response-keeps (Gone t) l field now v
      (λ x. λ qs. λ e. (v.0, remove_match-All (λ p. p.timestamp ≢ t) x now l.pending qs e v.1))

run-Gone :
    (t : ℕ) (l : Liveness) (cs : List Call)
    → Gone t l.pending l.last
    → Gone t (run l cs).pending (run l cs).last
unfolding run
run-Gone t l [] v = v
run-Gone t l (c ∷ cs) v = run-Gone t (after l c) cs (after-Gone t l c v)

remove_match-none :
    (t now : ℕ) (ps : List Ping) → All (λ p. p.timestamp ≢ t) ps → remove_match t now ps ≡ none
unfolding remove_match
remove_match-none t now [] v = refl
remove_match-none t now (p ∷ ps) v = ground (arith, remove_match-none t now ps v.1, v.0)

remove_match-bounded :
    (t now last : ℕ) (ps qs : List Ping)
    → All (λ p. p.timestamp ≤ last) ps
    → remove_match t now ps ≡ some qs
    → t ≤ last
unfolding remove_match
remove_match-bounded t now last [] qs v e = cc
remove_match-bounded t now last (p ∷ ps) qs v e = elim (Option-cases (remove_match t now ps)) [
  | inl n ↦ ground (arith, n, v.0)
  | inr (rest, n) ↦ remove_match-bounded t now last ps rest v.1 n
]

response-Gone :
    (l : Liveness) (t now : ℕ)
    → IsLive l
    → (response l (some t) now).0 ≡ true
    → Gone t (response l (some t) now).1.pending (response l (some t) now).1.last
unfolding response
response-Gone l t now v e = elim (Option-cases (remove_match t now l.pending)) [
  | inl n ↦ absurd (refused n)
  | inr (qs, n) ↦
      rw (n, response)
        (valid-keeps (Gone t) (record l { pending = qs; matched_at = some now }) now
          (
            remove_match-bounded t now l.last l.pending qs v.bounded n,
            (remove_match-Gone t now l.pending qs v.increasing n).0,
          ))
]
  where
    refused : remove_match t now l.pending ≡ none → ⊥
    refused n = cc (unanswered n)
      where
        unanswered : remove_match t now l.pending ≡ none → (response l (some t) now).0 ≡ false
        unanswered m = rw (m, response) refl

default-IsLive : (last : ℕ) → IsLive (default_liveness last)
unfolding default_liveness
default-IsLive last = record { few = omega arith; increasing = tt; bounded = tt }

-- Whatever timestamp was the last of earlier sessions: after any calls at most 8 pings are waited
-- for, with increasing timestamps; and a ping that was answered, whatever is called since, is never
-- taken for answered again.
pub run-response-once :
    (last : ℕ) (before since : List Call) (t now later : ℕ)
    → (response (run (default_liveness last) before) (some t) now).0 ≡ true
    → IsLive (run (default_liveness last) before)
      × ((response
            (run (response (run (default_liveness last) before) (some t) now).1 since)
            (some t)
            later).0
          ≡ false)
unfolding response
run-response-once last before since t now later e =
    let v = run-IsLive_from (default_liveness last) before (default-IsLive last) in
    let l = run (default_liveness last) before in
    let g = run-Gone t (response l (some t) now).1 since (response-Gone l t now v e) in
    (
      v,
      rw (remove_match-none t later (run (response l (some t) now).1 since).pending g.1, response)
          refl,
    )
