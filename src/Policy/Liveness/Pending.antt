-- ===== src/Policy/Liveness/Pending.antt =====
-- The pings that are waited for: few, and each with a timestamp of its own.
use Prim.Native.Nat.{max}
use project_argo.Common.{
  ℕ, ◌+◌, ◌≤◌, ◌<◌, ◌≡◌, List, [], ◌∷◌, ◌++◌, some, arith, All, length, length-append, ◌-◌, inl,
  inr, Option-cases, All-append, if◌then◌else◌, ◌==◌,
}
use project_argo.Policy.Liveness.{Ping, Liveness, retain, pop_front, request, remove_match}

abbrev pub IsAfter : Ping → Ping → Type 0
IsAfter p q = p.timestamp < q.timestamp

abbrev pub IsIncreasing : List Ping → Type 0
IsIncreasing [] = Unit {0}
IsIncreasing (p ∷ ps) = All (IsAfter p) ps × IsIncreasing ps

abbrev IsSent : ℕ → Ping → Type 0
IsSent last p = p.timestamp ≤ last

pub record IsLive (l : Liveness) : Type 0 where
  pub few : length l.pending ≤ 8
  pub increasing : IsIncreasing l.pending
  pub bounded : All (λ p. p.timestamp ≤ l.last) l.pending

module _ (P : Ping → Type 0) where
  pub retain-All : (now : ℕ) (ps : List Ping) → All P ps → All P (retain now ps)
  unfolding retain
  retain-All now [] v = tt
  retain-All now (p ∷ ps) v = ground (arith, retain-All now ps, v.0, v.1)

  pub pop_front-All : (ps : List Ping) → All P ps → All P (pop_front ps)
  unfolding pop_front
  pop_front-All [] v = tt
  pop_front-All (p ∷ ps) v = v.1

  pub remove_match-All :
      (t now : ℕ) (ps qs : List Ping) → remove_match t now ps ≡ some qs → All P ps → All P qs
  unfolding remove_match
  remove_match-All t now [] qs e v = cc
  remove_match-All t now (p ∷ ps) qs e v = elim (Option-cases (remove_match t now ps)) [
    | inl n ↦ ground (arith, n, v.1)
    | inr (rest, n) ↦ ground (arith, n, remove_match-All t now ps rest n v.1, v.0, v.1)
  ]

  pub weaken-All :
      (Q : Ping → Type 0) (ps : List Ping) → ((p : Ping) → P p → Q p) → All P ps → All Q ps
  weaken-All Q [] f v = tt
  weaken-All Q (p ∷ ps) f v = (f p v.0, weaken-All Q ps f v.1)

retain-IsIncreasing : (now : ℕ) (ps : List Ping) → IsIncreasing ps → IsIncreasing (retain now ps)
unfolding retain
retain-IsIncreasing now [] v = tt
retain-IsIncreasing now (p ∷ ps) v =
    ground (arith, retain-IsIncreasing now ps v.1, retain-All (IsAfter p) now ps v.0)

pop_front-IsIncreasing : (ps : List Ping) → IsIncreasing ps → IsIncreasing (pop_front ps)
unfolding pop_front
pop_front-IsIncreasing [] v = tt
pop_front-IsIncreasing (p ∷ ps) v = v.1

pub remove_match-IsIncreasing :
    (t now : ℕ) (ps qs : List Ping)
    → remove_match t now ps ≡ some qs
    → IsIncreasing ps
    → IsIncreasing qs
unfolding remove_match
remove_match-IsIncreasing t now [] qs e v = cc
remove_match-IsIncreasing t now (p ∷ ps) qs e v = elim (Option-cases (remove_match t now ps)) [
  | inl n ↦ ground (arith, n, v.1)
  | inr (rest, n) ↦ ground (
    arith,
    n,
    remove_match-IsIncreasing t now ps rest n v.1,
    remove_match-All (IsAfter p) t now ps rest n v.0,
    v.1,
  )
]

snoc-IsIncreasing :
    (ps : List Ping) (q : Ping)
    → IsIncreasing ps
    → All (λ p. IsAfter p q) ps
    → IsIncreasing (ps ++ (q ∷ []))
snoc-IsIncreasing [] q v h = (tt, tt)
snoc-IsIncreasing (p ∷ ps) q v h =
    (All-append (IsAfter p) ps (q ∷ []) v.0 (h.0, tt), snoc-IsIncreasing ps q v.1 h.1)

length-retain : (now : ℕ) (ps : List Ping) → length (retain now ps) ≤ length ps
unfolding retain
length-retain now [] = omega arith
length-retain now (p ∷ ps) = ground (arith, length-retain now ps)

pub length-remove_match :
    (t now : ℕ) (ps qs : List Ping) → remove_match t now ps ≡ some qs → length qs ≤ length ps
unfolding remove_match
length-remove_match t now [] qs e = cc
length-remove_match t now (p ∷ ps) qs e = elim (Option-cases (remove_match t now ps)) [
  | inl n ↦ ground (arith, n)
  | inr (rest, n) ↦ ground (arith, n, length-remove_match t now ps rest n)
]

length-pop_front : (ps : List Ping) → length (pop_front ps) ≡ length ps - 1
unfolding pop_front
length-pop_front [] = omega arith
length-pop_front (p ∷ ps) = omega arith

-- What stays when a new ping comes.
abbrev pub room : Liveness → ℕ → List Ping
room l now =
    if length (retain now l.pending) == 8
    then pop_front (retain now l.pending)
    else retain now l.pending

module _ (l : Liveness) (now : ℕ) (v : IsLive l) where
  kept-IsIncreasing : IsIncreasing (retain now l.pending)
  kept-IsIncreasing = retain-IsIncreasing now l.pending v.increasing

  kept_bounded : All (λ p. p.timestamp ≤ l.last) (retain now l.pending)
  kept_bounded = retain-All (λ p. p.timestamp ≤ l.last) now l.pending v.bounded

  room-IsIncreasing : IsIncreasing (room l now)
  room-IsIncreasing =
      ground
        (arith, kept-IsIncreasing, pop_front-IsIncreasing (retain now l.pending) kept-IsIncreasing)

  room_bounded : All (λ p. p.timestamp ≤ l.last) (room l now)
  room_bounded = ground (
    arith,
    kept_bounded,
    pop_front-All (λ p. p.timestamp ≤ l.last) (retain now l.pending) kept_bounded,
  )

  room_few : length (room l now) ≤ 7
  room_few =
      ground (arith, length-retain now l.pending, length-pop_front (retain now l.pending), v.few)

  pub request-IsLive : (clock : ℕ) → IsLive (request l clock now).1
  unfolding request
  request-IsLive clock =
      let t = max clock (l.last + 1) in
      let q : Ping = record { timestamp = t; sent = now } in
      record {
        few = omega (arith, room_few, length-append (room l now) (q ∷ []));
        increasing = snoc-IsIncreasing (room l now) q room-IsIncreasing (
            weaken-All (λ p. p.timestamp ≤ l.last) (λ p. IsAfter p q) (room l now)
              (λ p. λ h. omega arith) room_bounded);
        bounded =
            All-append (λ p. p.timestamp ≤ t) (room l now) (q ∷ [])
              (weaken-All (λ p. p.timestamp ≤ l.last) (λ p. p.timestamp ≤ t) (room l now)
                (λ p. λ h. omega arith) room_bounded)
              (omega arith, tt);
      }
