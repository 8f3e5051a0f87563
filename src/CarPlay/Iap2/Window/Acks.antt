-- ===== src/CarPlay/Iap2/Window/Acks.antt =====
-- Which frames an acknowledgement releases.
use project_argo.Common.{
  ℕ, suc, ◌+◌, ◌%◌, ◌≤◌, ◌<◌, ◌≡◌, refl, ap, ◌∙◌, List, [], ◌∷◌, ◌++◌, arith, ltb, if◌then◌else◌,
  length, length-append, drop, drop-length,
}
use project_argo.CarPlay.Defs.{ok, err, sequence}
use project_argo.CarPlay.Iap2.Window.{Pending, SendWindow, acknowledge, wrapping_sub}
use project_argo.CarPlay.Iap2.Window.Invariant.{IsRun, IsWindow}

sequence-middle :
    (n : ℕ) (front back : List Pending) (p : Pending)
    → n < 256
    → IsRun n (front ++ (p ∷ back))
    → p.frame.sequence ≡ (n + length front) % 256
sequence-middle n [] back p h r = r.0 ∙ omega arith
sequence-middle n (q ∷ front) back p h r =
    sequence-middle ((n + 1) % 256) front back p (omega arith) r.1 ∙ omega arith

drop-middle :
    (front back : List Pending) (p : Pending) (d : ℕ)
    → d ≡ length front + 1
    → drop d (front ++ (p ∷ back)) ≡ back
drop-middle front back p d e =
    ap (drop d) (append_lem front)
    ∙ drop-length (front ++ (p ∷ [])) back d (omega (arith, length-append front (p ∷ [])))
  where
    append_lem : (xs : List Pending) → xs ++ (p ∷ back) ≡ (xs ++ (p ∷ [])) ++ back
    append_lem [] = refl
    append_lem (x ∷ xs) = ap (λ t. x ∷ t) (append_lem xs)

-- An acknowledgement of an outstanding frame releases that frame and those before it, and
-- leaves those behind it as they are.
pub acknowledge_outstanding :
    (w : SendWindow) (front back : List Pending) (p : Pending)
    → IsWindow w
    → w.pending ≡ front ++ (p ∷ back)
    → acknowledge w p.frame.sequence
      ≡ (ok tt, record w { pending = back; last_ack = p.frame.sequence })
unfolding acknowledge
acknowledge_outstanding w front back p v e =
    let d = wrapping_sub p.frame.sequence w.last_ack in
    let n : length w.pending ≡ length front + suc (length back) =
      ap length e ∙ length-append front (p ∷ back) in
    let s : p.frame.sequence ≡ ((w.last_ack + 1) % 256 + length front) % 256 =
      sequence-middle ((w.last_ack + 1) % 256) front back p (omega arith) (rw e at v.run) in
    let far : d ≡ length front + 1 = omega arith in
    ground (arith, ap (drop d) e, drop-middle front back p d far, n, s, far)

-- A number behind the outstanding frames is refused within half the number space and
-- otherwise taken for an old acknowledgement; neither releases a frame.
pub acknowledge_other :
    (w : SendWindow) (d : ℕ)
    → IsWindow w
    → length w.pending < d
    → d ≤ 256
    → acknowledge w ((w.last_ack + d) % 256) ≡ ((if ltb d 128 then err sequence else ok tt), w)
unfolding acknowledge
acknowledge_other w d v h k =
    let far : wrapping_sub ((w.last_ack + d) % 256) w.last_ack ≡ d % 256 = omega arith in
    ground (arith, far)
