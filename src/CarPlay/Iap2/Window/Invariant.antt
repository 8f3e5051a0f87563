-- ===== src/CarPlay/Iap2/Window/Invariant.antt =====
-- What every operation on a send window keeps, from `new` on.
use project_argo.Common.{
  ℕ, zero, suc, ◌+◌, ◌%◌, ◌≤◌, ◌<◌, ◌≡◌, refl, ap, ◌∙◌, List, [], ◌∷◌, ◌++◌, false, arith, length,
  length-append, length-drop, drop, All, All-append, All-drop,
}
use project_argo.CarPlay.Defs.{ok}
use project_argo.CarPlay.Iap2.Sync.{Synchronization}
use project_argo.CarPlay.Iap2.Sync.RoundTrip.{validate_bounds}
use project_argo.CarPlay.Iap2.Window.{
  Pending, SendWindow, new, send, acknowledge, any_exhausted, rearm, retransmit, clear,
  wrapping_sub, next_frame, saturating_add,
}

-- The frames carry the sequence numbers from `n` on, one after the other.
abbrev pub IsRun : ℕ → List Pending → Type 0
IsRun n [] = Unit {0}
IsRun n (p ∷ ps) = (p.frame.sequence ≡ n) × IsRun ((n + 1) % 256) ps

abbrev pub Tried : ℕ → List Pending → Type 0
Tried limit ps = All (λ (p : Pending). p.retries ≤ limit) ps

pub record IsWindow (w : SendWindow) : Type 0 where
  pub last_byte : w.last_ack < 256
  pub run : IsRun ((w.last_ack + 1) % 256) w.pending
  pub end : w.next ≡ (w.last_ack + 1 + length w.pending) % 256
  pub room : length w.pending ≤ w.capacity
  pub window : w.capacity ≤ 127
  pub tried : Tried w.retry_limit w.pending

IsRun-append :
    (n : ℕ) (ps : List Pending) (p : Pending)
    → n < 256
    → IsRun n ps
    → p.frame.sequence ≡ (n + length ps) % 256
    → IsRun n (ps ++ (p ∷ []))
IsRun-append n [] p h r e = (omega arith, tt)
IsRun-append n (q ∷ ps) p h r e =
    (r.0, IsRun-append ((n + 1) % 256) ps p (omega arith) r.1 (omega arith))

IsRun-drop :
    (d n : ℕ) (ps : List Pending)
    → n < 256
    → d ≤ length ps
    → IsRun n ps
    → IsRun ((n + d) % 256) (drop d ps)
IsRun-drop zero n ps h k r = let e : (n + 0) % 256 ≡ n = omega arith in rw e r
IsRun-drop (suc d) n [] h k r = elim k [ ]
IsRun-drop (suc d) n (p ∷ ps) h k r =
    let e : (n + suc d) % 256 ≡ ((n + 1) % 256 + d) % 256 = omega arith in
    rw e (IsRun-drop d ((n + 1) % 256) ps (omega arith) (omega arith) r.1)

pub new-IsWindow :
    (initial : ℕ) (config : Synchronization) (w : SendWindow)
    → initial < 256
    → new initial config ≡ ok w
    → IsWindow w
unfolding new
new-IsWindow initial config w h e = ground (arith, validate_bounds config)

-- A frame with the next number joins at the end.
queued-IsWindow :
    (w : SendWindow) (p : Pending)
    → IsWindow w
    → length w.pending < w.capacity
    → p.frame.sequence ≡ w.next
    → p.retries ≡ 0
    → IsWindow (record w { next = (w.next + 1) % 256; pending = w.pending ++ (p ∷ []) })
queued-IsWindow w p v h e t = record {
  last_byte = v.last_byte;
  run = IsRun-append ((w.last_ack + 1) % 256) w.pending p (omega arith) v.run (e ∙ omega arith);
  end = omega (arith, length-append w.pending (p ∷ []));
  room = omega (arith, length-append w.pending (p ∷ []));
  window = v.window;
  tried =
      All-append (λ (q : Pending). q.retries ≤ w.retry_limit) w.pending (p ∷ []) v.tried
        (omega arith, tt);
}

-- The frames up to the acknowledged one leave.
released-IsWindow :
    (w : SendWindow) (ack : ℕ)
    → ack < 256
    → IsWindow w
    → wrapping_sub ack w.last_ack ≤ length w.pending
    → IsWindow (record w { pending = drop (wrapping_sub ack w.last_ack) w.pending; last_ack = ack })
released-IsWindow w ack h v k =
    let d = wrapping_sub ack w.last_ack in
    let start : (ack + 1) % 256 ≡ ((w.last_ack + 1) % 256 + d) % 256 = omega arith in
    record {
      last_byte = h;
      run = rw start (IsRun-drop d ((w.last_ack + 1) % 256) w.pending (omega arith) k v.run);
      end = omega (arith, length-drop d w.pending);
      room = omega (arith, length-drop d w.pending);
      window = v.window;
      tried = All-drop (λ (q : Pending). q.retries ≤ w.retry_limit) d w.pending v.tried;
    }

pub send-IsWindow :
    (w : SendWindow) (session ack : ℕ) (payload : List ℕ) (now : ℕ)
    → IsWindow w
    → IsWindow (send w session ack payload now).1
unfolding send
send-IsWindow w session ack payload now v = ground (
  arith,
  queued-IsWindow w
      (record {
        frame = next_frame w session ack payload;
        deadline = saturating_add now w.interval;
        retries = 0;
      })
      v,
)

pub acknowledge-IsWindow :
    (w : SendWindow) (ack : ℕ) → ack < 256 → IsWindow w → IsWindow (acknowledge w ack).1
unfolding acknowledge
acknowledge-IsWindow w ack h v = ground (arith, released-IsWindow w ack h v)

rearm-IsRun :
    (now interval n : ℕ) (ps : List Pending) → IsRun n ps → IsRun n (rearm now interval ps)
unfolding rearm
rearm-IsRun now interval n [] r = tt
rearm-IsRun now interval n (p ∷ ps) r =
    ground (arith, rearm-IsRun now interval ((n + 1) % 256) ps r.1)

length-rearm : (now interval : ℕ) (ps : List Pending) → length (rearm now interval ps) ≡ length ps
unfolding rearm
length-rearm now interval [] = refl
length-rearm now interval (p ∷ ps) = ap suc (length-rearm now interval ps)

rearm-Tried :
    (now interval limit : ℕ) (ps : List Pending)
    → any_exhausted now limit ps ≡ false
    → Tried limit ps
    → Tried limit (rearm now interval ps)
unfolding rearm any_exhausted
rearm-Tried now interval limit [] e t = tt
rearm-Tried now interval limit (p ∷ ps) e t = ground (arith, rearm-Tried now interval limit ps)

pub retransmit-IsWindow : (w : SendWindow) (now : ℕ) → IsWindow w → IsWindow (retransmit w now).1
unfolding retransmit
retransmit-IsWindow w now v = ground (
  arith,
  rearm-IsRun now w.interval ((w.last_ack + 1) % 256) w.pending v.run,
  length-rearm now w.interval w.pending,
  rearm-Tried now w.interval w.retry_limit w.pending,
)

pub clear-IsWindow : (w : SendWindow) → IsWindow w → IsWindow (clear w)
unfolding clear
clear-IsWindow w v = omega arith
