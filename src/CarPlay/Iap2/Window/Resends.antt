-- ===== src/CarPlay/Iap2/Window/Resends.antt =====
-- How often the frames of a send window were sent again, counted in what `send` and `retransmit`
-- answered.
use project_argo.Common.{
  ℕ, ◌+◌, ◌-◌, ◌%◌, ◌≤◌, ◌<◌, ◌≡◌, ◌≢◌, ◌⊎◌, inl, inr, refl, List, [], ◌∷◌, ◌++◌, arith, ◌==◌,
  if◌then◌else◌, length, drop, All, All-append, All-drop,
}
use project_argo.CarPlay.Defs.{bounds, timeout, Result, ok, err}
use project_argo.CarPlay.Iap2.Frame.{Frame}
use project_argo.CarPlay.Iap2.Sync.{Synchronization}
use project_argo.CarPlay.Iap2.Window.{
  Pending, SendWindow, new, send, acknowledge, rearm, due_frames, retransmit, clear, wrapping_sub,
  next_frame, saturating_add,
}
use project_argo.CarPlay.Iap2.Window.Invariant.{
  IsRun, IsWindow, Tried, new-IsWindow, send-IsWindow, acknowledge-IsWindow, retransmit-IsWindow,
  clear-IsWindow,
}

pub data Call : Type 0 where
  sends : ℕ → ℕ → List ℕ → ℕ → Call
  acks retransmits : ℕ → Call
  clears : Call

abbrev pub IsCall : Call → Type 0
IsCall (sends s a p now) = Unit {0}
IsCall (acks a) = a < 256
IsCall (retransmits now) = Unit {0}
IsCall clears = Unit {0}

-- What the window answered: a new frame, or the frames to send again.
pub data Entry : Type 0 where
  first : Frame → Entry
  again : List Frame → Entry

-- The window and its answers, the newest first.
pub record History : Type 0 where
  pub window : SendWindow
  pub log : List Entry

abbrev sent_of : List Entry → Result Frame × SendWindow → History
sent_of log (ok f, w) = record { window = w; log = first f ∷ log }
sent_of log (err e, w) = record { window = w; log = log }

abbrev resent_of : List Entry → Result (List Frame) × SendWindow → History
resent_of log (ok fs, w) = record { window = w; log = again fs ∷ log }
resent_of log (err e, w) = record { window = w; log = log }

unfoldable pub after : History → Call → History
after h (sends session ack payload now) = sent_of h.log (send h.window session ack payload now)
after h (acks ack) = record h { window = (acknowledge h.window ack).1 }
after h (retransmits now) = resent_of h.log (retransmit h.window now)
after h clears = record h { window = clear h.window }

unfoldable pub run : History → List Call → History
run h [] = h
run h (c ∷ cs) = run (after h c) cs

unfoldable pub copies : ℕ → List Frame → ℕ
copies s [] = 0
copies s (f ∷ fs) = (if f.sequence == s then 1 else 0) + copies s fs

-- How often a frame of the number was sent again since a frame of that number was sent first.
unfoldable pub resends : ℕ → List Entry → ℕ
resends s [] = 0
resends s (first f ∷ log) = if f.sequence == s then 0 else resends s log
resends s (again fs ∷ log) = copies s fs + resends s log

abbrev Counted : List Entry → List Pending → Type 0
Counted log ps = All (λ (p : Pending). resends p.frame.sequence log ≤ p.retries) ps

abbrev Absent : ℕ → List Pending → Type 0
Absent s ps = All (λ (p : Pending). p.frame.sequence ≢ s) ps

IsRun-Absent :
    (n k s : ℕ) (ps : List Pending)
    → n < 256
    → length ps ≤ k
    → k < 256
    → s ≡ (n + k) % 256
    → IsRun n ps
    → Absent s ps
IsRun-Absent n k s [] h l b e r = tt
IsRun-Absent n k s (p ∷ ps) h l b e r = (
  (λ q. omega (arith, q, r.0)),
  IsRun-Absent ((n + 1) % 256) (k - 1) s ps (omega arith) (omega arith) (omega arith) (omega arith)
      r.1,
)

Counted-first :
    (log : List Entry) (f : Frame) (ps : List Pending)
    → Absent f.sequence ps
    → Counted log ps
    → Counted (first f ∷ log) ps
unfolding resends
Counted-first log f [] a c = tt
Counted-first log f (p ∷ ps) a c = (ground arith, Counted-first log f ps a.1 c.1)

copies-Absent : (now s : ℕ) (ps : List Pending) → Absent s ps → copies s (due_frames now ps) ≡ 0
unfolding copies due_frames
copies-Absent now s [] a = refl
copies-Absent now s (p ∷ ps) a = ground (arith, copies-Absent now s ps a.1)

-- The frames `fs` hold each number as often as the frames of `qs` that are due.
abbrev Fits : ℕ → List Frame → List Pending → List Pending → Type 0
Fits now fs qs ps =
    All (λ (p : Pending). copies p.frame.sequence fs ≡ copies p.frame.sequence (due_frames now qs))
      ps

Fits-self : (now : ℕ) (qs ps : List Pending) → Fits now (due_frames now qs) qs ps
Fits-self now qs [] = tt
Fits-self now qs (p ∷ ps) = (refl, Fits-self now qs ps)

Fits-tail :
    (now : ℕ) (fs : List Frame) (q : Pending) (qs ps : List Pending)
    → Absent q.frame.sequence ps
    → Fits now fs (q ∷ qs) ps
    → Fits now fs qs ps
unfolding copies due_frames
Fits-tail now fs q qs [] a f = tt
Fits-tail now fs q qs (p ∷ ps) a f = (ground (arith, a.0, f.0), Fits-tail now fs q qs ps a.1 f.1)

Counted-again :
    (log : List Entry) (now interval n : ℕ) (fs : List Frame) (ps : List Pending)
    → n < 256
    → length ps ≤ 127
    → IsRun n ps
    → Fits now fs ps ps
    → Counted log ps
    → Counted (again fs ∷ log) (rearm now interval ps)
unfolding resends rearm copies due_frames
Counted-again log now interval n fs [] h l r f c = tt
Counted-again log now interval n fs (p ∷ ps) h l r f c =
    let alone : Absent p.frame.sequence ps =
      IsRun-Absent ((n + 1) % 256) 255 p.frame.sequence ps (omega arith) (omega arith) (omega arith)
        (omega (arith, r.0)) r.1 in
    let none_behind = copies-Absent now p.frame.sequence ps alone in
    (
      ground (arith, f.0, c.0, none_behind),
      Counted-again log now interval ((n + 1) % 256) fs ps (omega arith) (omega arith) r.1
          (Fits-tail now fs p ps ps alone f.1) c.1,
    )

-- The window keeps its numbers in order and its limits, which are those of the negotiation, and no
-- frame that is outstanding was sent again more often than the limit.
pub record IsHistory (config : Synchronization) (h : History) : Type 0 where
  pub ordered : IsWindow h.window
  pub negotiated : h.window.capacity ≡ config.window
  pub limited : h.window.retry_limit ≡ config.retries
  pub resent :
      All (λ (p : Pending). resends p.frame.sequence h.log ≤ config.retries) h.window.pending

record Kept (config : Synchronization) (h : History) : Type 0 where
  ordered : IsWindow h.window
  negotiated : h.window.capacity ≡ config.window
  limited : h.window.retry_limit ≡ config.retries
  counted : Counted h.log h.window.pending

new_limits :
    (initial : ℕ) (config : Synchronization) (w : SendWindow)
    → new initial config ≡ ok w
    → (w.capacity ≡ config.window) × (w.retry_limit ≡ config.retries) × (w.pending ≡ [])
unfolding new
new_limits initial config w e = ground arith

abbrev queued : SendWindow → Frame → ℕ → SendWindow
queued w f now = record w {
  next = (w.next + 1) % 256;
  pending =
      w.pending
      ++ (record { frame = f; deadline = saturating_add now w.interval; retries = 0 } ∷ []);
}

send_cases :
    (w : SendWindow) (session ack : ℕ) (payload : List ℕ) (now : ℕ)
    → (send w session ack payload now ≡ (err bounds, w))
      ⊎ (send w session ack payload now ≡ (
        ok (next_frame w session ack payload),
        queued w (next_frame w session ack payload) now,
      ))
unfolding send
send_cases w session ack payload now = ground arith

resends_first : (f : Frame) (log : List Entry) → resends f.sequence (first f ∷ log) ≡ 0
unfolding resends
resends_first f log = ground arith

after_send-Kept :
    (config : Synchronization) (h : History) (session ack : ℕ) (payload : List ℕ) (now : ℕ)
    → Kept config h
    → Kept config (sent_of h.log (send h.window session ack payload now))
after_send-Kept config h session ack payload now k =
    elim (send_cases h.window session ack payload now) [
      | inl e ↦ rw e k
      | inr e ↦
          let w = h.window in
          let f = next_frame w session ack payload in
          let v = k.ordered in
          let kept : IsWindow (queued w f now) =
            rw e at (send-IsWindow w session ack payload now v) in
          let alone : Absent f.sequence w.pending =
            IsRun-Absent ((w.last_ack + 1) % 256) (length w.pending) w.next w.pending (omega arith)
              (omega arith) (omega (arith, v.room, v.window)) (omega (arith, v.end)) v.run in
          let p : Pending = record {
            frame = f;
            deadline = saturating_add now w.interval;
            retries = 0;
          } in
          let counts : Counted (first f ∷ h.log) (w.pending ++ (p ∷ [])) =
            All-append (λ (q : Pending). resends q.frame.sequence (first f ∷ h.log) ≤ q.retries)
              w.pending (p ∷ []) (Counted-first h.log f w.pending alone k.counted)
              (omega (arith, resends_first f h.log), tt) in
          rw e (record {
            ordered = kept;
            negotiated = k.negotiated;
            limited = k.limited;
            counted = counts;
          })
    ]

acknowledge_cases :
    (w : SendWindow) (ack : ℕ)
    → ((acknowledge w ack).1 ≡ w)
      ⊎ ((acknowledge w ack).1
          ≡ record w { pending = drop (wrapping_sub ack w.last_ack) w.pending; last_ack = ack })
unfolding acknowledge
acknowledge_cases w ack = ground arith

after_ack-Kept :
    (config : Synchronization) (h : History) (ack : ℕ)
    → ack < 256
    → Kept config h
    → Kept config (record h { window = (acknowledge h.window ack).1 })
after_ack-Kept config h ack b k = elim (acknowledge_cases h.window ack) [
  | inl e ↦ rw e k
  | inr e ↦
      let kept = rw e at (acknowledge-IsWindow h.window ack b k.ordered) in
      rw e (record {
        ordered = kept;
        negotiated = k.negotiated;
        limited = k.limited;
        counted =
            All-drop (λ (p : Pending). resends p.frame.sequence h.log ≤ p.retries)
              (wrapping_sub ack h.window.last_ack) h.window.pending k.counted;
      })
]

retransmit_cases :
    (w : SendWindow) (now : ℕ)
    → (retransmit w now ≡ (err timeout, w))
      ⊎ (retransmit w now
          ≡ (ok (due_frames now w.pending), record w { pending = rearm now w.interval w.pending }))
unfolding retransmit
retransmit_cases w now = ground arith

after_retransmit-Kept :
    (config : Synchronization) (h : History) (now : ℕ)
    → Kept config h
    → Kept config (resent_of h.log (retransmit h.window now))
after_retransmit-Kept config h now k = elim (retransmit_cases h.window now) [
  | inl e ↦ rw e k
  | inr e ↦
      let w = h.window in
      let v = k.ordered in
      let kept : IsWindow (record w { pending = rearm now w.interval w.pending }) =
        rw e at (retransmit-IsWindow w now v) in
      rw e (record {
        ordered = kept;
        negotiated = k.negotiated;
        limited = k.limited;
        counted =
            Counted-again h.log now w.interval ((w.last_ack + 1) % 256) (due_frames now w.pending)
              w.pending (omega arith) (omega (arith, v.room, v.window)) v.run
              (Fits-self now w.pending w.pending) k.counted;
      })
]

after-Kept :
    (config : Synchronization) (h : History) (c : Call)
    → IsCall c
    → Kept config h
    → Kept config (after h c)
unfolding after
after-Kept config h (sends session ack payload now) b k =
    after_send-Kept config h session ack payload now k
after-Kept config h (acks ack) b k = after_ack-Kept config h ack b k
after-Kept config h (retransmits now) b k = after_retransmit-Kept config h now k
after-Kept config h clears b k =
    let kept = clear-IsWindow h.window k.ordered in
    unfold clear in
    record {
      ordered = unfold clear in kept;
      negotiated = k.negotiated;
      limited = k.limited;
      counted = tt;
    }

run-Kept :
    (config : Synchronization) (h : History) (cs : List Call)
    → All IsCall cs
    → Kept config h
    → Kept config (run h cs)
unfolding run
run-Kept config h [] b k = k
run-Kept config h (c ∷ cs) b k = run-Kept config (after h c) cs b.1 (after-Kept config h c b.0 k)

Counted-Tried :
    (log : List Entry) (limit : ℕ) (ps : List Pending)
    → Counted log ps
    → Tried limit ps
    → All (λ (p : Pending). resends p.frame.sequence log ≤ limit) ps
Counted-Tried log limit [] c t = tt
Counted-Tried log limit (p ∷ ps) c t = (omega (arith, c.0, t.0), Counted-Tried log limit ps c.1 t.1)

-- After any calls on a new window, the acknowledgements of one byte: the outstanding frames carry
-- consecutive numbers, which begin behind the last one acknowledged and end before the next one to
-- send; they are at most as many as the negotiated window, which is at most 127; and for each of
-- them, `retransmit` answered at most as many copies of its number, since `send` answered it, as
-- the negotiated retries.
pub run-new-IsHistory :
    (initial : ℕ) (config : Synchronization) (w : SendWindow) (cs : List Call)
    → initial < 256
    → new initial config ≡ ok w
    → All IsCall cs
    → IsHistory config (run (record { window = w; log = [] }) cs)
run-new-IsHistory initial config w cs h e b =
    let limits = new_limits initial config w e in
    let start : Kept config (record { window = w; log = [] }) = record {
      ordered = new-IsWindow initial config w h e;
      negotiated = limits.0;
      limited = limits.1;
      counted = rw limits.2 tt;
    } in
    let k = run-Kept config (record { window = w; log = [] }) cs b start in
    let final = run (record { window = w; log = [] }) cs in
    record {
      ordered = k.ordered;
      negotiated = k.negotiated;
      limited = k.limited;
      resent =
          Counted-Tried final.log config.retries final.window.pending k.counted
            (rw k.limited at k.ordered.tried);
    }
