-- ===== src/CarPlay/Iap2/Window.antt =====
-- iap2.rs, `SendWindow`: the frames sent and not yet acknowledged. Sequence numbers are bytes
-- that wrap; times are nanoseconds, which saturate at the longest `Duration`.
pub mod Invariant
pub mod Acks
pub mod Resends
use Prim.Native.Nat.{min}
use project_argo.Common.{
  ℕ, zero, suc, ◌+◌, ◌-◌, ◌*◌, ◌^◌, ◌%◌, List, [], ◌∷◌, ◌++◌, Bool, true, false, ltb, leb, ◌==◌,
  if◌then◌else◌, ◌||◌, ◌&&◌, length, drop,
}
use project_argo.CarPlay.Defs.{
  Error, bounds, unsupported, sequence, timeout, Result, ok, err, ◌>>=◌, ◌>>◌,
}
use project_argo.CarPlay.Iap2.Frame.{Frame}
use project_argo.CarPlay.Iap2.Sync.{Synchronization, validate}

abbrev pub max_duration : ℕ
max_duration = 2 ^ 64 * 1000000000 - 1

-- `Duration::saturating_add`.
abbrev pub saturating_add : ℕ → ℕ → ℕ
saturating_add a b = min (a + b) max_duration

abbrev pub wrapping_sub : ℕ → ℕ → ℕ
wrapping_sub a b = (a + 256 - b) % 256

abbrev pub ack_flag : ℕ
ack_flag = 0x40

pub record Pending : Type 0 where
  pub frame : Frame
  pub deadline : ℕ
  pub retries : ℕ

pub record SendWindow : Type 0 where
  pub next : ℕ
  pub last_ack : ℕ
  pub capacity : ℕ
  pub max_payload : ℕ
  pub interval : ℕ
  pub retry_limit : ℕ
  pub pending : List Pending

unfoldable pub new : ℕ → Synchronization → Result SendWindow
new initial_sequence config = do
  validate config
  if config.retransmit_ms == 0
      then err unsupported
      else ok (record {
        next = initial_sequence;
        last_ack = wrapping_sub initial_sequence 1;
        capacity = config.window;
        max_payload = config.max_frame - 10;
        interval = config.retransmit_ms * 1000000;
        retry_limit = config.retries;
        pending = [];
      })

abbrev pub next_frame : SendWindow → ℕ → ℕ → List ℕ → Frame
next_frame w session ack payload = record {
  flags = ack_flag;
  sequence = w.next;
  acknowledgement = ack;
  session = session;
  payload = payload;
}

unfoldable pub send : SendWindow → ℕ → ℕ → List ℕ → ℕ → Result Frame × SendWindow
send w session ack payload now =
    if leb w.capacity (length w.pending)
      || length payload == 0
      || ltb w.max_payload (length payload)
    then (err bounds, w)
    else (
      ok (next_frame w session ack payload),
      record w {
        next = (w.next + 1) % 256;
        pending =
            w.pending
            ++ (record {
              frame = next_frame w session ack payload;
              deadline = saturating_add now w.interval;
              retries = 0;
            }
                ∷ []);
      },
    )

unfoldable pub acknowledge : SendWindow → ℕ → Result (Unit {0}) × SendWindow
acknowledge w ack =
    let distance = wrapping_sub ack w.last_ack in
    if ack == w.last_ack
    then (ok tt, w)
    else if ltb (length w.pending) distance
    then (if leb 128 distance then (ok tt, w) else (err sequence, w))
    else (ok tt, record w { pending = drop distance w.pending; last_ack = ack })

abbrev pub is_due : ℕ → Pending → Bool
is_due now p = leb p.deadline now

unfoldable pub any_exhausted : ℕ → ℕ → List Pending → Bool
any_exhausted now limit [] = false
any_exhausted now limit (p ∷ ps) =
    (is_due now p && leb limit p.retries) || any_exhausted now limit ps

-- The loop over the frames that are due: their new timers, and the frames to send again.
unfoldable pub rearm : ℕ → ℕ → List Pending → List Pending
rearm now interval [] = []
rearm now interval (p ∷ ps) =
    (if is_due now p
      then record p { deadline = saturating_add now interval; retries = p.retries + 1 }
      else p)
    ∷ rearm now interval ps

unfoldable pub due_frames : ℕ → List Pending → List Frame
due_frames now [] = []
due_frames now (p ∷ ps) = if is_due now p then p.frame ∷ due_frames now ps else due_frames now ps

unfoldable pub retransmit : SendWindow → ℕ → Result (List Frame) × SendWindow
retransmit w now =
    if any_exhausted now w.retry_limit w.pending
    then (err timeout, w)
    else (ok (due_frames now w.pending), record w { pending = rearm now w.interval w.pending })

unfoldable pub outstanding : SendWindow → ℕ
outstanding w = length w.pending

unfoldable pub clear : SendWindow → SendWindow
clear w = record w { pending = []; last_ack = wrapping_sub w.next 1 }
