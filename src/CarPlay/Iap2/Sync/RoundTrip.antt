-- ===== src/CarPlay/Iap2/Sync/RoundTrip.antt =====
-- What `validate` promises, and that `encode` and `decode` of the link parameters agree.
use project_argo.Common.{
  ℕ, ◌*◌, ◌≤◌, ◌<◌, ◌≡◌, ◌≢◌, refl, ap, ◌⊎◌, List, [], ◌∷◌, false, arith, length, be16-be16_bytes,
}
use project_argo.CarPlay.Defs.{ok}
use project_argo.CarPlay.Iap2.Sync.{
  Session, Synchronization, is_seen, check_sessions, validate, session_bytes, link_bytes, encode,
  sessions_of, read_link, decode,
}

-- The fields fit the integers that hold them.
pub record IsWords (s : Synchronization) : Type 0 where
  pub frame : s.max_frame < 65536
  pub retransmit : s.retransmit_ms < 65536
  pub acks : s.ack_ms < 65536

sessions_of-session_bytes : (ss : List Session) → sessions_of (session_bytes ss) ≡ ss
unfolding sessions_of
sessions_of-session_bytes [] = refl
sessions_of-session_bytes (s ∷ ss) = ap (λ t. s ∷ t) (sessions_of-session_bytes ss)

length-session_bytes : (ss : List Session) → length (session_bytes ss) ≡ 3 * length ss
length-session_bytes [] = refl
length-session_bytes (s ∷ ss) = omega (arith, length-session_bytes ss)

read_link-link_bytes : (s : Synchronization) → IsWords s → read_link (link_bytes s) ≡ s
read_link-link_bytes s w = rw (
  be16-be16_bytes s.max_frame w.frame,
  be16-be16_bytes s.retransmit_ms w.retransmit,
  be16-be16_bytes s.ack_ms w.acks,
  sessions_of-session_bytes s.sessions,
)

validate_sizes :
    (s : Synchronization) → validate s ≡ ok tt → (1 ≤ length s.sessions) × (length s.sessions ≤ 8)
unfolding validate
validate_sizes s e = ground arith

encode-eq-ok :
    (s : Synchronization) (bs : List ℕ)
    → encode s ≡ ok bs
    → (validate s ≡ ok tt) × (bs ≡ link_bytes s)
unfolding encode
encode-eq-ok s bs e = ground arith

decode-link_bytes :
    (s : Synchronization) → IsWords s → validate s ≡ ok tt → decode (link_bytes s) ≡ ok s
unfolding decode
decode-link_bytes s w v =
    let (lo, hi) = validate_sizes s v in
    rw
      (
        be16-be16_bytes s.max_frame w.frame,
        be16-be16_bytes s.retransmit_ms w.retransmit,
        be16-be16_bytes s.ack_ms w.acks,
        sessions_of-session_bytes s.sessions,
        v,
        length-session_bytes s.sessions,
      )
      (ground arith)

-- The parameters that are sent are the parameters that are read.
pub sync_decode-encode :
    (s : Synchronization) (bs : List ℕ) → IsWords s → encode s ≡ ok bs → decode bs ≡ ok s
sync_decode-encode s bs w e = let (v, p) = encode-eq-ok s bs e in rw p (decode-link_bytes s w v)

-- What an accepted set of parameters is: a window of 1 to 127 frames, frames of 64 bytes at least,
-- 1 to 8 sessions, and either no acknowledgement timing at all or a complete one.
pub validate_bounds :
    (s : Synchronization)
    → validate s ≡ ok tt
    → (1 ≤ s.window)
      × (s.window ≤ 127)
      × (64 ≤ s.max_frame)
      × (1 ≤ length s.sessions)
      × (length s.sessions ≤ 8)
      × (((s.retransmit_ms ≡ 0) × (s.ack_ms ≡ 0) × (s.retries ≡ 0) × (s.ack_count ≡ 0))
          ⊎ ((s.ack_ms < s.retransmit_ms) × (0 < s.retries) × (0 < s.ack_count)))
unfolding validate
validate_bounds s e = ground arith

-- Each session has an id of its own, not 0.
abbrev pub IsKnown : List ℕ → List Session → Type 0
IsKnown seen [] = Unit {0}
IsKnown seen (s ∷ ss) =
    ((s.id ≢ 0) × (is_seen s.id seen ≡ false) × (s.kind ≤ 2) × (s.version ≢ 0))
    × IsKnown (s.id ∷ seen) ss

check_sessions-IsKnown :
    (seen : List ℕ) (ss : List Session) → check_sessions seen ss ≡ ok tt → IsKnown seen ss
unfolding check_sessions
check_sessions-IsKnown seen [] e = tt
check_sessions-IsKnown seen (s ∷ ss) e = ground (arith, check_sessions-IsKnown (s.id ∷ seen) ss)
