-- ===== src/CarPlay/Iap2/Sync.antt =====
-- iap2.rs, `Session` and `Synchronization`: the parameters of a link.
pub mod RoundTrip
use project_argo.Common.{
  ℕ, zero, suc, ◌+◌, ◌-◌, ◌%◌, List, [], ◌∷◌, ◌++◌, Bool, true, false, ltb, ◌==◌, if◌then◌else◌,
  not, ◌||◌, ◌&&◌, length, drop, byte_at, be16, be16_bytes,
}
use project_argo.CarPlay.Defs.{bounds, malformed, unsupported, Result, ok, err, ◌>>=◌, ◌>>◌}

pub record Session : Type 0 where
  pub id : ℕ
  pub kind : ℕ
  pub version : ℕ

pub record Synchronization : Type 0 where
  pub window : ℕ
  pub max_frame : ℕ
  pub retransmit_ms : ℕ
  pub ack_ms : ℕ
  pub retries : ℕ
  pub ack_count : ℕ
  pub sessions : List Session

-- `seen[id]`, for the list of the ids that are marked.
unfoldable pub is_seen : ℕ → List ℕ → Bool
is_seen id [] = false
is_seen id (j ∷ seen) = id == j || is_seen id seen

-- The loop over the sessions.
unfoldable pub check_sessions : List ℕ → List Session → Result (Unit {0})
check_sessions seen [] = ok tt
check_sessions seen (s ∷ ss) =
    let rest = check_sessions (s.id ∷ seen) ss in
    if s.id == 0 || is_seen s.id seen || ltb 2 s.kind || s.version == 0 then err malformed else rest

unfoldable pub validate : Synchronization → Result (Unit {0})
validate s =
    if s.window == 0
      || ltb 127 s.window
      || ltb s.max_frame 64
      || length s.sessions == 0
      || ltb 8 (length s.sessions)
    then err bounds
    else let zero_ack =
        s.retransmit_ms == 0 && s.ack_ms == 0 && s.retries == 0 && s.ack_count == 0 in
      if not zero_ack
        && (s.retransmit_ms == 0
            || not (ltb s.ack_ms s.retransmit_ms)
            || s.retries == 0
            || s.ack_count == 0)
      then err bounds
      else check_sessions [] s.sessions

abbrev pub session_bytes : List Session → List ℕ
session_bytes [] = []
session_bytes (s ∷ ss) = s.id ∷ (s.kind ∷ (s.version ∷ session_bytes ss))

abbrev pub link_bytes : Synchronization → List ℕ
link_bytes s =
    1
    ∷ (s.window
        ∷ (be16_bytes s.max_frame
            ++ (be16_bytes s.retransmit_ms
                ++ (be16_bytes s.ack_ms
                    ++ (s.retries ∷ (s.ack_count ∷ session_bytes s.sessions))))))

unfoldable pub encode : Synchronization → Result (List ℕ)
encode s = do validate s; ok (link_bytes s)

-- `as_chunks::<3>`, without the remainder.
unfoldable pub sessions_of : List ℕ → List Session
sessions_of (a ∷ b ∷ c ∷ bs) = record { id = a; kind = b; version = c } ∷ sessions_of bs
sessions_of _ = []

abbrev pub read_link : List ℕ → Synchronization
read_link bytes = record {
  window = byte_at bytes 1;
  max_frame = be16 (byte_at bytes 2) (byte_at bytes 3);
  retransmit_ms = be16 (byte_at bytes 4) (byte_at bytes 5);
  ack_ms = be16 (byte_at bytes 6) (byte_at bytes 7);
  retries = byte_at bytes 8;
  ack_count = byte_at bytes 9;
  sessions = sessions_of (drop 10 bytes);
}

unfoldable pub decode : List ℕ → Result Synchronization
decode bytes =
    if ltb (length bytes) 13 || ltb 34 (length bytes) || not ((length bytes - 10) % 3 == 0)
    then err bounds
    else if not (byte_at bytes 0 == 1)
    then err unsupported
    else (do validate (read_link bytes); ok (read_link bytes))
