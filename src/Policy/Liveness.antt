-- ===== src/Policy/Liveness.antt =====
-- liveness.rs, `Liveness`. Instants are nanoseconds, and `last` is the static `LAST`. `response` is
-- given field 1 of the body as `numbers` of aa_channels.rs reads it, or `none`.
pub mod Pending
pub mod Once
use Prim.Native.Nat.{max}
use project_argo.Common.{
  ℕ, ◌+◌, ◌-◌, ◌*◌, List, [], ◌∷◌, ◌++◌, Bool, true, false, ◌&&◌, Option, none, some, ltb, ◌==◌,
  if◌then◌else◌, length,
}

abbrev pub wireless_peer_timeout : ℕ
wireless_peer_timeout = 10 * 1000000000

abbrev pub max_pending : ℕ
max_pending = 8

pub record Ping : Type 0 where
  pub timestamp : ℕ
  pub sent : ℕ

pub record Liveness : Type 0 where
  pub valid_at : Option ℕ
  pub matched_at : Option ℕ
  pub pending : List Ping
  pub last : ℕ

abbrev pub is_fresh : ℕ → Ping → Bool
is_fresh now p = ltb (now - p.sent) wireless_peer_timeout

unfoldable pub establish : Liveness → ℕ → Liveness
establish l now = elim l.valid_at [ none ↦ record l { valid_at = some now } | some v ↦ l ]

unfoldable pub valid : Liveness → ℕ → Liveness
valid l now = elim l.valid_at [ none ↦ l | some v ↦ record l { valid_at = some now } ]

unfoldable pub retain : ℕ → List Ping → List Ping
retain now [] = []
retain now (p ∷ ps) = if is_fresh now p then p ∷ retain now ps else retain now ps

unfoldable pub pop_front : List Ping → List Ping
pop_front [] = []
pop_front (p ∷ ps) = ps

-- The timestamp that is sent, and what is waited for: `clock` is the time of day in microseconds.
unfoldable pub request : Liveness → ℕ → ℕ → ℕ × Liveness
request l clock now =
    let timestamp = max clock (l.last + 1) in
    let kept = retain now l.pending in
    let room = if length kept == max_pending then pop_front kept else kept in
    (
      timestamp,
      record l {
        pending = room ++ (record { timestamp = timestamp; sent = now } ∷ []);
        last = timestamp;
      },
    )

-- `position` and `remove`: the pings without the first fresh one of the timestamp, if there is one.
unfoldable pub remove_match : ℕ → ℕ → List Ping → Option (List Ping)
remove_match timestamp now [] = none
remove_match timestamp now (p ∷ ps) =
    let rest = remove_match timestamp now ps in
    if p.timestamp == timestamp && is_fresh now p
    then some ps
    else elim rest [ none ↦ none | some qs ↦ some (p ∷ qs) ]

unfoldable pub response : Liveness → Option ℕ → ℕ → Bool × Liveness
unfolding valid
response l none now = (false, l)
response l (some timestamp) now = elim (remove_match timestamp now l.pending) [
  | none ↦ (false, l)
  | some rest ↦ (true, valid (record l { pending = rest; matched_at = some now }) now)
]
