-- ===== src/CarPlay/UsbMux/Written.antt =====
-- The sequence number of a connection counts the bytes that were written on USB for it, and what it
-- holds for acknowledged is what the phone acknowledged.
use project_argo.Common.{
  ℕ, ◌+◌, ◌-◌, ◌%◌, ◌<◌, ◌≡◌, refl, ap, ◌∙◌, arith, List, [], ◌∷◌, ◌++◌, ◌==◌, if◌then◌else◌,
  length,
}
use project_argo.CarPlay.{Result, err, ok, ◌>>=◌}
use project_argo.CarPlay.UsbMux.{envelope, Connection, encode, u16_at}
use project_argo.CarPlay.UsbMux.Task.{UsbMux, send}
use project_argo.CarPlay.UsbMux.Flow.{Holds}

-- The payload bytes of the frames with the given source port. A frame has a header of 16 bytes and
-- one of 20, which begins with the source port.
unfoldable pub written : ℕ → List (List ℕ) → ℕ
written local [] = 0
written local (frame ∷ frames) =
    (if u16_at frame 16 == local then length frame - 36 else 0) + written local frames

written-append :
    (local : ℕ) (a b : List (List ℕ)) → written local (a ++ b) ≡ written local a + written local b
unfolding written
written-append local [] b = omega arith
written-append local (f ∷ a) b = omega (arith, written-append local a b)

-- A frame that is sent counts for its port, and for no other.
abbrev pub IsSent : UsbMux → ℕ → ℕ → UsbMux → Type 0
IsSent m local n m' =
    (m'.connections ≡ m.connections)
    × (m'.port ≡ m.port)
    × ((l : ℕ)
        → l < 65536
        → written l m'.output ≡ written l m.output + (if local == l then n else 0))

frame_written :
    (n local l : ℕ) (c : Connection) (flags : ℕ) (b frame : List ℕ)
    → local < 65536
    → envelope 6 n (encode local c flags b) ≡ ok frame
    → written l (frame ∷ []) ≡ (if local == l then length b else 0)
unfolding envelope encode written
frame_written n local l c flags b frame h e = ground arith

pub send-IsSent :
    (m : UsbMux) (local : ℕ) (c : Connection) (flags : ℕ) (b : List ℕ)
    → local < 65536
    → Holds (IsSent m local (length b)) (send m local c flags b)
unfolding send
send-IsSent m local c flags b h = go (envelope 6 m.sequence_number (encode local c flags b)) refl
  where
    go :
        (q : Result (List ℕ))
        → envelope 6 m.sequence_number (encode local c flags b) ≡ q
        → Holds (IsSent m local (length b)) (
            q >>= λ message. ok (record m {
              sequence_number = (m.sequence_number + 1) % 65536;
              output = m.output ++ (message ∷ []);
            }))
    go (err e) k = tt
    go (ok message) k = (
      refl,
      refl,
      λ l s.
          written-append l m.output (message ∷ [])
          ∙ ap (λ t. written l m.output + t)
              (frame_written m.sequence_number local l c flags b message h k),
    )
