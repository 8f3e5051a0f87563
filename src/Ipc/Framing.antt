-- ===== src/Ipc/Framing.antt =====
-- The laws of `next_message`, so that the reader of Common.Stream serves the decoder.
use project_argo.Common.{
  ℕ, ◌+◌, ◌≤◌, ◌<◌, ◌≡◌, List, ◌++◌, arith, length, take, drop, byte_at, be32, length-append,
  length-drop, get_or-append, take-append, drop-append,
}
use project_argo.Common.Stream.{bad, item, Framing}
use project_argo.Ipc.Frames.{Message, DecodeError, next_message}

pub next_message_shrinks :
    (buf : List ℕ) (a : Message) (rest : List ℕ)
    → next_message buf ≡ item a rest
    → length rest < length buf
unfolding next_message
next_message_shrinks buf a rest e = ground (
  arith,
  length-drop (12 + be32 (byte_at buf 8) (byte_at buf 9) (byte_at buf 10) (byte_at buf 11)) buf,
)

module _ (buf x : List ℕ) where
  byte_at-append : (i : ℕ) → i < length buf → byte_at (buf ++ x) i ≡ byte_at buf i
  byte_at-append i h = get_or-append buf x i 0 h

  payload-append :
      (n : ℕ) → 12 + n ≤ length buf → take n (drop 12 (buf ++ x)) ≡ take n (drop 12 buf)
  payload-append n h =
      rw (drop-append 12 buf x (omega arith))
        (take-append n (drop 12 buf) x (omega (arith, length-drop 12 buf)))

  long_enough : (a : Message) (rest : List ℕ) → next_message buf ≡ item a rest → 12 ≤ length buf
  unfolding next_message
  long_enough a rest e = ground arith

  found_bad : (e : DecodeError) → next_message buf ≡ bad e → 12 ≤ length buf
  unfolding next_message
  found_bad e h = ground arith

  pub next_message-append_item :
      (a : Message) (rest : List ℕ)
      → next_message buf ≡ item a rest
      → next_message (buf ++ x) ≡ item a (rest ++ x)
  unfolding next_message
  next_message-append_item a rest e =
      let h = long_enough a rest e in
      let len = be32 (byte_at buf 8) (byte_at buf 9) (byte_at buf 10) (byte_at buf 11) in
      rw
        (
          byte_at-append 0 (omega arith),
          byte_at-append 1 (omega arith),
          byte_at-append 2 (omega arith),
          byte_at-append 3 (omega arith),
          byte_at-append 4 (omega arith),
          byte_at-append 5 (omega arith),
          byte_at-append 6 (omega arith),
          byte_at-append 7 (omega arith),
          byte_at-append 8 (omega arith),
          byte_at-append 9 (omega arith),
          byte_at-append 10 (omega arith),
          byte_at-append 11 (omega arith),
        )
        (ground (arith, length-append buf x, payload-append len, drop-append (12 + len) buf x))

  pub next_message-append_bad :
      (e : DecodeError) → next_message buf ≡ bad e → next_message (buf ++ x) ≡ bad e
  unfolding next_message
  next_message-append_bad e p =
      let h = found_bad e p in
      rw
        (
          byte_at-append 0 (omega arith),
          byte_at-append 1 (omega arith),
          byte_at-append 2 (omega arith),
          byte_at-append 3 (omega arith),
          byte_at-append 4 (omega arith),
          byte_at-append 5 (omega arith),
          byte_at-append 8 (omega arith),
          byte_at-append 9 (omega arith),
          byte_at-append 10 (omega arith),
          byte_at-append 11 (omega arith),
        )
        (ground (arith, length-append buf x))

unfoldable pub messages_framing : Framing DecodeError Message
messages_framing = record {
  next = next_message;
  shrinks = next_message_shrinks;
  keeps_item = next_message-append_item;
  keeps_bad = next_message-append_bad;
}
