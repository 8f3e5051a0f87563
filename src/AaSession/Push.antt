-- ===== src/AaSession/Push.antt =====
-- `FrameDecoder::push` against the reader of Common.Stream.
use mathlib.Core.List.{flatten}
use project_argo.Common.{
  ℕ, zero, suc, ◌+◌, ◌≤◌, ◌<◌, ◌≡◌, refl, sym, ap, ◌∙◌, ◌≢◌, inl, inr, List, [], ◌∷◌, ◌++◌, arith,
  All, length, le→not_ltb, append_assoc, append-nil,
}
use project_argo.Common.Stream.{
  Step-cases, more, Outcome, done, broke, stuck, prepend, read_fuel, read, read_more, read_bad,
  read_item, read-ne-stuck, read_lem, prepend-prepend, prepend-nil, read-more, read-append, resume,
}
use project_argo.Common.Stream.Feed.{Outcome-cases, settled}
use project_argo.AaSession.Frame.{
  Frame, FrameError, Result, ok, err, next_frame, split_loop, push, max_buffered_bytes,
}
use project_argo.AaSession.Framing.{frames_framing}

-- What `push` answers for an outcome of the reader: an error drops the frames and the buffer.
abbrev pub answer : Outcome FrameError Frame → Result (List Frame) × List ℕ
answer (done frames rest) = (ok frames, rest)
answer (broke frames e) = (err e, [])
answer stuck = (ok [], [])

split_loop-read_fuel :
    (n : ℕ) (buf : List ℕ) (frames : List Frame)
    → length buf < n
    → split_loop n buf frames ≡ answer (prepend frames (read_fuel frames_framing n buf))
unfolding split_loop frames_framing
split_loop-read_fuel zero buf frames h = absurd (omega arith)
split_loop-read_fuel (suc n) buf frames h = elim (Step-cases (next_frame buf)) [
  | inl e ↦ rw (e, split_loop) (rw (read_more frames_framing n buf e, append-nil frames))
  | inr (inl (x, e)) ↦ rw (e, split_loop) (rw (read_bad frames_framing n buf x e))
  | inr (inr (a, rest, e)) ↦
      rw (e, split_loop)
        (split_loop-read_fuel n rest (frames ++ (a ∷ []))
            (omega (arith, frames_framing.shrinks buf a rest e))
          ∙ ap answer (
              sym (prepend-prepend frames (a ∷ []) (read_fuel frames_framing n rest))
              ∙ ap (prepend frames) (sym (read_item frames_framing n buf a rest e))))
]

-- Within its limit `push` answers what reading the whole buffer gives.
pub push-read :
    (buffered bytes : List ℕ)
    → length buffered + length bytes ≤ max_buffered_bytes
    → push buffered bytes ≡ answer (read frames_framing (buffered ++ bytes))
unfolding push
push-read buffered bytes h = rw (le→not_ltb max_buffered_bytes (length buffered + length bytes) h) (
    split_loop-read_fuel (suc (length (buffered ++ bytes))) (buffered ++ bytes) [] (omega arith)
    ∙ ap answer (prepend-nil _ ∙ sym (read_lem frames_framing (buffered ++ bytes))))

-- A buffer without a complete frame is shorter than the longest frame.
unfinished_short : (buf : List ℕ) → next_frame buf ≡ more → length buf < 32772
unfolding next_frame
unfinished_short buf h = ground arith

-- Pushing one piece after another, up to the first error.
abbrev and_then : List Frame → Result (List Frame) × List ℕ → Result (List Frame) × List ℕ
and_then frames (ok later, buf) = (ok (frames ++ later), buf)
and_then frames (err e, buf) = (err e, buf)

abbrev go_on :
    Result (List Frame) × List ℕ
    → (List ℕ → Result (List Frame) × List ℕ)
    → Result (List Frame) × List ℕ
go_on (ok frames, buf) k = and_then frames (k buf)
go_on (err e, buf) k = (err e, buf)

pub push_all : List ℕ → List (List ℕ) → Result (List Frame) × List ℕ
push_all buf [] = (ok [], buf)
push_all buf (c ∷ cs) = go_on (push buf c) (λ b. push_all b cs)

and_then-answer :
    (frames : List Frame) (o : Outcome FrameError Frame)
    → o ≢ stuck
    → and_then frames (answer o) ≡ answer (prepend frames o)
and_then-answer frames (done xs rest) h = refl
and_then-answer frames (broke xs e) h = refl
and_then-answer frames stuck h = absurd (h refl)

-- A piece that a transfer of the transport may bring.
abbrev pub IsPiece : List ℕ → Type 0
IsPiece c = length c ≤ 32764

push_all-feed :
    (buf : List ℕ) (cs : List (List ℕ))
    → next_frame buf ≡ more
    → All IsPiece cs
    → push_all buf cs ≡ answer (read frames_framing (buf ++ flatten cs))
unfolding push_all flatten frames_framing
push_all-feed buf [] h k = rw (append-nil buf) (sym (ap answer (read-more frames_framing buf h)))
push_all-feed buf (c ∷ cs) h k = elim (Outcome-cases (read frames_framing (buf ++ c))) [
  | inl (xs, rest, e) ↦
      rw (pushed, e)
        (ap (and_then xs) (push_all-feed rest cs (settled frames_framing (buf ++ c) xs rest e) k.1)
          ∙ and_then-answer xs (read frames_framing (rest ++ flatten cs))
              (read-ne-stuck frames_framing (rest ++ flatten cs))
          ∙ ap answer (sym (split (done xs rest) e)))
  | inr (inl (xs, x, e)) ↦ rw (pushed, e) (ap answer (sym (split (broke xs x) e)))
  | inr (inr e) ↦ absurd (read-ne-stuck frames_framing (buf ++ c) e)
]
  where
    pushed : push buf c ≡ answer (read frames_framing (buf ++ c))
    pushed = push-read buf c (omega (arith, unfinished_short buf h))

    split :
        (o : Outcome FrameError Frame)
        → read frames_framing (buf ++ c) ≡ o
        → read frames_framing (buf ++ (c ++ flatten cs)) ≡ resume frames_framing o (flatten cs)
    split o e =
        ap (read frames_framing) (sym (append_assoc buf c (flatten cs)))
        ∙ read-append frames_framing (buf ++ c) (flatten cs)
        ∙ ap (λ t. resume frames_framing t (flatten cs)) e

-- Whatever way the transport cuts a stream into pieces of at most 32764 bytes, pushing the
-- pieces answers what reading the whole stream answers: the same frames and the same bytes left
-- over, or the same error.
pub push_all-read :
    (cs : List (List ℕ))
    → All IsPiece cs
    → push_all [] cs ≡ answer (read frames_framing (flatten cs))
push_all-read cs k = push_all-feed [] cs (unfold next_frame in refl) k
