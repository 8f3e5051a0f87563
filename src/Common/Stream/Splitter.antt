-- ===== src/Common/Stream/Splitter.antt =====
-- A decoder that clears its buffer at an error: what one call of its `push` answers, and that the
-- cut of the stream into pieces does not matter.
use Prim.Native.Nat.{ℕ, zero, suc, ◌<◌}
use mathlib.Core.Path.{◌≡◌, refl, sym, ◌∙◌, ap}
use mathlib.Core.Logic.{inl, inr, ◌≢◌}
use mathlib.Core.List.{List, [], ◌∷◌, ◌++◌, append-nil, append_assoc, flatten}
use native.Mathlib.Omega.{arith}
use project_argo.Common.Lists.{length, All}
use project_argo.Common.Stream.{
  Step, Step-cases, more, bad, item, Framing, Outcome, done, broke, stuck, prepend, read_fuel, read,
  read_more, read_bad, read_item, read-ne-stuck, read_lem, prepend-prepend, prepend-nil, read-more,
  read-append, resume,
}
use project_argo.Common.Stream.Feed.{Outcome-cases, settled}

pub data Split (E A : Type 0) : Type 0 where
  records : List A → Split E A
  fault : E → Split E A

-- The loop over the buffer, with the records found so far.
unfoldable pub split_loop :
    {E A : Type 0} → (List ℕ → Step E A) → ℕ → List ℕ → List A → Split E A × List ℕ
split_loop next zero buffered found = (records found, buffered)
split_loop next (suc fuel) buffered found = elim (next buffered) [
  | more ↦ (records found, buffered)
  | bad e ↦ (fault e, [])
  | item a rest ↦ split_loop next fuel rest (found ++ (a ∷ []))
]

-- One more unit of fuel than there are bytes.
unfoldable pub split_all : {E A : Type 0} → (List ℕ → Step E A) → List ℕ → Split E A × List ℕ
split_all next buffered = split_loop next (suc (length buffered)) buffered []

-- What a decoder answers for an outcome of the reader: an error drops the records.
abbrev pub split_of : {E A : Type 0} → Outcome E A → Split E A × List ℕ
split_of (done found rest) = (records found, rest)
split_of (broke found e) = (fault e, [])
split_of stuck = (records [], [])

abbrev and_then : {E A : Type 0} → List A → Split E A × List ℕ → Split E A × List ℕ
and_then found (records later, buf) = (records (found ++ later), buf)
and_then found (fault e, buf) = (fault e, buf)

abbrev go_on :
    {E A : Type 0} → Split E A × List ℕ → (List ℕ → Split E A × List ℕ) → Split E A × List ℕ
go_on (records found, buf) k = and_then found (k buf)
go_on (fault e, buf) k = (fault e, buf)

-- Pushing one piece after another, up to the first error.
pub pushes :
    {E A : Type 0}
    → (List ℕ → List ℕ → Split E A × List ℕ)
    → List ℕ
    → List (List ℕ)
    → Split E A × List ℕ
pushes push buf [] = (records [], buf)
pushes push buf (c ∷ cs) = go_on (push buf c) (λ b. pushes push b cs)

and_then-split_of :
    {E A : Type 0} (found : List A) (o : Outcome E A)
    → o ≢ stuck
    → and_then found (split_of o) ≡ split_of (prepend found o)
and_then-split_of found (done xs rest) h = refl
and_then-split_of found (broke xs e) h = refl
and_then-split_of found stuck h = absurd (h refl)

module _ {E A : Type 0} (f : Framing E A) where
  split_loop-read_fuel :
      (n : ℕ) (buf : List ℕ) (found : List A)
      → length buf < n
      → split_loop f.next n buf found ≡ split_of (prepend found (read_fuel f n buf))
  unfolding split_loop
  split_loop-read_fuel zero buf found h = absurd (omega arith)
  split_loop-read_fuel (suc n) buf found h = elim (Step-cases (f.next buf)) [
    | inl e ↦ rw (e, split_loop) (rw (read_more f n buf e, append-nil found))
    | inr (inl (x, e)) ↦ rw (e, split_loop) (rw (read_bad f n buf x e))
    | inr (inr (a, rest, e)) ↦
        rw (e, split_loop)
          (split_loop-read_fuel n rest (found ++ (a ∷ [])) (omega (arith, f.shrinks buf a rest e))
            ∙ ap split_of (
                sym (prepend-prepend found (a ∷ []) (read_fuel f n rest))
                ∙ ap (prepend found) (sym (read_item f n buf a rest e))))
  ]

  pub split_all-read : (buf : List ℕ) → split_all f.next buf ≡ split_of (read f buf)
  unfolding split_all
  split_all-read buf =
      split_loop-read_fuel (suc (length buf)) buf [] (omega arith)
      ∙ ap split_of (prepend-nil _ ∙ sym (read_lem f buf))

  -- A decoder whose `push` reads the whole buffer as long as the pieces are short enough.
  module _ (push : List ℕ → List ℕ → Split E A × List ℕ) (IsShort : List ℕ → Type 0)
      (reads : (buf c : List ℕ)
        → f.next buf ≡ more
        → IsShort c
        → push buf c ≡ split_of (read f (buf ++ c))) where
    pub pushes-read :
        (buf : List ℕ) (cs : List (List ℕ))
        → f.next buf ≡ more
        → All IsShort cs
        → pushes push buf cs ≡ split_of (read f (buf ++ flatten cs))
    unfolding pushes flatten
    pushes-read buf [] h k = rw (append-nil buf) (sym (ap split_of (read-more f buf h)))
    pushes-read buf (c ∷ cs) h k = elim (Outcome-cases (read f (buf ++ c))) [
      | inl (xs, rest, e) ↦
          rw (reads buf c h k.0, e)
            (ap (and_then xs) (pushes-read rest cs (settled f (buf ++ c) xs rest e) k.1)
              ∙ and_then-split_of xs (read f (rest ++ flatten cs))
                  (read-ne-stuck f (rest ++ flatten cs))
              ∙ ap split_of (sym (split (done xs rest) e)))
      | inr (inl (xs, x, e)) ↦ rw (reads buf c h k.0, e) (ap split_of (sym (split (broke xs x) e)))
      | inr (inr e) ↦ absurd (read-ne-stuck f (buf ++ c) e)
    ]
      where
        split :
            (o : Outcome E A)
            → read f (buf ++ c) ≡ o
            → read f (buf ++ (c ++ flatten cs)) ≡ resume f o (flatten cs)
        split o e =
            ap (read f) (sym (append_assoc buf c (flatten cs)))
            ∙ read-append f (buf ++ c) (flatten cs)
            ∙ ap (λ t. resume f t (flatten cs)) e
