-- ===== src/Common/Stream/Feed.antt =====
-- A stream that arrives in pieces: each piece is appended and the buffer is read to its end.
use Prim.Native.Nat.{ℕ, zero, suc}
use mathlib.Core.Path.{◌≡◌, refl, sym, ◌∙◌, ap, subst}
use mathlib.Core.Logic.{◌⊎◌, inl, inr}
use mathlib.Core.List.{List, [], ◌∷◌, ◌++◌, append-nil, append_assoc, flatten}
use native.Mathlib.Omega.{arith}
use project_argo.Common.Lists.{length}
use project_argo.Common.Stream.{
  Step-cases, more, item, Framing, Outcome, done, broke, stuck, prepend, read_fuel, read, read_more,
  read_bad, read_item, read-more, read-append, resume,
}

pub Outcome-cases :
    {E A : Type 0} (o : Outcome E A)
    → ((xs : List A) × (rest : List ℕ) × (o ≡ done xs rest))
      ⊎ (((xs : List A) × (e : E) × (o ≡ broke xs e)) ⊎ (o ≡ stuck))
Outcome-cases (done xs rest) = inl (xs, rest, refl)
Outcome-cases (broke xs e) = inr (inl (xs, e, refl))
Outcome-cases stuck = inr (inr refl)

prepend-eq-done :
    {E A : Type 0} (xs zs : List A) (o : Outcome E A) (rest : List ℕ)
    → prepend xs o ≡ done zs rest
    → (ys : List A) × (o ≡ done ys rest)
prepend-eq-done xs zs (done ys r) rest h = (ys, cc)
prepend-eq-done xs zs (broke ys e) rest h = cc
prepend-eq-done xs zs stuck rest h = cc

module _ {E A : Type 0} (f : Framing E A) where
  settled_fuel :
      (n : ℕ) (buf : List ℕ) (xs : List A) (rest : List ℕ)
      → read_fuel f n buf ≡ done xs rest
      → f.next rest ≡ more
  settled_fuel zero buf xs rest h = unfold read_fuel in cc
  settled_fuel (suc n) buf xs rest h = elim (Step-cases (f.next buf)) [
    | inl e ↦ ground (arith, read_more f n buf e)
    | inr (inl (y, e)) ↦ cc (read_bad f n buf y e)
    | inr (inr (a, r, e)) ↦
        let (ys, p) =
          prepend-eq-done (a ∷ []) xs (read_fuel f n r) rest (sym (read_item f n buf a r e) ∙ h) in
        settled_fuel n r ys rest p
  ]

  -- What is left after reading holds no complete record.
  pub settled :
      (buf : List ℕ) (xs : List A) (rest : List ℕ) → read f buf ≡ done xs rest → f.next rest ≡ more
  unfolding read
  settled buf xs rest h = settled_fuel (suc (length buf)) buf xs rest h

  -- What every record leaves true of the buffer is true of the bytes left after reading.
  module _ {κ} (P : List ℕ → Type κ)
      (keep : (buf : List ℕ) (a : A) (rest : List ℕ)
        → f.next buf ≡ item a rest
        → P buf
        → P rest) where
    kept_fuel :
        (n : ℕ) (buf : List ℕ) (xs : List A) (rest : List ℕ)
        → P buf
        → read_fuel f n buf ≡ done xs rest
        → P rest
    kept_fuel zero buf xs rest v h = unfold read_fuel in cc
    kept_fuel (suc n) buf xs rest v h = elim (Step-cases (f.next buf)) [
      | inl e ↦ subst P (outcome_rest [] xs buf rest (sym (read_more f n buf e) ∙ h)) v
      | inr (inl (y, e)) ↦ absurd (not_done xs rest y (sym (read_bad f n buf y e) ∙ h))
      | inr (inr (a, r, e)) ↦
          let (ys, p) =
            prepend-eq-done (a ∷ []) xs (read_fuel f n r) rest
              (sym (read_item f n buf a r e) ∙ h) in
          kept_fuel n r ys rest (keep buf a r e v) p
    ]
      where
        outcome_rest :
            (ws ys : List A) (b r : List ℕ) → ◌≡◌ {A = Outcome E A} (done ws b) (done ys r) → b ≡ r
        outcome_rest ws ys b r q = cc

        not_done :
            (ys : List A) (r : List ℕ) (y : E) → ◌≡◌ {A = Outcome E A} (broke [] y) (done ys r) → ⊥
        not_done ys r y q = cc

    pub kept :
        (buf : List ℕ) (xs : List A) (rest : List ℕ) → P buf → read f buf ≡ done xs rest → P rest
    unfolding read
    kept buf xs rest v h = kept_fuel (suc (length buf)) buf xs rest v h

  pub feed : List ℕ → List (List ℕ) → Outcome E A
  feed buf [] = done [] buf
  feed buf (c ∷ cs) = elim (read f (buf ++ c)) [
    | done xs rest ↦ prepend xs (feed rest cs)
    | broke xs e ↦ broke xs e
    | stuck ↦ stuck
  ]

  -- The pieces do not matter: feeding them gives what reading the whole stream gives.
  pub feed-read :
      (buf : List ℕ) (cs : List (List ℕ))
      → f.next buf ≡ more
      → feed buf cs ≡ read f (buf ++ flatten cs)
  unfolding feed flatten
  feed-read buf [] h = rw (append-nil buf) (sym (read-more f buf h))
  feed-read buf (c ∷ cs) h = elim (Outcome-cases (read f (buf ++ c))) [
    | inl (xs, rest, e) ↦
        rw (e, feed)
          (ap (prepend xs) (feed-read rest cs (settled (buf ++ c) xs rest e))
            ∙ sym (split (done xs rest) e))
    | inr (inl (xs, x, e)) ↦ rw (e, feed) (sym (split (broke xs x) e))
    | inr (inr e) ↦ rw (e, feed) (sym (split stuck e))
  ]
    where
      split :
          (o : Outcome E A)
          → read f (buf ++ c) ≡ o
          → read f (buf ++ (c ++ flatten cs)) ≡ resume f o (flatten cs)
      split o e =
          ap (read f) (sym (append_assoc buf c (flatten cs)))
          ∙ read-append f (buf ++ c) (flatten cs)
          ∙ ap (λ t. resume f t (flatten cs)) e
