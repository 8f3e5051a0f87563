-- ===== src/Common/Stream.antt =====
-- Incremental decoders: a buffer that grows at its end and gives up records at its front.
-- `Step` is what one attempt answers, `Framing` the laws that a decoder must keep so that the
-- records do not depend on how the transport cuts the byte stream.
pub mod Feed
pub mod Splitter
use Prim.Native.Nat.{ℕ, zero, suc, ◌<◌}
use mathlib.Core.Path.{◌≡◌, refl, sym, ◌∙◌, ap}
use mathlib.Core.Logic.{◌⊎◌, inl, inr, ◌≢◌}
use mathlib.Core.List.{List, [], ◌∷◌, ◌++◌, append_assoc}
use native.Mathlib.Omega.{arith}
use project_argo.Common.Lists.{length}

-- `Ok(None)`, `Err(e)`, and `Ok(Some(a))` with the buffer that is left.
pub data Step (E A : Type 0) : Type 0 where
  more : Step E A
  bad : E → Step E A
  item : A → List ℕ → Step E A

pub Step-cases :
    {E A : Type 0} (s : Step E A)
    → (s ≡ more) ⊎ (((e : E) × (s ≡ bad e)) ⊎ ((a : A) × (rest : List ℕ) × (s ≡ item a rest)))
Step-cases more = inl refl
Step-cases (bad e) = inr (inl (e, refl))
Step-cases (item a rest) = inr (inr (a, rest, refl))

pub record Framing (E A : Type 0) : Type 0 where
  pub next : List ℕ → Step E A
  -- A record takes at least one byte.
  pub shrinks :
      (buf : List ℕ) (a : A) (rest : List ℕ) → next buf ≡ item a rest → length rest < length buf
  -- Later bytes change neither a record that is complete nor an error that is found.
  pub keeps_item :
      (buf x : List ℕ) (a : A) (rest : List ℕ)
      → next buf ≡ item a rest
      → next (buf ++ x) ≡ item a (rest ++ x)
  pub keeps_bad : (buf x : List ℕ) (e : E) → next buf ≡ bad e → next (buf ++ x) ≡ bad e

-- What reading to the end of a buffer gives: the records and the bytes of an unfinished one, or
-- the records before an error. `stuck` stands for fuel that ran out.
pub data Outcome (E A : Type 0) : Type 0 where
  done : List A → List ℕ → Outcome E A
  broke : List A → E → Outcome E A
  stuck : Outcome E A

abbrev pub prepend : {E A : Type 0} → List A → Outcome E A → Outcome E A
prepend xs (done ys rest) = done (xs ++ ys) rest
prepend xs (broke ys e) = broke (xs ++ ys) e
prepend xs stuck = stuck

pub prepend-prepend :
    {E A : Type 0} (xs ys : List A) (o : Outcome E A)
    → prepend xs (prepend ys o) ≡ prepend (xs ++ ys) o
prepend-prepend xs ys (done zs rest) = ap (λ t. done t rest) (sym (append_assoc xs ys zs))
prepend-prepend xs ys (broke zs e) = ap (λ t. broke t e) (sym (append_assoc xs ys zs))
prepend-prepend xs ys stuck = refl

pub prepend-nil : {E A : Type 0} (o : Outcome E A) → prepend [] o ≡ o
prepend-nil (done zs rest) = refl
prepend-nil (broke zs e) = refl
prepend-nil stuck = refl

module _ {E A : Type 0} (f : Framing E A) where
  -- The reference reader: records from the front until the buffer holds no complete one.
  pub read_fuel : ℕ → List ℕ → Outcome E A
  read_fuel zero buf = stuck
  read_fuel (suc n) buf = elim (f.next buf) [
    | more ↦ done [] buf
    | bad e ↦ broke [] e
    | item a rest ↦ prepend (a ∷ []) (read_fuel n rest)
  ]

  pub read : List ℕ → Outcome E A
  read buf = read_fuel (suc (length buf)) buf

  pub read_lem : (buf : List ℕ) → read buf ≡ read_fuel (suc (length buf)) buf
  unfolding read
  read_lem buf = refl

  pub read_more : (n : ℕ) (buf : List ℕ) → f.next buf ≡ more → read_fuel (suc n) buf ≡ done [] buf
  unfolding read_fuel
  read_more n buf e = rw (e, read_fuel)

  pub read_bad :
      (n : ℕ) (buf : List ℕ) (x : E) → f.next buf ≡ bad x → read_fuel (suc n) buf ≡ broke [] x
  unfolding read_fuel
  read_bad n buf x e = rw (e, read_fuel)

  pub read_item :
      (n : ℕ) (buf : List ℕ) (a : A) (rest : List ℕ)
      → f.next buf ≡ item a rest
      → read_fuel (suc n) buf ≡ prepend (a ∷ []) (read_fuel n rest)
  unfolding read_fuel
  read_item n buf a rest e = rw (e, read_fuel)

  -- Any fuel above the length of the buffer gives the same answer.
  pub read_fuel-read :
      (n m : ℕ) (buf : List ℕ) → length buf < n → length buf < m → read_fuel n buf ≡ read_fuel m buf
  read_fuel-read zero m buf h k = absurd (omega arith)
  read_fuel-read (suc n) zero buf h k = absurd (omega arith)
  read_fuel-read (suc n) (suc m) buf h k = elim (Step-cases (f.next buf)) [
    | inl e ↦ read_more n buf e ∙ sym (read_more m buf e)
    | inr (inl (x, e)) ↦ read_bad n buf x e ∙ sym (read_bad m buf x e)
    | inr (inr (a, rest, e)) ↦
        read_item n buf a rest e
        ∙ ap (prepend (a ∷ [])) (
            read_fuel-read n m rest (omega (arith, f.shrinks buf a rest e))
              (omega (arith, f.shrinks buf a rest e)))
        ∙ sym (read_item m buf a rest e)
  ]

  -- One record, then the rest.
  pub read-item :
      (buf : List ℕ) (a : A) (rest : List ℕ)
      → f.next buf ≡ item a rest
      → read buf ≡ prepend (a ∷ []) (read rest)
  unfolding read
  read-item buf a rest e =
      read_item (length buf) buf a rest e
      ∙ ap (prepend (a ∷ [])) (read_fuel-read _ _ rest (f.shrinks buf a rest e) (omega arith))

  pub read-more : (buf : List ℕ) → f.next buf ≡ more → read buf ≡ done [] buf
  unfolding read
  read-more buf e = read_more (length buf) buf e

  pub read-bad : (buf : List ℕ) (x : E) → f.next buf ≡ bad x → read buf ≡ broke [] x
  unfolding read
  read-bad buf x e = read_bad (length buf) buf x e

  -- Reading goes on where it stopped.
  abbrev pub resume : Outcome E A → List ℕ → Outcome E A
  resume (done xs rest) x = prepend xs (read (rest ++ x))
  resume (broke xs e) x = broke xs e
  resume stuck x = stuck

  resume-prepend :
      (xs : List A) (o : Outcome E A) (x : List ℕ)
      → resume (prepend xs o) x ≡ prepend xs (resume o x)
  resume-prepend xs (done ys rest) x = sym (prepend-prepend xs ys (read (rest ++ x)))
  resume-prepend xs (broke ys e) x = refl
  resume-prepend xs stuck x = refl

  read-append_fuel :
      (n : ℕ) (buf x : List ℕ) → length buf < n → read (buf ++ x) ≡ resume (read_fuel n buf) x
  read-append_fuel zero buf x h = absurd (omega arith)
  read-append_fuel (suc n) buf x h = elim (Step-cases (f.next buf)) [
    | inl e ↦ rw (read_more n buf e) (sym (prepend-nil (read (buf ++ x))))
    | inr (inl (y, e)) ↦ rw (read_bad n buf y e) (read-bad (buf ++ x) y (f.keeps_bad buf x y e))
    | inr (inr (a, rest, e)) ↦ rw (read_item n buf a rest e) (
        read-item (buf ++ x) a (rest ++ x) (f.keeps_item buf x a rest e)
        ∙ ap (prepend (a ∷ [])) (read-append_fuel n rest x (omega (arith, f.shrinks buf a rest e)))
        ∙ sym (resume-prepend (a ∷ []) (read_fuel n rest) x))
  ]

  -- A stream cut anywhere reads xs the whole.
  pub read-append : (buf x : List ℕ) → read (buf ++ x) ≡ resume (read buf) x
  read-append buf x = read-append_fuel (suc (length buf)) buf x (omega arith) ∙ unfold read in refl

  read_fuel-ne-stuck : (n : ℕ) (buf : List ℕ) → length buf < n → read_fuel n buf ≢ stuck
  read_fuel-ne-stuck zero buf h = absurd (omega arith)
  read_fuel-ne-stuck (suc n) buf h = elim (Step-cases (f.next buf)) [
    | inl e ↦ rw (read_more n buf e) (λ p. cc)
    | inr (inl (y, e)) ↦ rw (read_bad n buf y e) (λ p. cc)
    | inr (inr (a, rest, e)) ↦ rw (read_item n buf a rest e) (
        prepend-ne-stuck (a ∷ []) (read_fuel n rest)
          (read_fuel-ne-stuck n rest (omega (arith, f.shrinks buf a rest e))))
  ]
    where
      prepend-ne-stuck : (xs : List A) (o : Outcome E A) → o ≢ stuck → prepend xs o ≢ stuck
      prepend-ne-stuck xs (done ys rest) k = λ p. cc
      prepend-ne-stuck xs (broke ys e) k = λ p. cc
      prepend-ne-stuck xs stuck k = k

  pub read-ne-stuck : (buf : List ℕ) → read buf ≢ stuck
  unfolding read
  read-ne-stuck buf = read_fuel-ne-stuck (suc (length buf)) buf (omega arith)
