-- ===== src/AaChannels/Contacts.antt =====
-- Contacts that are added, moved and removed.
use mathlib.Core.Path.{subst}
use project_argo.Common.{
  ℕ, ◌+◌, ◌≤◌, ◌<◌, ◌≡◌, ◌≢◌, refl, sym, ap, ◌∙◌, arith, [], ◌∷◌, true, false, none, some, ltb,
  ◌==◌, if_holds, length,
}
use project_argo.AaChannels.State.{Contact, lookup, remove}
use project_argo.AaChannels.Touch.{Pointers, insert_pointer, is_taken}
use project_argo.AaChannels.WireIds.{AreAbove, AreContacts}

AreAbove-mono : (p q : ℕ) (ps : Pointers) → p ≤ q → AreAbove q ps → AreAbove p ps
AreAbove-mono p q [] h a = tt
AreAbove-mono p q ((k, d) ∷ rest) h a = (omega (arith, a.0), AreAbove-mono p q rest h a.1)

AreAbove-insert_pointer :
    (q : ℕ) (ps : Pointers) (p : ℕ) (c : Contact)
    → q < p
    → AreAbove q ps
    → AreAbove q (insert_pointer ps p c)
unfolding insert_pointer
AreAbove-insert_pointer q [] p c h a = (h, tt)
AreAbove-insert_pointer q ((k, d) ∷ rest) p c h a =
    if_holds (AreAbove q) (ltb p k) _ _ (λ _. (h, a))
      (λ _.
        if_holds (AreAbove q) (k == p) _ _ (λ _. (h, a.1))
          (λ _. (a.0, AreAbove-insert_pointer q rest p c h a.1)))

is_taken-insert_pointer :
    (ps : Pointers) (p : ℕ) (c : Contact) (v : ℕ)
    → c.wire_id ≢ v
    → is_taken ps v ≡ false
    → is_taken (insert_pointer ps p c) v ≡ false
unfolding is_taken insert_pointer
is_taken-insert_pointer [] p c v n e = ground arith
is_taken-insert_pointer ((k, d) ∷ rest) p c v n e =
    ground (arith, is_taken-insert_pointer rest p c v)

lookup_above : (q : ℕ) (ps : Pointers) (p : ℕ) → AreAbove q ps → p ≤ q → lookup ps p ≡ none
unfolding lookup
lookup_above q [] p a h = refl
lookup_above q ((k, d) ∷ rest) p a h = ground (arith, lookup_above q rest p)

lookup-is_taken :
    (ps : Pointers) (p : ℕ) (c : Contact) → lookup ps p ≡ some c → is_taken ps c.wire_id ≡ true
unfolding is_taken lookup
lookup-is_taken [] p c e = absurd cc
lookup-is_taken ((k, d) ∷ rest) p c e = grind (arith, lookup-is_taken rest p c)

not_both : (ps : Pointers) (v w : ℕ) → is_taken ps v ≡ false → is_taken ps w ≡ true → v ≢ w
not_both ps v w f t e =
    absurd (subst (λ b. elim b [ true ↦ ⊥ | false ↦ Unit {0} ]) (sym f ∙ ap (is_taken ps) e ∙ t) tt)

-- A new contact with a number that no other has.
pub AreContacts-insert_new :
    (ps : Pointers) (p : ℕ) (c : Contact)
    → lookup ps p ≡ none
    → is_taken ps c.wire_id ≡ false
    → c.wire_id < 10
    → AreContacts ps
    → AreContacts (insert_pointer ps p c) × (length (insert_pointer ps p c) ≡ length ps + 1)
unfolding lookup is_taken insert_pointer
AreContacts-insert_new [] p c e f h i = ((tt, refl, h, tt), refl)
AreContacts-insert_new ((k, d) ∷ rest) p c e f h i =
    let (above, fresh, small, others) = i in
    let unequal : (k == p) ≡ false = ground arith in
    let other_id : c.wire_id ≢ d.wire_id = ground arith in
    let absent : lookup rest p ≡ none = ground arith in
    let free : is_taken rest c.wire_id ≡ false = ground arith in
    let (ih, n) = AreContacts-insert_new rest p c absent free h others in
    if_holds (λ l. AreContacts l × (length l ≡ length ((k, d) ∷ rest) + 1)) (ltb p k) _ _
      (λ lt.
        let less : p < k = ground arith in
        (((less, AreAbove-mono p k rest (omega arith) above), f, h, i), omega arith))
      (λ ge. rw unequal (
        (
          AreAbove-insert_pointer k rest p c (ground arith) above,
          is_taken-insert_pointer rest p c d.wire_id other_id fresh,
          small,
          ih,
        ),
        omega (arith, n),
      ))

-- A contact that moves keeps its number.
pub AreContacts-insert_moved :
    (ps : Pointers) (p : ℕ) (c d : Contact)
    → lookup ps p ≡ some c
    → d.wire_id ≡ c.wire_id
    → AreContacts ps
    → AreContacts (insert_pointer ps p d) × (length (insert_pointer ps p d) ≡ length ps)
unfolding lookup is_taken insert_pointer
AreContacts-insert_moved [] p c d e w i = absurd cc
AreContacts-insert_moved ((k, b) ∷ rest) p c d e w i =
    let (above, fresh, small, others) = i in
    if_holds (λ l. AreContacts l × (length l ≡ length ((k, b) ∷ rest))) (ltb p k) _ _
      (λ lt. absurd (ground (arith, lookup_above k rest p)))
      (λ ge.
        if_holds (λ l. AreContacts l × (length l ≡ length ((k, b) ∷ rest))) (k == p) _ _
          (λ same.
            let id : d.wire_id ≡ b.wire_id = grind arith in
            (
              (
                AreAbove-mono p k rest (ground arith) above,
                rw id fresh,
                omega (arith, id, small),
                others,
              ),
              omega arith,
            ))
          (λ other.
            let found : lookup rest p ≡ some c = ground arith in
            let (ih, n) = AreContacts-insert_moved rest p c d found w others in
            let other_id : d.wire_id ≢ b.wire_id = λ q.
              not_both rest b.wire_id c.wire_id fresh (lookup-is_taken rest p c found)
                (sym q ∙ w) in
            (
              (
                AreAbove-insert_pointer k rest p d (ground arith) above,
                is_taken-insert_pointer rest p d b.wire_id other_id fresh,
                small,
                ih,
              ),
              omega (arith, n),
            )))

AreAbove-remove : (q : ℕ) (ps : Pointers) (p : ℕ) → AreAbove q ps → AreAbove q (remove ps p)
unfolding remove
AreAbove-remove q [] p a = tt
AreAbove-remove q ((k, d) ∷ rest) p a =
    if_holds (AreAbove q) (k == p) _ _ (λ _. AreAbove-remove q rest p a.1)
      (λ _. (a.0, AreAbove-remove q rest p a.1))

is_taken-remove :
    (ps : Pointers) (p v : ℕ) → is_taken ps v ≡ false → is_taken (remove ps p) v ≡ false
unfolding is_taken remove
is_taken-remove [] p v e = e
is_taken-remove ((k, d) ∷ rest) p v e = ground (arith, is_taken-remove rest p v)

pub AreContacts-remove :
    (ps : Pointers) (p : ℕ)
    → AreContacts ps
    → AreContacts (remove ps p) × (length (remove ps p) ≤ length ps)
unfolding remove
AreContacts-remove [] p i = (tt, omega arith)
AreContacts-remove ((k, d) ∷ rest) p i =
    let (above, fresh, small, others) = i in
    let (ih, n) = AreContacts-remove rest p others in
    if_holds (λ l. AreContacts l × (length l ≤ length ((k, d) ∷ rest))) (k == p) _ _
      (λ _. (ih, omega (arith, n)))
      (λ _. (
        (AreAbove-remove k rest p above, is_taken-remove rest p d.wire_id fresh, small, ih),
        omega (arith, n),
      ))
