-- ===== src/AaChannels/WireIds.antt =====
-- The numbers of the contacts on the wire.
use project_argo.Common.{
  ℕ, zero, suc, ◌+◌, ◌≤◌, ◌<◌, ◌≡◌, ◌≢◌, inl, inr, refl, sym, ap, ◌∙◌, arith, [], ◌∷◌, true, false,
  Option, none, some, ◌==◌, ==→eq, if◌then◌else◌, Bool-cases, length,
}
use project_argo.AaChannels.Touch.{Pointers, is_taken, free_id}

-- Without the contacts that have the given number.
abbrev without : Pointers → ℕ → Pointers
without [] id = []
without ((p, c) ∷ rest) id =
    let later = without rest id in if c.wire_id == id then later else (p, c) ∷ later

length-without : (ps : Pointers) (id : ℕ) → length (without ps id) ≤ length ps
length-without [] id = omega arith
length-without ((p, c) ∷ rest) id = ground (arith, length-without rest id)

length-without_taken :
    (ps : Pointers) (id : ℕ) → is_taken ps id ≡ true → length (without ps id) < length ps
unfolding is_taken
length-without_taken [] id e = absurd cc
length-without_taken ((p, c) ∷ rest) id e =
    ground (arith, length-without rest id, length-without_taken rest id)

is_taken-without :
    (ps : Pointers) (id v : ℕ) → v ≢ id → is_taken ps v ≡ true → is_taken (without ps id) v ≡ true
unfolding is_taken
is_taken-without [] id v n e = e
is_taken-without ((p, c) ∷ rest) id v n e = ground (arith, is_taken-without rest id v n)

-- The pigeonhole principle.
taken_all : (n : ℕ) (ps : Pointers) → ((j : ℕ) → j < n → is_taken ps j ≡ true) → n ≤ length ps
taken_all zero ps h = omega arith
taken_all (suc n) ps h =
    let few = length-without_taken ps n (h n (omega arith)) in
    let ih =
      taken_all n (without ps n)
        (λ j k. is_taken-without ps n j (λ e. absurd (omega arith)) (h j (omega arith))) in
    omega (arith, few, ih)

free_id-none :
    (n i : ℕ) (ps : Pointers)
    → free_id n i ps ≡ none
    → (j : ℕ) → i ≤ j
    → j < i + n
    → is_taken ps j ≡ true
unfolding free_id
free_id-none zero i ps e j a b = absurd (omega arith)
free_id-none (suc n) i ps e j a b =
    let here : is_taken ps i ≡ true = ground arith in
    let later : free_id n (i + 1) ps ≡ none = ground arith in
    elim (Bool-cases (i == j)) [
      | inl q ↦ ap (is_taken ps) (sym (==→eq i j q)) ∙ here
      | inr q ↦ free_id-none n (i + 1) ps later j (ground arith) (omega arith)
    ]

-- The number of `free_id` is one of those it looks at, and no contact has it.
free_id-some :
    (n i : ℕ) (ps : Pointers) (w : ℕ)
    → free_id n i ps ≡ some w
    → (i ≤ w) × (w < i + n) × (is_taken ps w ≡ false)
unfolding free_id
free_id-some zero i ps w e = absurd cc
free_id-some (suc n) i ps w e = ground (arith, free_id-some n (i + 1) ps w)

-- Pointers in order, and numbers below 10 that differ.
abbrev pub AreAbove : ℕ → Pointers → Type 0
AreAbove q [] = Unit {0}
AreAbove q ((p, c) ∷ rest) = (q < p) × AreAbove q rest

abbrev pub AreContacts : Pointers → Type 0
AreContacts [] = Unit {0}
AreContacts ((p, c) ∷ rest) =
    AreAbove p rest × (is_taken rest c.wire_id ≡ false) × (c.wire_id < 10) × AreContacts rest

-- With fewer than ten contacts one of the numbers 0 to 9 is free.
pub free_id_found :
    (ps : Pointers)
    → length ps < 10
    → (w : ℕ) × (free_id 10 0 ps ≡ some w) × (w < 10) × (is_taken ps w ≡ false)
free_id_found ps h = go (free_id 10 0 ps) refl
  where
    go :
        (q : Option ℕ)
        → free_id 10 0 ps ≡ q
        → (w : ℕ) × (free_id 10 0 ps ≡ some w) × (w < 10) × (is_taken ps w ≡ false)
    go none e =
        let many = taken_all 10 ps (λ j k. free_id-none 10 0 ps e j (omega arith) k) in
        absurd (omega (arith, many))
    go (some w) e = let (a, b, f) = free_id-some 10 0 ps w e in (w, e, omega (arith, b), f)
