-- ===== src/CarPlay/UsbMux/Counted.antt =====
-- What holds of the connections, against the bytes written on USB and the packets received.
use mathlib.Core.Path.{subst}
use project_argo.Common.{
  ℕ, ◌+◌, ◌%◌, ◌≤◌, ◌<◌, ◌≡◌, ◌⊎◌, inl, inr, sym, ◌∙◌, arith, List, [], ◌∷◌, true, false, some,
  ◌==◌, ==→eq, if_holds, Bool-cases, All,
}
use project_argo.CarPlay.UsbMux.{Packet, Connection}
use project_argo.CarPlay.UsbMux.Task.{
  Connections, get, remove, put, UsbMux, with_connection, without_connection,
}
use project_argo.CarPlay.UsbMux.Written.{written, IsSent}

module _ (P : ℕ × Connection → Type 0) where
  remove-All : (l : Connections) (local : ℕ) → All P l → All P (remove l local)
  unfolding remove
  remove-All [] local a = tt
  remove-All ((k, d) ∷ l) local a =
      if_holds (All P) (k == local) _ _ (λ _. remove-All l local a.1)
        (λ _. (a.0, remove-All l local a.1))

  -- What is left has other ports.
  pub remove_others :
      (l : Connections) (local : ℕ)
      → All P l
      → All (λ (e : ℕ × Connection). P e × ((local == e.0) ≡ false)) (remove l local)
  unfolding remove
  remove_others [] local a = tt
  remove_others ((k, d) ∷ l) local a =
      let Q : ℕ × Connection → Type 0 = λ e. P e × ((local == e.0) ≡ false) in
      if_holds (All Q) (k == local) _ _ (λ _. remove_others l local a.1)
        (λ f. ((a.0, other k f), remove_others l local a.1))
    where
      other : (k : ℕ) → (k == local) ≡ false → (local == k) ≡ false
      other k f = ground arith

  pub map-All :
      (Q : ℕ × Connection → Type 0)
      → ((e : ℕ × Connection) → P e → Q e)
      → (l : Connections) → All P l
      → All Q l
  map-All Q f [] a = tt
  map-All Q f (e ∷ l) a = (f e a.0, map-All Q f l a.1)

pub get-All :
    (P : ℕ × Connection → Type 0) (l : Connections) (local : ℕ) (c : Connection)
    → All P l
    → get l local ≡ some c
    → P (local, c)
unfolding get
get-All P [] local c a e = absurd cc
get-All P ((k, d) ∷ l) local c a e = elim (Bool-cases (k == local)) [
  | inl t ↦
      let same : some d ≡ some c = rw t at e in
      let port : k ≡ local = ==→eq k local t in
      let it : d ≡ c = cc in subst P (λ i. (port i, it i)) a.0
  | inr f ↦ let later : get l local ≡ some c = rw f at e in get-All P l local c a.1 later
]

module _ (Seen : Packet → Type 0) where
  -- A connection counts what was written for it: nothing while it is opening; then its sequence
  -- number is one more than the payload written, modulo 2^32, and the number it holds for
  -- acknowledged came with a packet of its peer.
  abbrev pub IsCounted : List (List ℕ) → ℕ × Connection → Type 0
  IsCounted out (local, c) =
      ((c.is_opening ≡ true) × (written local out ≡ 0))
      ⊎ ((c.is_opening ≡ false)
          × (c.sent ≡ (1 + written local out) % 4294967296)
          × ((p : Packet) × Seen p
              × (p.source ≡ c.remote)
              × (p.destination ≡ local)
              × (p.ack ≡ c.acknowledged)))

  abbrev pub Fits : UsbMux → ℕ × Connection → Type 0
  Fits m e = (e.0 < m.port) × IsCounted m.output e

  pub record IsMux (m : UsbMux) : Type 0 where
    pub port_fits : m.port ≤ 65535
    pub silent : (l : ℕ) → m.port ≤ l → l < 65536 → written l m.output ≡ 0
    pub counted : All (Fits m) m.connections

  -- The same frames of every port.
  abbrev pub Same : UsbMux → UsbMux → Type 0
  Same m m' = (m.port ≤ m'.port) × ((l : ℕ) → l < 65536 → written l m'.output ≡ written l m.output)

  pub IsCounted-Same :
      (m m' : UsbMux) (e : ℕ × Connection) → m.port ≤ 65535 → Same m m' → Fits m e → Fits m' e
  IsCounted-Same m m' (local, c) b (p, s) (h, inl (o, w)) =
      (omega arith, inl (o, s local (omega arith) ∙ w))
  IsCounted-Same m m' (local, c) b (p, s) (h, inr (o, w, k)) =
      let same = s local (omega arith) in (omega arith, inr (o, omega (arith, w, same), k))

  -- A frame without payload changes nothing that is counted.
  pub empty-Same : (m m' : UsbMux) (local : ℕ) → IsSent m local 0 m' → Same m m'
  empty-Same m m' local (k, p, s) = (omega (arith, p), λ l h. ground (arith, s l h))

  pub moved-IsMux :
      (m m' : UsbMux) (l : Connections)
      → IsMux m
      → Same m m'
      → m'.port ≤ 65535
      → All (Fits m) l
      → IsMux (record m' { connections = l })
  moved-IsMux m m' l i s b a = record {
    port_fits = b;
    silent = λ k h j. s.1 k j ∙ i.silent k (omega (arith, s.0)) j;
    counted = map-All (Fits m) (Fits m') (λ e. IsCounted-Same m m' e i.port_fits s) l a;
  }

  pub sent-IsMux : (m m' : UsbMux) (local : ℕ) → IsMux m → IsSent m local 0 m' → IsMux m'
  sent-IsMux m m' local i s =
      moved-IsMux m m' m'.connections i (empty-Same m m' local s) (omega (arith, s.1, i.port_fits))
        (subst (All (Fits m)) (sym s.0) i.counted)

  pub removed-IsMux : (m : UsbMux) (local : ℕ) → IsMux m → IsMux (without_connection m local)
  removed-IsMux m local i = record {
    port_fits = i.port_fits;
    silent = i.silent;
    counted = remove-All (Fits m) m.connections local i.counted;
  }

  pub put-IsMux :
      (m : UsbMux) (local : ℕ) (c : Connection)
      → IsMux m
      → Fits m (local, c)
      → IsMux (with_connection m local c)
  unfolding put
  put-IsMux m local c i f = record {
    port_fits = i.port_fits;
    silent = i.silent;
    counted = (f, remove-All (Fits m) m.connections local i.counted);
  }
