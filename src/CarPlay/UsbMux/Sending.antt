-- ===== src/CarPlay/UsbMux/Sending.antt =====
-- Opening a connection and writing its bytes keep what holds of the connections.
use mathlib.Core.Path.{subst}
use project_argo.Common.{
  ℕ, ◌+◌, ◌≤◌, ◌<◌, ◌≡◌, inl, inr, refl, sym, ◌∙◌, arith, List, [], true, false, Option, none, some,
  ltb, leb, ◌==◌, ◌||◌, if_holds, length, All,
}
use project_argo.CarPlay.{Result, ◌>>=◌}
use project_argo.CarPlay.UsbMux.{Packet, Connection}
use project_argo.CarPlay.UsbMux.Task.{
  get, remove, put, UsbMux, send, wrapping_add, with_connection, on_open, data_of, on_data,
  wrapping_sub,
}
use project_argo.CarPlay.UsbMux.Flow.{Holds, bind-Holds}
use project_argo.CarPlay.UsbMux.Written.{written, IsSent, send-IsSent}
use project_argo.CarPlay.UsbMux.Counted.{
  remove_others, map-All, get-All, Fits, Same, IsMux, empty-Same, moved-IsMux, sent-IsMux,
  put-IsMux,
}

module _ (Seen : Packet → Type 0) where
  -- A frame without payload, and what follows it.
  pub after_send :
      {A : Type 0} (Q : A → Type 0) (m : UsbMux) (local : ℕ) (c : Connection) (flags : ℕ)
      (next : UsbMux → Result A)
      → local < 65536
      → IsMux Seen m
      → ((m' : UsbMux) → IsMux Seen m' → Same Seen m m' → Holds Q (next m'))
      → Holds Q (send m local c flags [] >>= next)
  after_send Q m local c flags next h i k =
      bind-Holds (IsSent m local 0) Q (send m local c flags []) next
        (send-IsSent m local c flags [] h)
        (λ m' s. k m' (sent-IsMux Seen m m' local i s) (empty-Same Seen m m' local s))

  pub on_open-IsMux :
      (m : UsbMux) (remote tasks : ℕ) → IsMux Seen m → Holds (IsMux Seen) (on_open m remote tasks)
  unfolding on_open
  on_open-IsMux m remote tasks i =
      let full = leb 4 (length m.connections) || leb 9 tasks || m.port == 65535 in
      let m1 : UsbMux = record m { port = m.port + 1 } in
      let c : Connection = record {
        remote = remote;
        sent = 0;
        received = 0;
        acknowledged = 0;
        is_opening = true;
        delivered = [];
      } in
      if_holds (Holds (IsMux Seen)) full _ _ (λ _. i)
        (λ f.
          let room : m.port + 1 ≤ 65535 = below (i.port_fits) f in
          let i1 : IsMux Seen m1 =
            moved-IsMux Seen m m1 m.connections i (omega arith, λ l h. refl) room i.counted in
          after_send (IsMux Seen) m1 m.port c 2 _ (omega arith) i1 (λ m' j s.
            put-IsMux Seen m' m.port c j (
              omega (arith, s.0),
              inl (refl, s.1 m.port (omega arith) ∙ i.silent m.port (omega arith) (omega arith)),
            )))
    where
      below :
          m.port ≤ 65535
          → (leb 4 (length m.connections) || leb 9 tasks || m.port == 65535) ≡ false
          → m.port + 1 ≤ 65535
      below h f = ground arith

  -- A connection that counts goes on counting when bytes are written for it.
  sent_counted :
      (m m' : UsbMux) (local : ℕ) (c : Connection) (n : ℕ)
      → IsMux Seen m
      → Fits Seen m (local, c)
      → c.is_opening ≡ false
      → IsSent m local n m'
      → Fits Seen m' (local, record c { sent = wrapping_add c.sent n })
  unfolding wrapping_add
  sent_counted m m' local c n i (h, inl (o, w)) f s = absurd cc
  sent_counted m m' local c n i (h, inr (o, w, k)) f s =
      let b = i.port_fits in
      let more : written local m'.output ≡ written local m.output + n =
        ground (arith, s.2 local (omega arith)) in
      (omega (arith, s.1), inr (o, omega (arith, w, more), k))

  data_sent-IsMux :
      (m m' : UsbMux) (local : ℕ) (c : Connection) (n : ℕ)
      → IsMux Seen m
      → Fits Seen m (local, c)
      → c.is_opening ≡ false
      → IsSent m local n m'
      → IsMux Seen (with_connection m' local (record c { sent = wrapping_add c.sent n }))
  unfolding put
  data_sent-IsMux m m' local c n i f o s = record {
    port_fits = omega (arith, s.1, i.port_fits);
    silent = λ l h j.
        let port_same = s.1 in
        let quiet = i.silent l (omega arith) j in let apart = f.0 in ground (arith, s.2 l j, quiet);
    counted = (
      sent_counted m m' local c n i f o s,
      subst (λ l. All (Fits Seen m') (remove l local)) (sym s.0)
          (map-All (λ e. Fits Seen m e × ((local == e.0) ≡ false)) (Fits Seen m') kept
            (remove m.connections local)
            (remove_others (Fits Seen m) m.connections local i.counted)),
    );
  }
    where
      kept : (e : ℕ × Connection) → Fits Seen m e × ((local == e.0) ≡ false) → Fits Seen m' e
      kept (k, d) ((h, inl (p, w)), g) =
          let b = i.port_fits in (omega (arith, s.1), inl (p, ground (arith, s.2 k (omega arith))))
      kept (k, d) ((h, inr (p, w, q)), g) =
          let b = i.port_fits in
          let same : written k m'.output ≡ written k m.output =
            ground (arith, s.2 k (omega arith)) in
          (omega (arith, s.1), inr (p, omega (arith, w, same), q))

  pub on_data-IsMux :
      (m : UsbMux) (local : ℕ) (b : List ℕ) → IsMux Seen m → Holds (IsMux Seen) (on_data m local b)
  unfolding on_data
  on_data-IsMux m local b i = go (get m.connections local) refl
    where
      go :
          (q : Option Connection)
          → get m.connections local ≡ q
          → Holds (IsMux Seen) (data_of m local b q)
      go none e = i
      go (some c) e =
          let f = get-All (Fits Seen m) m.connections local c i.counted e in
          let port_fits = i.port_fits in
          if_holds (Holds (IsMux Seen))
            (c.is_opening || ltb 131072 (wrapping_sub c.sent c.acknowledged)) _ _ (λ _. tt)
            (λ o.
              bind-Holds (IsSent m local (length b)) (IsMux Seen) (send m local c 16 b) _
                (send-IsSent m local c 16 b (omega (arith, f.0)))
                (λ m' s. data_sent-IsMux m m' local c (length b) i f (ground arith) s))
