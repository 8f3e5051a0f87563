-- ===== src/CarPlay/UsbMux/Flow.antt =====
-- How much a connection may have sent that is not acknowledged.
use mathlib.Core.Path.{subst}
use project_argo.Common.{
  ℕ, ◌+◌, ◌%◌, ◌≤◌, ◌<◌, ◌≡◌, refl, sym, ap, arith, List, [], ◌∷◌, ◌++◌, true, false, Option, none,
  some, ltb, leb, ◌==◌, if_holds, Bool-cases, inl, inr, length, All, bit_and,
}
use project_argo.CarPlay.{Result, err, ok, ◌>>=◌}
use project_argo.CarPlay.UsbMux.{envelope, Packet, Connection, encode}
use project_argo.CarPlay.UsbMux.Task.{
  PipeWrite, written_out, late, broken, write_payload, Connections, get, remove, put, UsbMux, send,
  wrapping_add, wrapping_sub, acknowledge, take_payload,
}

-- What holds of an answer if it is no error.
abbrev pub Holds {ℓ} : {A : Type ℓ} → (A → Type 0) → Result A → Type 0
Holds P (err e) = Unit {0}
Holds P (ok a) = P a

pub bind-Holds {ℓ} :
    {A B : Type ℓ} (P : A → Type 0) (Q : B → Type 0) (r : Result A) (next : A → Result B)
    → Holds P r
    → ((a : A) → P a → Holds Q (next a))
    → Holds Q (r >>= next)
bind-Holds P Q (err e) next h k = tt
bind-Holds P Q (ok a) next h k = k a h

-- At most 131072 bytes and one read of 16384 are on their way.
abbrev pub IsFlow : Connection → Type 0
IsFlow c =
    (c.sent < 4294967296)
    × (c.acknowledged < 4294967296)
    × (wrapping_sub c.sent c.acknowledged ≤ 147456)

abbrev pub AreFlow : Connections → Type 0
AreFlow l = All (λ e. IsFlow e.1) l

abbrev pub Keeps : UsbMux → UsbMux → Type 0
Keeps m m' = m'.connections ≡ m.connections

pub send-Keeps :
    (m : UsbMux) (local : ℕ) (c : Connection) (flags : ℕ) (b : List ℕ)
    → Holds (Keeps m) (send m local c flags b)
unfolding send
send-Keeps m local c flags b = go (envelope 6 m.sequence_number (encode local c flags b))
  where
    go :
        (q : Result (List ℕ))
        → Holds (Keeps m) (
            q >>= λ message. ok (record m {
              sequence_number = (m.sequence_number + 1) % 65536;
              output = m.output ++ (message ∷ []);
            }))
    go (err e) = tt
    go (ok message) = refl

some_or : Connection → Option Connection → Connection
some_or d none = d
some_or d (some c) = c

pub get-IsFlow :
    (l : Connections) (local : ℕ) (c : Connection) → AreFlow l → get l local ≡ some c → IsFlow c
unfolding get some_or
get-IsFlow [] local c a e = absurd cc
get-IsFlow ((k, d) ∷ l) local c a e = elim (Bool-cases (k == local)) [
  | inl t ↦ let found : some d ≡ some c = rw t at e in subst IsFlow (ap (some_or d) found) a.0
  | inr f ↦ let later : get l local ≡ some c = rw f at e in get-IsFlow l local c a.1 later
]

pub remove-AreFlow : (l : Connections) (local : ℕ) → AreFlow l → AreFlow (remove l local)
unfolding remove
remove-AreFlow [] local a = tt
remove-AreFlow ((k, d) ∷ l) local a =
    if_holds AreFlow (k == local) _ _ (λ _. remove-AreFlow l local a.1)
      (λ _. (a.0, remove-AreFlow l local a.1))

pub put-AreFlow :
    (l : Connections) (local : ℕ) (c : Connection) → AreFlow l → IsFlow c → AreFlow (put l local c)
unfolding put
put-AreFlow l local c a i = (i, remove-AreFlow l local a)

-- An acknowledgement of bytes that are on their way leaves fewer of them.
wrapping_sub_released :
    (s a p : ℕ)
    → s < 4294967296
    → a < 4294967296
    → p < 4294967296
    → wrapping_sub p a ≤ wrapping_sub s a
    → wrapping_sub s p ≤ wrapping_sub s a
unfolding wrapping_sub
wrapping_sub_released s a p hs ha hp h = omega arith

wrapping_sub_sent :
    (s a n : ℕ)
    → s < 4294967296
    → a < 4294967296
    → wrapping_sub s a ≤ 131072
    → n ≤ 16384
    → wrapping_sub (wrapping_add s n) a ≤ 147456
unfolding wrapping_sub wrapping_add
wrapping_sub_sent s a n hs ha h hn = omega arith

pub acknowledge-IsFlow :
    (c : Connection) (p : Packet) → p.ack < 4294967296 → IsFlow c → Holds IsFlow (acknowledge c p)
unfolding acknowledge
acknowledge-IsFlow c p b i =
    let fits = leb (wrapping_sub p.ack c.acknowledged) (wrapping_sub c.sent c.acknowledged) in
    let fewer : fits ≡ true → IsFlow (record c { acknowledged = p.ack }) = λ t.
      let less = wrapping_sub_released c.sent c.acknowledged p.ack i.0 i.1 b (ground arith) in
      (i.0, b, omega (arith, less, i.2)) in
    if_holds (Holds IsFlow) (bit_and p.flags 16 == 0) _ _ (λ _. i)
      (λ _. if_holds (Holds IsFlow) fits (ok (record c { acknowledged = p.ack })) _ fewer (λ _. tt))

pub sent-IsFlow :
    (c : Connection) (n : ℕ)
    → ltb 131072 (wrapping_sub c.sent c.acknowledged) ≡ false
    → n ≤ 16384
    → IsFlow c
    → IsFlow (record c { sent = wrapping_add c.sent n })
unfolding wrapping_add
sent-IsFlow c n f h i =
    (omega arith, i.1, wrapping_sub_sent c.sent c.acknowledged n i.0 i.1 (ground arith) h)

write_payload-IsFlow :
    (c : Connection) (p : Packet) (pipe : PipeWrite)
    → IsFlow c
    → Holds IsFlow (write_payload c p pipe)
unfolding write_payload
write_payload-IsFlow c p written_out i = i
write_payload-IsFlow c p late i = tt
write_payload-IsFlow c p broken i = tt

pub take_payload-IsFlow :
    (c : Connection) (p : Packet) (pipe : PipeWrite)
    → IsFlow c
    → Holds IsFlow (take_payload c p pipe)
unfolding take_payload
take_payload-IsFlow c p pipe i =
    if_holds (Holds IsFlow) (p.sequence == c.received) _ _ (λ _. write_payload-IsFlow c p pipe i)
      (λ _.
        if_holds (Holds IsFlow) (wrapping_add p.sequence (length p.payload) == c.received) _ _
          (λ _. i) (λ _. tt))

abbrev pub IsMux : UsbMux → Type 0
IsMux m = AreFlow m.connections

-- A send and what is done with the connections then.
pub send-IsMux :
    (m : UsbMux) (local : ℕ) (c : Connection) (flags : ℕ) (b : List ℕ)
    (next : UsbMux → Result UsbMux)
    → ((m' : UsbMux) → AreFlow m'.connections → Holds IsMux (next m'))
    → IsMux m
    → Holds IsMux (send m local c flags b >>= next)
send-IsMux m local c flags b next h i =
    bind-Holds (Keeps m) IsMux (send m local c flags b) next (send-Keeps m local c flags b)
      (λ m' k. h m' (subst AreFlow (sym k) i))
