-- ===== src/Metadata/Snapshot/Sent.antt =====
-- The metadata messages of a session one after another, and the message to the interface that
-- they lead to.
use mathlib.Core.List.{flatten}
use project_argo.Common.{
  ℕ, ◌+◌, ◌≤◌, ◌≡◌, refl, sym, ap, ◌∙◌, List, [], ◌∷◌, ◌++◌, append-nil, append_assoc, Option, none,
  some, Bool, All, length, length-append, arith, be16_bytes, be32_bytes,
}
use project_argo.Ipc.Frames.{encoded}
use project_argo.Ipc.Payload.RoundTrip.{
  Field, u8, u32, string, IsShort, field_bytes, all_bytes, write_all-IsShort,
}
use project_argo.Metadata.Wire.{Result, wrong, right}
use project_argo.Metadata.Parse.{Update, parse}
use project_argo.Metadata.Snapshot.{Snapshot, default_snapshot, apply}
use project_argo.Metadata.Snapshot.Stable.{apply-content}
use project_argo.Metadata.Snapshot.Message.{
  u64_fields, flag, optional_string, optional_u64, path_of, message_fields, message,
}
use project_argo.Metadata.Snapshot.Bounded.{
  IsText, IsBounded, IsUpdate, Satisfies, updated-IsBounded, parse-IsUpdate,
}

-- A message of the phone, with the clock and the outcome of writing its picture.
pub record Received : Type 0 where
  pub channel : ℕ
  pub id : ℕ
  pub body : List ℕ
  pub now : ℕ
  pub file : Option (List ℕ)

-- The path of a picture fits a text of the interface.
abbrev pub IsReceived : Received → Type 0
IsReceived r = IsText 4096 r.file

abbrev pub apply_result : Received → Snapshot → Result Update → Snapshot
apply_result r s (wrong e) = s
apply_result r s (right u) = (apply r.now r.file s u).0

module _ (is_utf8 : List ℕ → Bool) (trim : List ℕ → List ℕ) where
  -- A message that is refused is passed over, and any other is applied.
  unfoldable pub receive : Received → Snapshot → Snapshot
  receive r s = apply_result r s (parse is_utf8 trim r.channel r.id r.body)

  unfoldable pub receive_all : List Received → Snapshot → Snapshot
  receive_all [] s = s
  receive_all (r ∷ rs) s = receive_all rs (receive r s)

-- Fields that are written without an error to at most `n` bytes.
abbrev IsPiece : ℕ → List Field → Type 0
IsPiece n fs = All IsShort fs × (length (all_bytes fs) ≤ n)

all_bytes-append : (a b : List Field) → all_bytes (a ++ b) ≡ all_bytes a ++ all_bytes b
all_bytes-append [] b = refl
all_bytes-append (f ∷ a) b =
    ap (λ t. field_bytes f ++ t) (all_bytes-append a b)
    ∙ sym (append_assoc (field_bytes f) (all_bytes a) (all_bytes b))

All-append : (a b : List Field) → All IsShort a → All IsShort b → All IsShort (a ++ b)
All-append [] b h g = g
All-append (f ∷ a) b h g = (h.0, All-append a b h.1 g)

IsPiece-append : (n m : ℕ) (a b : List Field) → IsPiece n a → IsPiece m b → IsPiece (n + m) (a ++ b)
IsPiece-append n m a b h g = (
  All-append a b h.0 g.0,
  rw (all_bytes-append a b, length-append (all_bytes a) (all_bytes b)) (omega (arith, h.1, g.1)),
)

optional_string-IsPiece :
    (n : ℕ) (t : Option (List ℕ)) → n ≤ 4096 → IsText n t → IsPiece (3 + n) (optional_string t)
unfolding optional_string
optional_string-IsPiece n none b h = ((tt, tt), omega arith)
optional_string-IsPiece n (some t) b h = ((tt, (omega arith, tt)), ground (arith, append-nil t))

optional_u64-IsPiece : (v : Option ℕ) → IsPiece 9 (optional_u64 v)
unfolding optional_u64 u64_fields
optional_u64-IsPiece none = ((tt, tt), omega arith)
optional_u64-IsPiece (some v) = ((tt, (tt, (tt, tt))), omega arith)

abbrev AreFit : List ℕ → List (List Field) → Type 0
AreFit [] [] = Unit {0}
AreFit [] (p ∷ ps) = ⊥
AreFit (n ∷ ns) [] = ⊥
AreFit (n ∷ ns) (p ∷ ps) = IsPiece n p × AreFit ns ps

abbrev total : List ℕ → ℕ
total [] = 0
total (n ∷ ns) = n + total ns

flatten-AreFit :
    (ns : List ℕ) (ps : List (List Field)) → AreFit ns ps → IsPiece (total ns) (flatten ps)
unfolding flatten
flatten-AreFit [] [] h = (tt, omega arith)
flatten-AreFit [] (p ∷ ps) h = absurd h
flatten-AreFit (n ∷ ns) [] h = absurd h
flatten-AreFit (n ∷ ns) (p ∷ ps) h =
    IsPiece-append n (total ns) p (flatten ps) h.0 (flatten-AreFit ns ps h.1)

names-IsPiece :
    (session device : List ℕ) (revision : ℕ)
    → length session ≤ 4096
    → length device ≤ 4096
    → IsPiece 8200 (string session ∷ string device ∷ u32 revision ∷ [])
names-IsPiece session device revision h g =
    let behind = device ++ be32_bytes revision in
    (
      (h, (g, (tt, tt))),
      omega (
        arith,
        length-append session (be16_bytes (length device) ++ behind),
        length-append device (be32_bytes revision),
      ),
    )

-- How many bytes the parts of a message can have.
abbrev limits : List ℕ
limits = 8200 ∷ 8 ∷ 1 ∷ 1027 ∷ 1027 ∷ 1027 ∷ 1 ∷ 1027 ∷ 9 ∷ 9 ∷ 1027 ∷ 1027 ∷ 1027 ∷ 2 ∷ 4099 ∷ []

text-IsPiece : (t : Option (List ℕ)) → IsText 1024 t → IsPiece 1027 (optional_string t)
text-IsPiece t k = optional_string-IsPiece 1024 t (omega arith) k

message-IsPiece :
    (session device : List ℕ) (s : Snapshot)
    → length session ≤ 4096
    → length device ≤ 4096
    → IsBounded s.content
    → IsPiece (total limits) (message_fields session device s)
unfolding message_fields
message-IsPiece session device s h g i =
    let (title, artist, album, application, name, maker, model, artwork) = i in
    let d = s.content in
    let byte : (b : ℕ) → IsPiece 1 (u8 b ∷ []) = λ b. ((tt, tt), omega arith) in
    flatten-AreFit limits _ (
      names-IsPiece session device s.revision h g,
      (
        unfold u64_fields in ((tt, (tt, tt)), omega arith),
        (
          byte (flag d.media_received),
          (
            text-IsPiece d.title title,
            (
              text-IsPiece d.artist artist,
              (
                text-IsPiece d.album album,
                (
                  byte d.playback,
                  (
                    text-IsPiece d.application application,
                    (
                      optional_u64-IsPiece d.position_ms,
                      (
                        optional_u64-IsPiece d.duration_ms,
                        (
                          text-IsPiece d.device_name name,
                          (
                            text-IsPiece d.manufacturer maker,
                            (
                              text-IsPiece d.model model,
                              (
                                ((tt, (tt, tt)), omega arith),
                                (
                                  optional_string-IsPiece 4096 (path_of d.artwork) (omega arith)
                                      artwork,
                                  tt,
                                ),
                              ),
                            ),
                          ),
                        ),
                      ),
                    ),
                  ),
                ),
              ),
            ),
          ),
        ),
      ),
    )

module _ (is_utf8 : List ℕ → Bool) (trim : List ℕ → List ℕ)
    (trim_shortens : (s : List ℕ) → length (trim s) ≤ length s) where
  receive-IsBounded :
      (r : Received) (s : Snapshot)
      → IsReceived r
      → IsBounded s.content
      → IsBounded (receive is_utf8 trim r s).content
  unfolding receive
  receive-IsBounded r s h i =
      go (parse is_utf8 trim r.channel r.id r.body)
        (parse-IsUpdate is_utf8 trim trim_shortens r.channel r.id r.body)
    where
      go : (q : Result Update) → Satisfies IsUpdate q → IsBounded (apply_result r s q).content
      go (wrong e) u = i
      go (right q) u =
          rw (apply-content r.now r.file s q) (updated-IsBounded r.file s.content q h u i)

  receive_all-IsBounded :
      (rs : List Received) (s : Snapshot)
      → All IsReceived rs
      → IsBounded s.content
      → IsBounded (receive_all is_utf8 trim rs s).content
  unfolding receive_all
  receive_all-IsBounded [] s h i = i
  receive_all-IsBounded (r ∷ rs) s h i =
      receive_all-IsBounded rs (receive is_utf8 trim r s) h.1 (receive-IsBounded r s h.0 i)

-- Whatever messages a phone has sent, in any order and valid or not, the snapshot they lead to is
-- sent to the interface: `message` never refuses, as long as the names of session and device and
-- the paths of pictures have at most 4096 bytes and trimming never lengthens a text, and its
-- payload stays below the limit of a frame.
pub message-receive_all :
    (is_utf8 : List ℕ → Bool) (trim : List ℕ → List ℕ) (session device : List ℕ)
    (rs : List Received)
    → ((s : List ℕ) → length (trim s) ≤ length s)
    → length session ≤ 4096
    → length device ≤ 4096
    → All IsReceived rs
    → (payload : List ℕ) × (message session device (receive_all is_utf8 trim rs default_snapshot)
        ≡ encoded payload)
      × (length payload ≤ 65536)
unfolding message
message-receive_all is_utf8 trim session device rs short h g r =
    let s = receive_all is_utf8 trim rs default_snapshot in
    let i = message-IsPiece session device s h g (
      receive_all-IsBounded is_utf8 trim short rs default_snapshot r
        (unfold path_of in (tt, tt, tt, tt, tt, tt, tt, tt))) in
    (
      all_bytes (message_fields session device s),
      write_all-IsShort (message_fields session device s) [] i.0,
      omega (arith, i.1),
    )
