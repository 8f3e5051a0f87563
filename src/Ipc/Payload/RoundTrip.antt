-- ===== src/Ipc/Payload/RoundTrip.antt =====
-- A payload is read back field by field as it was written.
use project_argo.Common.{
  ℕ, ◌≤◌, ◌<◌, ◌≡◌, refl, sym, ap, ◌∙◌, List, [], ◌∷◌, ◌++◌, append-nil, append_assoc, map, ==_refl,
  Bool, true, Option, none, some, arith, All, length, length-append, byte_at, be16_bytes,
  be32_bytes, be16-be16_bytes, be32-be32_bytes, take-length, drop-length,
}
use project_argo.Ipc.Frames.{Encoded, encoded, refused}
use project_argo.Ipc.Payload.{
  write_u8, write_u16, write_u32, write_string, PayloadReader, new, get, read_u8, read_u16,
  read_u32, read_string, is_done,
}

pub data Field : Type 0 where
  u8 u16 u32 : ℕ → Field
  string : List ℕ → Field

unfoldable pub write : List ℕ → Field → Encoded
write bytes (u8 v) = encoded (write_u8 bytes v)
write bytes (u16 v) = encoded (write_u16 bytes v)
write bytes (u32 v) = encoded (write_u32 bytes v)
write bytes (string s) = write_string bytes s

abbrev then_write : Encoded → (List ℕ → Encoded) → Encoded
then_write (encoded bytes) k = k bytes
then_write (refused e) k = refused e

-- Writing fields one after another.
unfoldable pub write_all : List ℕ → List Field → Encoded
write_all bytes [] = encoded bytes
write_all bytes (f ∷ fs) = then_write (write bytes f) (λ b. write_all b fs)

abbrev pub field_bytes : Field → List ℕ
field_bytes (u8 v) = v ∷ []
field_bytes (u16 v) = be16_bytes v
field_bytes (u32 v) = be32_bytes v
field_bytes (string s) = be16_bytes (length s) ++ s

-- `bytes` with the reader just before `back`, behind `front`.
abbrev pub at : List ℕ → List ℕ → PayloadReader
at front back = record { bytes = front ++ back; offset = length front }

get-at :
    (front mid back : List ℕ) (n : ℕ)
    → n ≡ length mid
    → get n (at front (mid ++ back)) ≡ some (mid, at (front ++ mid) back)
unfolding get
get-at front mid back n e = ground (
  arith,
  length-append front (mid ++ back),
  length-append mid back,
  length-append front mid,
  append_assoc front mid back,
  drop-length front (mid ++ back) (length front),
  take-length mid back n,
)

-- What a field must be to be read back: it fits its width, and a text is valid UTF-8.
abbrev pub IsField : (List ℕ → Bool) → Field → Type 0
IsField is_utf8 (u8 v) = v < 256
IsField is_utf8 (u16 v) = v < 65536
IsField is_utf8 (u32 v) = v < 4294967296
IsField is_utf8 (string s) = is_utf8 s ≡ true

pub data Shape : Type 0 where
  a_u8 a_u16 a_u32 a_string : Shape

unfoldable pub shape : Field → Shape
shape (u8 v) = a_u8
shape (u16 v) = a_u16
shape (u32 v) = a_u32
shape (string s) = a_string

abbrev tagged {ℓ} :
    {A : Type ℓ} → (A → Field) → Option (A × PayloadReader) → Option (Field × PayloadReader)
tagged f none = none
tagged f (some (a, r)) = some (f a, r)

abbrev and_read :
    Option (Field × PayloadReader)
    → (PayloadReader → Option (List Field × PayloadReader))
    → Option (List Field × PayloadReader)
and_read none k = none
and_read (some (f, r)) k = elim (k r) [ none ↦ none | some (fs, q) ↦ some (f ∷ fs, q) ]

module _ (is_utf8 : List ℕ → Bool) where
  unfoldable pub read : Shape → PayloadReader → Option (Field × PayloadReader)
  read a_u8 r = tagged u8 (read_u8 r)
  read a_u16 r = tagged u16 (read_u16 r)
  read a_u32 r = tagged u32 (read_u32 r)
  read a_string r = tagged string (read_string is_utf8 r)

  -- Reading one field after another.
  unfoldable pub read_all : List Shape → PayloadReader → Option (List Field × PayloadReader)
  read_all [] r = some ([], r)
  read_all (s ∷ ss) r = and_read (read s r) (λ q. read_all ss q)

abbrev pub IsShort : Field → Type 0
IsShort (u8 v) = Unit {0}
IsShort (u16 v) = Unit {0}
IsShort (u32 v) = Unit {0}
IsShort (string s) = length s ≤ 4096

abbrev pub all_bytes : List Field → List ℕ
all_bytes [] = []
all_bytes (f ∷ fs) = field_bytes f ++ all_bytes fs

write-encoded :
    (bytes bs : List ℕ) (f : Field)
    → write bytes f ≡ encoded bs
    → (bs ≡ bytes ++ field_bytes f) × IsShort f
unfolding write write_u8 write_u16 write_u32 write_string
write-encoded bytes bs (u8 v) e = (cc, tt)
write-encoded bytes bs (u16 v) e = (cc, tt)
write-encoded bytes bs (u32 v) e = (cc, tt)
write-encoded bytes bs (string s) e = ground (arith, append_assoc bytes (be16_bytes (length s)) s)

write-IsShort :
    (f : Field) (bytes : List ℕ) → IsShort f → write bytes f ≡ encoded (bytes ++ field_bytes f)
unfolding write write_u8 write_u16 write_u32 write_string
write-IsShort (u8 v) bytes h = refl
write-IsShort (u16 v) bytes h = refl
write-IsShort (u32 v) bytes h = refl
write-IsShort (string s) bytes h = ground (arith, append_assoc bytes (be16_bytes (length s)) s)

written :
    (bytes bs : List ℕ) (f : Field) (fs : List Field)
    → then_write (write bytes f) (λ b. write_all b fs) ≡ encoded bs
    → (b : List ℕ) × (write bytes f ≡ encoded b) × (write_all b fs ≡ encoded bs)
written bytes bs f fs e = ground arith

write_all-encoded :
    (fs : List Field) (bytes bs : List ℕ)
    → write_all bytes fs ≡ encoded bs
    → (bs ≡ bytes ++ all_bytes fs) × All IsShort fs
unfolding write_all
write_all-encoded [] bytes bs e = ground (arith, append-nil bytes)
write_all-encoded (f ∷ fs) bytes bs e =
    let (b, p, q) = written bytes bs f fs e in
    let (u, short) = write-encoded bytes b f p in
    let (w, shorts) = write_all-encoded fs b bs q in
    (
      w ∙ ap (λ t. t ++ all_bytes fs) u ∙ append_assoc bytes (field_bytes f) (all_bytes fs),
      (short, shorts),
    )

pub write_all-IsShort :
    (fs : List Field) (bytes : List ℕ)
    → All IsShort fs
    → write_all bytes fs ≡ encoded (bytes ++ all_bytes fs)
unfolding write_all
write_all-IsShort [] bytes h = ap encoded (sym (append-nil bytes))
write_all-IsShort (f ∷ fs) bytes h =
    ap (λ t. then_write t (λ b. write_all b fs)) (write-IsShort f bytes h.0)
    ∙ write_all-IsShort fs (bytes ++ field_bytes f) h.1
    ∙ ap encoded (append_assoc bytes (field_bytes f) (all_bytes fs))

byte_at-front : (front back : List ℕ) (v : ℕ) → byte_at (front ++ (v ∷ back)) (length front) ≡ v
byte_at-front [] back v = refl
byte_at-front (x ∷ front) back v = byte_at-front front back v

pub read_u8-at :
    (front back : List ℕ) (v : ℕ)
    → read_u8 (at front (v ∷ back)) ≡ some (v, at (front ++ (v ∷ [])) back)
unfolding read_u8
read_u8-at front back v = ground (
  arith,
  byte_at-front front back v,
  length-append front (v ∷ back),
  length-append front (v ∷ []),
  append_assoc front (v ∷ []) back,
)

pub read_u16-at :
    (front back : List ℕ) (v : ℕ)
    → v < 65536
    → read_u16 (at front (be16_bytes v ++ back)) ≡ some (v, at (front ++ be16_bytes v) back)
unfolding read_u16
read_u16-at front back v h =
    rw (get-at front (be16_bytes v) back 2 (omega arith), be16-be16_bytes v h) refl

read_u32-at :
    (front back : List ℕ) (v : ℕ)
    → v < 4294967296
    → read_u32 (at front (be32_bytes v ++ back)) ≡ some (v, at (front ++ be32_bytes v) back)
unfolding read_u32
read_u32-at front back v h =
    rw (get-at front (be32_bytes v) back 4 (omega arith), be32-be32_bytes v h) refl

module _ (is_utf8 : List ℕ → Bool) where
  read_string-at :
      (front back s : List ℕ)
      → is_utf8 s ≡ true
      → length s ≤ 4096
      → read_string is_utf8 (at front (be16_bytes (length s) ++ (s ++ back)))
        ≡ some (s, at ((front ++ be16_bytes (length s)) ++ s) back)
  unfolding read_string
  read_string-at front back s u h =
      rw
        (
          read_u16-at front (s ++ back) (length s) (omega arith),
          get-at (front ++ be16_bytes (length s)) s back (length s) refl,
          u,
        )
        refl

  read-at :
      (front back : List ℕ) (f : Field)
      → IsField is_utf8 f
      → IsShort f
      → read is_utf8 (shape f) (at front (field_bytes f ++ back))
        ≡ some (f, at (front ++ field_bytes f) back)
  unfolding read shape
  read-at front back (u8 v) i h = rw (read_u8-at front back v) refl
  read-at front back (u16 v) i h = rw (read_u16-at front back v i) refl
  read-at front back (u32 v) i h = rw (read_u32-at front back v i) refl
  read-at front back (string s) i h =
      rw (read_string-at front back s i h) (rw (append_assoc front (be16_bytes (length s)) s) refl)

  read_all-at :
      (front : List ℕ) (fs : List Field)
      → All (IsField is_utf8) fs
      → All IsShort fs
      → read_all is_utf8 (map shape fs) (at front (all_bytes fs))
        ≡ some (fs, at (front ++ all_bytes fs) [])
  unfolding read_all
  read_all-at front [] i h = rw (append-nil front) (rw (append-nil front) refl)
  read_all-at front (f ∷ fs) i h = rw (read-at front (all_bytes fs) f i.0 h.0) (
      rw (read_all-at (front ++ field_bytes f) fs i.1 h.1)
        (rw (append_assoc front (field_bytes f) (all_bytes fs)) refl))

-- Fields that fit their widths and texts that are valid UTF-8, written one after another without
-- an error, are read back in order by the reads of the same kinds, which end at the end of the
-- payload.
pub read_all-write_all :
    (is_utf8 : List ℕ → Bool) (fs : List Field) (bytes : List ℕ)
    → All (IsField is_utf8) fs
    → write_all [] fs ≡ encoded bytes
    → (r : PayloadReader) × (read_all is_utf8 (map shape fs) (new bytes) ≡ some (fs, r))
      × (is_done r ≡ true)
unfolding new is_done
read_all-write_all is_utf8 fs bytes i e =
    let (p, h) = write_all-encoded fs [] bytes e in
    (
      at (all_bytes fs) [],
      rw p (read_all-at is_utf8 [] fs i h),
      rw (append-nil (all_bytes fs)) (==_refl (length (all_bytes fs))),
    )
