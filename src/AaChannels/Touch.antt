-- ===== src/AaChannels/Touch.antt =====
-- aa_channels.rs, `Channels::media_key` and `Channels::touch`. The contacts are kept in the order of
-- their pointers, as in the map of the source. The arithmetic on `f32` is a parameter of a call:
-- whether the point lies in the unit square, and where it falls on an axis of so many steps.
use project_argo.Common.{
  ℕ, zero, suc, ◌+◌, ◌-◌, List, [], ◌∷◌, ◌++◌, map, Bool, true, false, Option, none, some, not, ltb,
  leb, ◌==◌, ◌||◌, if◌then◌else◌, length,
}
use project_argo.AaChannels.Proto.{Field, numeric, bytewise, build}
use project_argo.AaChannels.Display.{content_width, content_height}
use project_argo.AaChannels.State.{Reply, new_reply, Contact, Channels, contains, lookup, remove}

pub data InputError : Type 0 where
  input_not_ready unsupported_key invalid_touch : InputError

pub data KeyAnswer : Type 0 where
  keys : Reply → Reply → KeyAnswer
  no_keys : InputError → KeyAnswer

abbrev pub flag : Bool → ℕ
flag true = 1
flag false = 0

-- The report of a press or of a release, whose timestamp is one later.
unfoldable pub key_report : ℕ → ℕ → Bool → Reply
key_report code timestamp pressed =
    let event =
      build (numeric 1 code ∷ numeric 2 (flag pressed) ∷ numeric 3 0 ∷ numeric 4 0 ∷ []) in
    new_reply 8 0x8001 (
      build (
        numeric 1 (timestamp + flag (not pressed))
        ∷ bytewise 4 (build (bytewise 1 event ∷ []))
        ∷ []))

unfoldable pub media_key : Channels → ℕ → ℕ → KeyAnswer
media_key s code timestamp =
    if not (contains s.open_channels 8)
    then no_keys input_not_ready
    else if not (code == 87 || code == 88 || code == 126 || code == 127)
    then no_keys unsupported_key
    else keys (key_report code timestamp true) (key_report code timestamp false)

abbrev pub Pointers : Type 0
Pointers = List (ℕ × Contact)

-- `pointers.insert`: the entries stay sorted.
unfoldable pub insert_pointer : Pointers → ℕ → Contact → Pointers
insert_pointer [] pointer contact = (pointer, contact) ∷ []
insert_pointer ((p, c) ∷ rest) pointer contact =
    let later = insert_pointer rest pointer contact in
    if ltb pointer p
    then (pointer, contact) ∷ (p, c) ∷ rest
    else if p == pointer
    then (pointer, contact) ∷ rest
    else (p, c) ∷ later

-- `pointers.values().any(|p| p.0 == id)`.
unfoldable pub is_taken : Pointers → ℕ → Bool
is_taken [] id = false
is_taken ((p, c) ∷ rest) id = c.wire_id == id || is_taken rest id

-- The first number from `id` on, of those that are left, which no contact has.
unfoldable pub free_id : ℕ → ℕ → Pointers → Option ℕ
free_id zero id pointers = none
free_id (suc left) id pointers =
    let later = free_id left (id + 1) pointers in if is_taken pointers id then later else some id

-- The number of a contact on the wire: its own, or the first free one of 0 to 9. None stands for
-- the panic of `expect`.
unfoldable pub wire_id_of : Pointers → Option Contact → Option ℕ
wire_id_of pointers none = free_id 10 0 pointers
wire_id_of pointers (some contact) = some contact.wire_id

unfoldable pub contact_field : ℕ × Contact → Field
contact_field (id, c) =
    bytewise 1 (build (numeric 1 c.x ∷ numeric 2 c.y ∷ numeric 3 c.wire_id ∷ []))

-- The place of a pointer among the contacts.
unfoldable pub index_of : Pointers → ℕ → ℕ
index_of [] pointer = 0
index_of ((p, c) ∷ rest) pointer =
    let later = index_of rest pointer in if p == pointer then 0 else later + 1

unfoldable pub action_of : ℕ → ℕ → ℕ
action_of phase contacts =
    if phase == 0
    then if ltb 1 contacts then 5 else 0
    else if phase == 1
    then 2
    else if phase == 2
    then if ltb 1 contacts then 6 else 1
    else 3

-- A cancel ends all contacts, and an up the one of the pointer.
unfoldable pub released : ℕ → ℕ → Pointers → Pointers
released phase pointer pointers =
    if phase == 3 then [] else if phase == 2 then remove pointers pointer else pointers

pub data TouchAnswer : Type 0 where
  touched : Channels → Reply → TouchAnswer
  ignored : Channels → TouchAnswer
  refused : Channels → InputError → TouchAnswer
  panics : TouchAnswer

unfoldable pub touch_reply : Pointers → ℕ → ℕ → ℕ → Reply
touch_reply pointers pointer phase timestamp =
    let touch = build (
      map contact_field pointers
      ++ (numeric 2 (index_of pointers pointer)
          ∷ numeric 3 (action_of phase (length pointers))
          ∷ [])) in
    new_reply 8 0x8001 (build (numeric 1 timestamp ∷ bytewise 3 touch ∷ []))

-- A contact moved to a point, with its number on the wire.
unfoldable pub report : Channels → ℕ → ℕ → ℕ × ℕ → ℕ → Option ℕ → TouchAnswer
report s pointer phase point timestamp none = panics
report s pointer phase point timestamp (some wire_id) =
    let contact : Contact = record { wire_id = wire_id; x = point.0; y = point.1 } in
    let pointers = insert_pointer s.pointers pointer contact in
    touched
      (record s {
        reported_large_pointer = s.reported_large_pointer || ltb 31 pointer;
        pointers = released phase pointer pointers;
      })
      (touch_reply pointers pointer phase timestamp)

abbrev pub is_held : Option Contact → Bool
is_held none = false
is_held (some contact) = true

-- A press of a new pointer counts while there are fewer than ten contacts, and anything else only
-- for a pointer that is held.
abbrev pub is_passed_over : Channels → ℕ → ℕ → Bool
is_passed_over s pointer phase =
    if phase == 0
    then leb 10 (length s.pointers) || is_held (lookup s.pointers pointer)
    else not (is_held (lookup s.pointers pointer))

unfoldable pub touch : (at_x at_y : ℕ → ℕ) → Bool → Channels → ℕ → ℕ → ℕ → TouchAnswer
touch at_x at_y in_square s pointer phase timestamp =
    let point : ℕ × ℕ = (at_x (content_width s.display - 1), at_y (content_height s.display - 1)) in
    if not (contains s.open_channels 8)
    then ignored s
    else if not in_square || ltb 3 phase
    then refused s invalid_touch
    else if is_passed_over s pointer phase
    then ignored s
    else report s pointer phase point timestamp (wire_id_of s.pointers (lookup s.pointers pointer))
