-- ===== src/Ipc/Examples.antt =====
-- Runs of the daemon's messages, and their theorems at concrete inputs.
use mathlib.Core.List.{flatten}
use project_argo.Common.{
  ℕ, ◌≤◌, ◌≡◌, refl, List, [], ◌∷◌, map, Bool, true, some, arith, All, length,
}
use project_argo.Common.Stream.Splitter.{records, fault, pushes, split_all, split_loop}
use project_argo.Ipc.Frames.{Message, encode, encoded, bad_magic, next_message, push}
use project_argo.Ipc.RoundTrip.{IsMessage, wire, pushes-wires}
use project_argo.Ipc.Payload.{
  PayloadReader, new, is_done, write_u8, write_u16, write_u64, write_string, string_payload,
}
use project_argo.Ipc.Payload.RoundTrip.{
  Field, u8, u16, string, write, write_all, shape, read_all, read_all-write_all,
}
use project_argo.Ipc.Queue.{BoundedQueue, Call, tries, latest, pops, run, push_each}
use project_argo.Ipc.Queue
use project_argo.Ipc.Queue.Bounds.{run-new-IsQueue}

-- The message of the source's tests.
abbrev hello : Message
hello = record { kind = 9; payload = 1 ∷ 2 ∷ 3 ∷ [] }

hello-IsMessage : IsMessage hello
hello-IsMessage = record { kind_fits = omega arith; payload_fits = omega arith }

abbrev cuts : List (List ℕ)
cuts =
    (0x41 ∷ 0x52 ∷ 0x47 ∷ 0x4f ∷ 0 ∷ []) ∷ (7 ∷ 0 ∷ 9 ∷ 0 ∷ 0 ∷ 0 ∷ 3 ∷ 1 ∷ 2 ∷ 3 ∷ 0x41 ∷ []) ∷ []

pushes-wires_example :
    All (λ m. encode m ≡ encoded (wire m)) (hello ∷ [])
    × (pushes push [] cuts ≡ (records (hello ∷ []), 0x41 ∷ []))
pushes-wires_example =
    pushes-wires (hello ∷ []) (0x41 ∷ []) cuts (hello-IsMessage, tt) (unfold next_message in refl)
      (omega arith) (unfold flatten in refl)

push_zeros : push [] (0 ∷ 0 ∷ 0 ∷ 0 ∷ 0 ∷ 0 ∷ 0 ∷ 0 ∷ 0 ∷ 0 ∷ 0 ∷ 0 ∷ []) ≡ (fault bad_magic, [])
unfolding push split_all split_loop next_message
push_zeros = refl

abbrev ascii : List ℕ → Bool
ascii bytes = true

abbrev fields : List Field
fields = u8 3 ∷ u16 42 ∷ string (112 ∷ 104 ∷ []) ∷ []

abbrev field_bytes : List ℕ
field_bytes = 3 ∷ 0 ∷ 42 ∷ 0 ∷ 2 ∷ 112 ∷ 104 ∷ []

fields_written : write_all [] fields ≡ encoded field_bytes
unfolding write_all write write_u8 write_u16 write_string
fields_written = refl

read_all-write_all_example :
    (r : PayloadReader) × (read_all ascii (map shape fields) (new field_bytes) ≡ some (fields, r))
    × (is_done r ≡ true)
read_all-write_all_example =
    read_all-write_all ascii fields field_bytes (omega arith, (omega arith, (refl, tt)))
      fields_written

u64_written : write_u64 [] 258 ≡ 0 ∷ 0 ∷ 0 ∷ 0 ∷ 0 ∷ 0 ∷ 1 ∷ 2 ∷ []
unfolding write_u64
u64_written = refl

text_payload : string_payload (65 ∷ []) ≡ encoded (0 ∷ 1 ∷ 65 ∷ [])
unfolding string_payload
text_payload = refl

abbrev two : BoundedQueue ℕ
two = record { values = []; capacity = 2 }

new-two : Queue.new 2 ≡ some two
unfolding Queue.new
new-two = refl

run-new-IsQueue_example :
    length (run two (tries 1 ∷ tries 2 ∷ tries 3 ∷ latest 4 ∷ pops ∷ [])).values ≤ 2
run-new-IsQueue_example =
    run-new-IsQueue 2 two (tries 1 ∷ tries 2 ∷ tries 3 ∷ latest 4 ∷ pops ∷ []) new-two
