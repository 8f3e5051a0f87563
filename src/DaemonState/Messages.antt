-- ===== src/DaemonState/Messages.antt =====
-- The messages on the wire, one for each notice, and what a client knows from them.
use project_argo.Common.{◌≡◌, List, [], ◌∷◌, ◌++◌}
use project_argo.Ipc.Frames
use project_argo.Ipc.Frames.{encoded}
use project_argo.DaemonState.Runtime.{Runtime}
use project_argo.DaemonState.Notices.{Notice}
use project_argo.DaemonState.Encoding.{kind_of, payload_of, Sent, sent, unsent, snapshot_messages}

-- Each message has the kind and the payload of its notice, in order.
abbrev pub AreWritten : List Notice → List Frames.Message → Type 0
AreWritten [] [] = Unit {0}
AreWritten [] (m ∷ ms) = ⊥
AreWritten (n ∷ ns) [] = ⊥
AreWritten (n ∷ ns) (m ∷ ms) =
    ((m.kind ≡ kind_of n) × (payload_of n ≡ encoded m.payload)) × AreWritten ns ms

abbrev pub then_sent : Sent → Sent → Sent
then_sent (unsent e) later = unsent e
then_sent (sent ms) (unsent e) = unsent e
then_sent (sent ms) (sent ks) = sent (ms ++ ks)

-- What is sent while the daemon goes through the states, or the first error.
unfoldable pub all_messages : Runtime → List Runtime → Sent
all_messages p [] = sent []
all_messages p (c ∷ cs) = then_sent (snapshot_messages p c) (all_messages c cs)

abbrev IsSent : List Notice → Sent → Type 0
IsSent ns (unsent e) = Unit {0}
IsSent ns (sent ms) = AreWritten ns ms
