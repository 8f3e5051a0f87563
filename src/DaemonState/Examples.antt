-- ===== src/DaemonState/Examples.antt =====
-- A run of the daemon's states, and their theorem at a concrete input.
use project_argo.Common.{List, [], ◌∷◌, some}
use project_argo.Ipc.Frames
use project_argo.DaemonState.Runtime.{Device, Runtime, default_runtime}

-- A phone with the id "u" and the name "P" is there.
abbrev phone : Device
phone = record { id = 117 ∷ []; display_name = 80 ∷ []; transport = 0 }

abbrev attached : Runtime
attached = record default_runtime { device = some phone }

abbrev told : List Frames.Message
told = record { kind = 2; payload = 0 ∷ 1 ∷ 117 ∷ 0 ∷ 1 ∷ 80 ∷ 0 ∷ 0 ∷ [] } ∷ []
