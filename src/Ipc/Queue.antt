-- ===== src/Ipc/Queue.antt =====
-- ipc.rs, `BoundedQueue`.
pub mod Bounds
use project_argo.Common.{
  ℕ, zero, suc, ◌+◌, ◌-◌, ◌≤◌, ◌<◌, ◌≡◌, ◌≢◌, refl, ap, sym, ◌∙◌, List, [], ◌∷◌, ◌++◌, append-nil,
  append_assoc, Bool, Option, none, some, arith, ◌==◌, if◌then◌else◌, length, length-append,
  length-drop, drop, drop-append,
}

pub record BoundedQueue {ℓ} (A : Type ℓ) : Type ℓ where
  pub values : List A
  pub capacity : ℕ

-- `pop_front` on the values.
unfoldable pub tail {ℓ} : {A : Type ℓ} → List A → List A
tail [] = []
tail (x ∷ xs) = xs

module _ {ℓ} {A : Type ℓ} where
  -- `none` is the panic of the assertion.
  unfoldable pub new : ℕ → Option (BoundedQueue A)
  new capacity = if capacity == 0 then none else some (record { values = []; capacity = capacity })

  -- `none` is `Ok(())`, and `some` gives the value back.
  unfoldable pub try_push : BoundedQueue A → A → Option A × BoundedQueue A
  try_push q value =
      if length q.values == q.capacity
      then (some value, q)
      else (none, record q { values = q.values ++ (value ∷ []) })

  unfoldable pub push_latest : BoundedQueue A → A → BoundedQueue A
  unfolding tail
  push_latest q value = record q {
    values = (if length q.values == q.capacity then tail q.values else q.values) ++ (value ∷ []);
  }

  unfoldable pub pop : BoundedQueue A → Option A × BoundedQueue A
  pop q = elim q.values [ [] ↦ (none, q) | x ∷ xs ↦ (some x, record q { values = xs }) ]

-- The values waiting, and whether there are none.
abbrev pub len {ℓ} : {A : Type ℓ} → BoundedQueue A → ℕ
len q = length q.values

abbrev pub is_empty {ℓ} : {A : Type ℓ} → BoundedQueue A → Bool
is_empty q = length q.values == 0

pub data Call {ℓ} (A : Type ℓ) : Type ℓ where
  tries latest : A → Call A
  pops : Call A

abbrev pub IsQueue {ℓ} : {A : Type ℓ} → BoundedQueue A → Type 0
IsQueue q = (0 < q.capacity) × (length q.values ≤ q.capacity)

module _ {ℓ} {A : Type ℓ} where
  unfoldable pub after : BoundedQueue A → Call A → BoundedQueue A
  after q (tries x) = (try_push q x).1
  after q (latest x) = push_latest q x
  after q pops = (pop q).1

  unfoldable pub run : BoundedQueue A → List (Call A) → BoundedQueue A
  run q [] = q
  run q (c ∷ cs) = run (after q c) cs

  -- Pushing every value with `push_latest`.
  unfoldable pub push_each : BoundedQueue A → List A → BoundedQueue A
  push_each q [] = q
  push_each q (x ∷ xs) = push_each (push_latest q x) xs
