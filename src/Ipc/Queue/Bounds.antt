-- ===== src/Ipc/Queue/Bounds.antt =====
-- `BoundedQueue` keeps to its capacity, and `push_latest` drops the oldest values.
use project_argo.Common.{
  ℕ, zero, suc, ◌-◌, ◌≤◌, ◌<◌, ◌≡◌, refl, ap, sym, ◌∙◌, List, [], ◌∷◌, ◌++◌, append-nil,
  append_assoc, some, arith, length, length-append, length-drop, drop, drop-append,
}
use project_argo.Ipc.Queue.{
  BoundedQueue, tail, new, try_push, push_latest, pop, Call, tries, latest, pops, IsQueue, after,
  run, push_each,
}

module _ {A : Type 0} where
  try_push-IsQueue : (q : BoundedQueue A) (x : A) → IsQueue q → IsQueue (try_push q x).1
  unfolding try_push
  try_push-IsQueue q x v = ground (arith, length-append q.values (x ∷ []))

  length-tail : (xs : List A) → length (tail xs) ≡ length xs - 1
  unfolding tail
  length-tail [] = omega arith
  length-tail (x ∷ xs) = omega arith

  push_latest-IsQueue : (q : BoundedQueue A) (x : A) → IsQueue q → IsQueue (push_latest q x)
  unfolding push_latest
  push_latest-IsQueue q x v = ground (
    arith,
    length-append q.values (x ∷ []),
    length-append (tail q.values) (x ∷ []),
    length-tail q.values,
  )

  pop-IsQueue : (q : BoundedQueue A) → IsQueue q → IsQueue (pop q).1
  unfolding pop
  pop-IsQueue q v = ground arith

  after-IsQueue : (q : BoundedQueue A) (c : Call A) → IsQueue q → IsQueue (after q c)
  unfolding after
  after-IsQueue q (tries x) v = try_push-IsQueue q x v
  after-IsQueue q (latest x) v = push_latest-IsQueue q x v
  after-IsQueue q pops v = pop-IsQueue q v

  run-IsQueue : (q : BoundedQueue A) (cs : List (Call A)) → IsQueue q → IsQueue (run q cs)
  unfolding run
  run-IsQueue q [] v = v
  run-IsQueue q (c ∷ cs) v = run-IsQueue (after q c) cs (after-IsQueue q c v)

  drop-snoc :
      (n : ℕ) (xs : List A) (x : A)
      → n ≤ length xs
      → drop n (xs ++ (x ∷ [])) ≡ drop n xs ++ (x ∷ [])
  drop-snoc n xs x h = drop-append n xs (x ∷ []) h

  tail-drop : (n : ℕ) (xs : List A) → tail (drop n xs) ≡ drop (suc n) xs
  unfolding tail
  tail-drop zero [] = refl
  tail-drop zero (x ∷ xs) = refl
  tail-drop (suc n) [] = refl
  tail-drop (suc n) (x ∷ xs) = tail-drop n xs

  run-capacity : (q : BoundedQueue A) (cs : List (Call A)) → (run q cs).capacity ≡ q.capacity
  unfolding run
  run-capacity q [] = refl
  run-capacity q (c ∷ cs) = run-capacity (after q c) cs ∙ after-capacity q c
    where
      after-capacity : (p : BoundedQueue A) (d : Call A) → (after p d).capacity ≡ p.capacity
      after-capacity p (tries x) = unfold after try_push in ground arith
      after-capacity p (latest x) = unfold after push_latest in refl
      after-capacity p pops = unfold after pop in ground arith

  new-IsQueue :
      (capacity : ℕ) (q : BoundedQueue A)
      → new capacity ≡ some q
      → IsQueue q × (q.capacity ≡ capacity) × (q.values ≡ [])
  unfolding new
  new-IsQueue capacity q e = ground arith

  push_latest-drop :
      (q : BoundedQueue A) (sent : List A) (x : A)
      → 0 < q.capacity
      → q.values ≡ drop (length sent - q.capacity) sent
      → (push_latest q x).values ≡ drop (length (sent ++ (x ∷ [])) - q.capacity) (sent ++ (x ∷ []))
  unfolding push_latest
  push_latest-drop q sent x h e =
      let n = length sent - q.capacity in
      ground (
        arith,
        length-append sent (x ∷ []),
        length-drop n sent,
        ap length e,
        ap tail e,
        tail-drop n sent,
        drop-snoc n sent x,
        drop-snoc (suc n) sent x,
      )

  push_each-drop :
      (q : BoundedQueue A) (sent xs : List A)
      → 0 < q.capacity
      → q.values ≡ drop (length sent - q.capacity) sent
      → (push_each q xs).values ≡ drop (length (sent ++ xs) - q.capacity) (sent ++ xs)
  unfolding push_each push_latest
  push_each-drop q sent [] h e = rw (append-nil sent) e
  push_each-drop q sent (x ∷ xs) h e =
      rw (sym (append_assoc sent (x ∷ []) xs))
        (push_each-drop (push_latest q x) (sent ++ (x ∷ [])) xs h (push_latest-drop q sent x h e))

empty_drop : {A : Type 0} (k : ℕ) → ◌≡◌ {A = List A} [] (drop k [])
empty_drop zero = refl
empty_drop (suc k) = refl

-- Whatever is called on a new queue, it never holds more values than its capacity.
pub run-new-IsQueue :
    {A : Type 0} (capacity : ℕ) (q : BoundedQueue A) (cs : List (Call A))
    → new capacity ≡ some q
    → length (run q cs).values ≤ capacity
run-new-IsQueue capacity q cs e =
    let (v, c, n) = new-IsQueue capacity q e in
    omega (arith, run-IsQueue q cs v, run-capacity q cs, c)

-- A new queue on which values are pushed with `push_latest` alone holds the newest of them, oldest
-- first, as many as its capacity admits.
pub push_each-new :
    {A : Type 0} (capacity : ℕ) (q : BoundedQueue A) (xs : List A)
    → new capacity ≡ some q
    → (push_each q xs).values ≡ drop (length xs - capacity) xs
push_each-new capacity q xs e =
    let (v, c, n) = new-IsQueue capacity q e in
    push_each-drop q [] xs v.0 (n ∙ empty_drop (0 - q.capacity))
    ∙ ap (λ k. drop (length xs - k) xs) c
