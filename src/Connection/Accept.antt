-- ===== src/Connection/Accept.antt =====
-- The loops in `run` of src/mode_initiator.rs and src/mode_terminator.rs: what they spawn.
use rust_tcpao_proxy.Base.{
  All, ℕ, ◌+◌, ◌%◌, ◌^◌, ◌≡◌, refl, ◌<◌, Option, none, some, List, [], ◌∷◌, length, Result, ok, err,
  arith,
}
use rust_tcpao_proxy.Error.{IoError, ProxyError, io_error}
use rust_tcpao_proxy.Connection.{Task, Visit, Handled, task_of, fetch_add, accept_loop}

abbrev pub Accepted : Type 0
Accepted = Result IoError Visit

-- The connections before the first failure of `accept`, and that failure.
unfoldable pub visits : List Accepted → List Visit
visits [] = []
visits (ok v ∷ rest) = v ∷ visits rest
visits (err e ∷ rest) = []

unfoldable pub failure : List Accepted → Option IoError
failure [] = none
failure (ok s ∷ rest) = failure rest
failure (err e ∷ rest) = some e

unfoldable pub end_of : Option IoError → Option ProxyError
end_of none = none
end_of (some e) = some (io_error e)

module _ (body : Task → Visit → Handled) where
  -- A task for each connection, in order, numbered from `id` modulo 2 ^ 64.
  unfoldable pub numbered : ℕ → List Visit → List Handled
  numbered id [] = []
  numbered id (v ∷ rest) = body (task_of (id % 2 ^ 64) v) v ∷ numbered (id + 1) rest

  numbered_from :
      (id k : ℕ) (vs : List Visit) → id % 2 ^ 64 ≡ k % 2 ^ 64 → numbered id vs ≡ numbered k vs
  unfolding numbered
  numbered_from id k [] h = refl
  numbered_from id k (v ∷ rest) h =
      let ih = numbered_from (id + 1) (k + 1) rest (omega arith) in rw h (rw ih refl)

  numbered-fetch_add :
      (id : ℕ) (vs : List Visit) → numbered (fetch_add id) vs ≡ numbered (id + 1) vs
  numbered-fetch_add id vs = numbered_from (fetch_add id) (id + 1) vs (omega arith)

  -- From a counter `id` of 64 bits, the loop spawns a task for each connection accepted before the
  -- first failure of `accept`, in order and numbered from `id` on modulo 2 ^ 64, and nothing after
  -- that failure; it ends exactly by that failure, and the counter ends at `id` plus the number of
  -- tasks.
  pub accept_loop-serves :
      (id : ℕ) (outcomes : List Accepted)
      → id < 2 ^ 64
      → (accept_loop body id outcomes).tasks ≡ numbered id (visits outcomes)
        × (accept_loop body id outcomes).next_id ≡ (id + length (visits outcomes)) % 2 ^ 64
        × (accept_loop body id outcomes).ended ≡ end_of (failure outcomes)
  unfolding accept_loop visits failure numbered end_of
  accept_loop-serves id [] h = (refl, omega arith, refl)
  accept_loop-serves id (ok v ∷ rest) h =
      let (ts, n, e) = accept_loop-serves (fetch_add id) rest (omega arith) in
      let same : id % 2 ^ 64 ≡ id = omega arith in
      (rw (ts, numbered-fetch_add id (visits rest), same) refl, omega arith, e)
  accept_loop-serves id (err e ∷ rest) h = (refl, omega arith, refl)

  -- What the body makes of every connection holds of every task.
  pub All-tasks :
      (Q : Visit → Type 0) (P : Handled → Type 0)
      → ((k : Task) (v : Visit) → Q v → P (body k v))
      → (id : ℕ) (outcomes : List Accepted) → All Q (visits outcomes)
      → All P (accept_loop body id outcomes).tasks
  unfolding accept_loop visits
  All-tasks Q P f id [] h = tt
  All-tasks Q P f id (ok v ∷ rest) h =
      (f (task_of id v) v h.0, All-tasks Q P f (fetch_add id) rest h.1)
  All-tasks Q P f id (err e ∷ rest) h = tt
