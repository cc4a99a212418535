-- ===== src/Process/Safe.antt =====
-- The states that the process reaches, from what holds of each task.
use rust_tcpao_proxy.Base.{◌≡◌, Bool, List, [], ◌∷◌, ◌++◌, All, All-append}
use rust_tcpao_proxy.Os.{Os}
use rust_tcpao_proxy.Process.{
  Stages, Input, advance, Running, Process, start, spawn, moved, Step, accept, fail, run, Reach,
  here, next,
}
use rust_tcpao_proxy.Process.Laws.{Readiness, Laws, IsSafeTask, IsSafeProcess, advance-Moves}
use rust_tcpao_proxy.Connection.{Task}

All-split : {A : Type 0} (P : A → Type 0) (xs ys : List A) → All P (xs ++ ys) → All P xs × All P ys
All-split P [] ys h = (tt, h)
All-split P (x ∷ xs) ys (p, h) = let (hx, hy) = All-split P xs ys h in ((p, hx), hy)

-- The rule for the process: what holds of each task that is spawned, and is kept when the task runs,
-- holds of all tasks in every state that is reached.
module _ (debug : Bool) (st : Os → Stages) (P : Running → Type 0)
    (spawns : (k : Task) (sys : Os) → sys.debug_assertions ≡ debug → P (spawn k sys))
    (keeps : (r : Running) (i : Input)
      → P r
      → P (moved r (advance r.oracle (st r.oracle) r.task r.stage i r.calls))) where
  run-All :
      (before after : List Running) (r : Running) (i : Input)
      → All P (before ++ r ∷ after)
      → All P (before ++ moved r (advance r.oracle (st r.oracle) r.task r.stage i r.calls) ∷ after)
  run-All before after r i h =
      let (hb, (hr, ha)) = All-split P before (r ∷ after) h in
      All-append P before _ hb (keeps r i hr, ha)

  Step-All : {c d : Process} → Step debug st c d → All P c.running → All P d.running
  Step-All {c} (accept stream peer sys _ build e) h =
      rw e (spawns (record { conn_id = c.next_id; stream = stream; peer = peer }) sys build, h)
  Step-All (fail x _ e) h = rw e h
  Step-All (run before after r i _ found e) h = rw e (run-All before after r i (rw found at h))

  pub Reach-All : {c : Process} → Reach debug st start c → All P c.running
  Reach-All here = tt
  Reach-All (next r s) = Step-All s (Reach-All r)

module _ (debug : Bool) (st : Os → Stages) (IsReady : Os → Readiness)
    (laws : (sys : Os) → sys.debug_assertions ≡ debug → Laws (st sys) (IsReady sys)) where
  keeps_IsSafeTask :
      (r : Running) (i : Input)
      → IsSafeTask debug st IsReady r
      → IsSafeTask debug st IsReady
          (moved r (advance r.oracle (st r.oracle) r.task r.stage i r.calls))
  keeps_IsSafeTask r i h =
      let m =
        advance-Moves r.oracle (st r.oracle) (IsReady r.oracle) (laws r.oracle h.build) r.task
          r.stage i r.calls h.safe in
      record { build = h.build; connects = m.guarded h.connects; safe = m.safe }

  -- Every task of a state that the process reaches from its start is safe.
  pub Reach-IsSafe : {c : Process} → Reach debug st start c → IsSafeProcess debug st IsReady c
  Reach-IsSafe r =
      Reach-All debug st (IsSafeTask debug st IsReady)
        (λ k sys build. record { build = build; connects = tt; safe = tt }) keeps_IsSafeTask r
