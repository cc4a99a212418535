-- ===== src/Metrics/Runs.antt =====
-- Runs of the two counters of src/metrics.rs.
use rust_tcpao_proxy.Base.{ℕ, ◌+◌, ◌-◌, ◌%◌, ◌^◌, ◌<◌, ◌≤◌, ◌≡◌, refl, List, [], ◌∷◌, arith}
use rust_tcpao_proxy.Metrics.{Metrics, conn_opened, conn_closed}

pub data Change : Type 0 where
  opened closed : Change

unfoldable pub change : Change → Metrics → Metrics
unfolding conn_opened conn_closed
change opened m = conn_opened m
change closed m = conn_closed m

-- The calls of a program's run, the oldest first.
unfoldable pub run : List Change → Metrics → Metrics
unfolding change
run [] m = m
run (c ∷ cs) m = run cs (change c m)

unfoldable pub opens : List Change → ℕ
opens [] = 0
opens (opened ∷ cs) = 1 + opens cs
opens (closed ∷ cs) = opens cs

unfoldable pub closes : List Change → ℕ
closes [] = 0
closes (opened ∷ cs) = closes cs
closes (closed ∷ cs) = 1 + closes cs

abbrev pub fresh : Metrics
fresh = record { open_connections = 0; closed_connections = 0 }

open_invariant :
    (cs : List Change) (m : Metrics)
    → ((run cs m).open_connections + closes cs) % 2 ^ 64 ≡ (m.open_connections + opens cs) % 2 ^ 64
unfolding run opens closes change conn_opened conn_closed
open_invariant [] m = refl
open_invariant (opened ∷ cs) m = let ih = open_invariant cs (conn_opened m) in omega arith
open_invariant (closed ∷ cs) m = let ih = open_invariant cs (conn_closed m) in omega arith

closed_invariant :
    (cs : List Change) (m : Metrics)
    → (run cs m).closed_connections % 2 ^ 64 ≡ (m.closed_connections + closes cs) % 2 ^ 64
unfolding run closes change conn_opened conn_closed
closed_invariant [] m = omega arith
closed_invariant (opened ∷ cs) m = closed_invariant cs (conn_opened m)
closed_invariant (closed ∷ cs) m = let ih = closed_invariant cs (conn_closed m) in omega arith

IsWide : Metrics → Type 0
IsWide m = m.open_connections < 2 ^ 64 × m.closed_connections < 2 ^ 64

run-IsWide : (cs : List Change) (m : Metrics) → IsWide m → IsWide (run cs m)
unfolding IsWide run change conn_opened conn_closed
run-IsWide [] m h = h
run-IsWide (opened ∷ cs) m (h, k) = run-IsWide cs (conn_opened m) (omega arith, k)
run-IsWide (closed ∷ cs) m (h, k) = run-IsWide cs (conn_closed m) (omega arith, omega arith)

-- When a run from zero opens fewer than 2 ^ 64 connections and closes no more than it opens, the
-- counter of open connections ends at the difference and that of closed ones at the number closed,
-- in whatever order the calls came (the counter may wrap below zero on the way).
pub run-counts :
    (cs : List Change)
    → opens cs < 2 ^ 64
    → closes cs ≤ opens cs
    → (run cs fresh).open_connections ≡ opens cs - closes cs
      × (run cs fresh).closed_connections ≡ closes cs
unfolding IsWide
run-counts cs few balanced =
    let o = open_invariant cs fresh in
    let c = closed_invariant cs fresh in
    let w = run-IsWide cs fresh (omega arith, omega arith) in
    let w1 = w.0 in let w2 = w.1 in (omega arith, omega arith)
