-- ===== src/Metrics/Tests.antt =====
-- The counters on a run of three calls.
use rust_tcpao_proxy.Base.{◌≡◌, List, [], ◌∷◌, arith}
use rust_tcpao_proxy.Metrics.Runs.{Change, opened, closed, run, fresh, run-counts, opens, closes}

abbrev changes : List Change
changes = closed ∷ opened ∷ opened ∷ []

counts_sample :
    ((run changes fresh).open_connections ≡ 1) × ((run changes fresh).closed_connections ≡ 1)
unfolding opens closes
counts_sample = run-counts changes (omega arith) (omega arith)
