-- ===== src/Metrics.antt =====
-- src/metrics.rs: the counters of connections, two `AtomicU64`. No other file uses them.
pub mod Runs
mod Tests
use rust_tcpao_proxy.Base.{ℕ, ◌+◌, ◌-◌, ◌%◌, ◌^◌}

pub record Metrics : Type 0 where
  pub open_connections : ℕ
  pub closed_connections : ℕ

-- `fetch_add(1)` and `fetch_sub(1)` wrap around.
abbrev pub fetch_add : ℕ → ℕ
fetch_add n = (n + 1) % 2 ^ 64

abbrev pub fetch_sub : ℕ → ℕ
fetch_sub n = (n + 2 ^ 64 - 1) % 2 ^ 64

unfoldable pub conn_opened : Metrics → Metrics
conn_opened m = record m { open_connections = fetch_add m.open_connections }

unfoldable pub conn_closed : Metrics → Metrics
conn_closed m = record m {
  open_connections = fetch_sub m.open_connections;
  closed_connections = fetch_add m.closed_connections;
}

-- The getters.
unfoldable open_connections : Metrics → ℕ
open_connections m = m.open_connections

unfoldable closed_connections : Metrics → ℕ
closed_connections m = m.closed_connections
