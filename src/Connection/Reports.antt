-- ===== src/Connection/Reports.antt =====
-- The line that a connection's task logs at its end, against what the connection did.
use mathlib.Core.Path.{subst}
use rust_tcpao_proxy.Base.{
  ℕ, ◌%◌, ◌^◌, ◌≡◌, refl, Option, none, some, List, [], ◌∷◌, Result, ok, err, length,
}
use rust_tcpao_proxy.Error.{IoError}
use rust_tcpao_proxy.Net.{SocketAddr}
use rust_tcpao_proxy.Config.{Mode, GlobalConfig, idle_timeout}
use rust_tcpao_proxy.Forward.{PumpOptions, PumpStats, PumpState, Arrival, pump, stats}
use rust_tcpao_proxy.Forward.Ends.{
  Closes, ClosesAs, AtEnd, IsOpen, Reports, pump-counts, pump-closes,
}
use rust_tcpao_proxy.Connection.{Closed, closed, Log, Streams, after_pump, relay, task_log}

-- The options of a connection's `pump`.
abbrev pub options : GlobalConfig → PumpOptions
options g = record { idle_timeout = idle_timeout g }

-- The line names the connection, its peer and its policy, and gives the numbers of bytes that the
-- streams have taken and the reason for which their write halves are as they are.
pub record Describes (mode : Mode) (conn_id : ℕ) (peer : SocketAddr) (g : GlobalConfig)
    (streams : Streams) (s : PumpState) (line : Closed) : Type 0 where
  pub mode_is : line.mode ≡ mode
  pub connection : line.conn_id ≡ conn_id
  pub peer_is : line.peer ≡ peer
  pub policy_is : line.policy ≡ streams.policy.name
  pub key : line.keyid ≡ streams.policy.keyid
  pub up : line.bytes_up ≡ length s.to_destination % 2 ^ 64
  pub down : line.bytes_down ≡ length s.to_source % 2 ^ 64
  pub shut : Closes (options g) s (stats s line.reason 0)

closed-eq : {a b : Closed} → ◌≡◌ {A = List Log} (closed a ∷ []) (closed b ∷ []) → a ≡ b
closed-eq h = cc

after_pump-Describes :
    (mode : Mode) (conn_id : ℕ) (peer : SocketAddr) (g : GlobalConfig) (streams : Streams)
    (line : Closed) (r : Option (Result IoError PumpStats) × PumpState)
    → ((st : PumpStats) → r.0 ≡ some (ok st) → Reports (ok st) r.1)
    → AtEnd IsOpen (ClosesAs (options g)) r
    → task_log mode conn_id peer (after_pump mode conn_id peer streams r) ≡ closed line ∷ []
    → Describes mode conn_id peer g streams r.1 line
unfolding task_log after_pump
after_pump-Describes mode conn_id peer g streams line (none, s) counts closes h = cc
after_pump-Describes mode conn_id peer g streams line (some (err e), s) counts closes h = cc
after_pump-Describes mode conn_id peer g streams line (some (ok st), s) counts closes h =
    let same = closed-eq h in
    let (up, down) = counts st refl in
    subst (Describes mode conn_id peer g streams s) same (record {
      mode_is = refl;
      connection = refl;
      peer_is = refl;
      policy_is = refl;
      key = refl;
      up = up;
      down = down;
      shut = closes;
    })

-- Whenever a connection's task logs the line `connection closed`, the connection has ended, and the
-- line describes it: its number, its peer and its policy, the numbers of bytes that its streams have
-- taken, modulo 2 ^ 64, and the reason for which their write halves were shut down.
pub task_log-Describes :
    (mode : Mode) (conn_id : ℕ) (peer : SocketAddr) (g : GlobalConfig) (started : ℕ)
    (arrivals : List Arrival) (streams : Streams) (line : Closed)
    → task_log mode conn_id peer (relay mode conn_id peer g started arrivals (ok streams))
      ≡ closed line ∷ []
    → Describes mode conn_id peer g streams (pump (options g) started arrivals).1 line
unfolding relay
task_log-Describes mode conn_id peer g started arrivals streams line h =
    after_pump-Describes mode conn_id peer g streams line (pump (options g) started arrivals)
      (λ st e. pump-counts (options g) started arrivals {st = st} e)
      (pump-closes (options g) started arrivals) h
