-- ===== src/Tunnel/Complete.antt =====
-- What was written out once both proxies have returned at the end of the same stream.
use rust_tcpao_proxy.Base.{ℕ, ◌≡◌, refl, ap, ◌∙◌, ◌%◌, ◌^◌, true, List, ok, length}
use rust_tcpao_proxy.Forward.{
  PumpOptions, PumpStats, CloseReason, source_eof, destination_eof, idle_timeout,
}
use rust_tcpao_proxy.Forward.Ends.{Reports, pump-counts}
use rust_tcpao_proxy.Forward.Awaits.{returned}
use rust_tcpao_proxy.Tunnel.{Writer, Relay, Tunnel, opened, Reach}
use rust_tcpao_proxy.Tunnel.Hop.{drained}
use rust_tcpao_proxy.Tunnel.Lane.{IsLane, IsLane-complete, IsLane-first}
use rust_tcpao_proxy.Tunnel.Refines.{upward, downward, Reach-IsLane}
use rust_tcpao_proxy.Tunnel.Runs.{Runs, Runs-pump, Reach-Runs}

-- The writer is done, its bytes were written out at the far end, and both counts are their number as a `u64`.
pub record Arrives (w : Writer) (written_out : List ℕ) (near far : ℕ) : Type 0 where
  pub done : w.closed ≡ true
  pub all : written_out ≡ w.written
  pub near_counts : near ≡ length w.written % 2 ^ 64
  pub far_counts : far ≡ length w.written % 2 ^ 64

-- After a timeout nothing is said of what was written out.
abbrev pub Arrived : CloseReason → Tunnel → PumpStats → PumpStats → Type 0
Arrived source_eof c near far =
    Arrives c.client c.far.pump.state.to_destination near.bytes_up far.bytes_up
Arrived destination_eof c near far =
    Arrives c.app c.near.pump.state.to_source near.bytes_down far.bytes_down
Arrived idle_timeout c near far = Unit

Runs-Reports :
    (started : ℕ) (opts : PumpOptions) (r : Relay) (st : PumpStats)
    → Runs started opts r
    → r.pump.point ≡ returned (ok st)
    → Reports (ok st) r.pump.state
Runs-Reports started opts r st runs e =
    let (made, rounds) = Runs-pump started opts r (ok st) runs e in
    rw (ap (λ x. x.1) rounds) at (pump-counts opts started made (ap (λ x. x.0) rounds))

arrives :
    (why : CloseReason) (c : Tunnel) (near far : PumpStats)
    → IsLane (upward c)
    → IsLane (downward c)
    → Reports (ok near) c.near.pump.state
    → Reports (ok far) c.far.pump.state
    → c.near.pump.point ≡ returned (ok near)
    → c.far.pump.point ≡ returned (ok far)
    → near.reason ≡ why
    → far.reason ≡ why
    → Arrived why c near far
arrives source_eof c near far u d (n, _) (f, _) en ef rn rf =
    let first : (upward c).first.status ≡ drained = rw (en, rn) refl in
    let second : (upward c).second.status ≡ drained = rw (ef, rf) refl in
    let (closed, got) = IsLane-complete (upward c) u first second in
    let (_, passed) = IsLane-first (upward c) u first in
    record {
      done = closed;
      all = got;
      near_counts = n ∙ ap (λ l. length l % 2 ^ 64) passed;
      far_counts = f ∙ ap (λ l. length l % 2 ^ 64) got;
    }
arrives destination_eof c near far u d (_, n) (_, f) en ef rn rf =
    let first : (downward c).first.status ≡ drained = rw (ef, rf) refl in
    let second : (downward c).second.status ≡ drained = rw (en, rn) refl in
    let (closed, got) = IsLane-complete (downward c) d first second in
    let (_, passed) = IsLane-first (downward c) d first in
    record {
      done = closed;
      all = got;
      near_counts = n ∙ ap (λ l. length l % 2 ^ 64) got;
      far_counts = f ∙ ap (λ l. length l % 2 ^ 64) passed;
    }
arrives idle_timeout c near far u d n f en ef rn rf = tt

-- When both proxies have returned at the end of the client's stream, the client is done, the terminator
-- has written to its connection to the application exactly the bytes that the client wrote to its own,
-- and both report the number of these bytes modulo 2 ^ 64; and so for the application's stream, the
-- other way.
pub tunnel_complete :
    (near_opts far_opts : PumpOptions) (near_start far_start : ℕ) (c : Tunnel) (why : CloseReason)
    (near far : PumpStats)
    → Reach near_opts far_opts near_start far_start (opened near_start far_start) c
    → c.near.pump.point ≡ returned (ok near)
    → c.far.pump.point ≡ returned (ok far)
    → near.reason ≡ why
    → far.reason ≡ why
    → Arrived why c near far
tunnel_complete near_opts far_opts near_start far_start c why near far r en ef =
    let (u, d) = Reach-IsLane near_opts far_opts near_start far_start r in
    let (n, f) = Reach-Runs near_opts far_opts near_start far_start r in
    arrives why c near far u d (Runs-Reports near_start near_opts c.near near n en)
      (Runs-Reports far_start far_opts c.far far f ef) en ef
