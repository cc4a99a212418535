-- ===== src/Tunnel/Refines.antt =====
-- The tunnel as two lanes, one for each direction, and these as pipes.
use rust_tcpao_proxy.Base.{ℕ, ◌≡◌, refl, ap, true, false, [], Result, ok, err}
use rust_tcpao_proxy.Error.{IoError}
use rust_tcpao_proxy.Forward.{
  PumpOptions, PumpStats, CloseReason, source_eof, destination_eof, idle_timeout,
}
use rust_tcpao_proxy.Forward.Awaits.{Point, selecting, returned}
use rust_tcpao_proxy.Forward.Awaits
use rust_tcpao_proxy.Tunnel.{
  Relay, is_over, to_destination, to_source, Tunnel, opened, Step, client_writes, client_closes,
  app_writes, app_closes, near_runs, far_runs, Reach, here, next,
}
use rust_tcpao_proxy.Tunnel.Hop.{going, reached, status_of, over, IsHop, output}
use rust_tcpao_proxy.Tunnel.Wakes.{status_at, up, down, next_wake-up, next_wake-down}
use rust_tcpao_proxy.Tunnel.Lane.{
  Lane, LaneStep, rests, writes, closes, first_runs, second_runs, IsLane, LaneStep-IsLane,
}
use rust_tcpao_proxy.Tunnel.Pipe.{empty, PipeReach, PipeStep, pipe, LaneStep-PipeStep}
use rust_tcpao_proxy.Tunnel.Pipe.{here as nothing, next as more}

-- A hop is over exactly when `pump` has returned.
reached-over : (why end : CloseReason) → over (reached why end) ≡ true
reached-over source_eof source_eof = refl
reached-over source_eof destination_eof = refl
reached-over source_eof idle_timeout = refl
reached-over destination_eof source_eof = refl
reached-over destination_eof destination_eof = refl
reached-over destination_eof idle_timeout = refl
reached-over idle_timeout end = refl

over-status_of : (why : CloseReason) (r : Result IoError PumpStats) → over (status_of why r) ≡ true
over-status_of why (ok st) = reached-over why st.reason
over-status_of why (err e) = refl

over-status_at : (why : CloseReason) (p : Point) → over (status_at why p) ≡ is_over p
over-status_at why (selecting since) = refl
over-status_at why (Awaits.to_destination chunk rest) = refl
over-status_at why (Awaits.to_source chunk rest) = refl
over-status_at why (returned res) = over-status_of why res

output-up : (r : Relay) → output (up r) ≡ to_destination r
output-up r = rw (over-status_at source_eof r.pump.point) refl

output-down : (r : Relay) → output (down r) ≡ to_source r
output-down r = rw (over-status_at destination_eof r.pump.point) refl

-- From the client to the application, and back.
abbrev pub upward : Tunnel → Lane
upward c = record { writer = c.client; first = up c.near; second = up c.far }

abbrev pub downward : Tunnel → Lane
downward c = record { writer = c.app; first = down c.far; second = down c.near }

module _ (near_opts far_opts : PumpOptions) (near_start far_start : ℕ) where
  Step-upward :
      {c d : Tunnel}
      → Step near_opts far_opts near_start far_start c d
      → LaneStep (upward c) (upward d)
  Step-upward (client_writes bs o e) = writes bs o (ap upward e)
  Step-upward (client_closes e) = closes (ap upward e)
  Step-upward (app_writes bs o e) = rests (ap upward e)
  Step-upward (app_closes e) = rests (ap upward e)
  Step-upward {c} (near_runs w h e) =
      first_runs _ (next_wake-up near_start near_opts c.client (to_source c.far) c.near w h)
        (ap upward e)
  Step-upward {c} (far_runs w h e) =
      second_runs _
        (rw (output-up c.near)
          (next_wake-up far_start far_opts (to_destination c.near) c.app c.far w h))
        (ap upward e)

  Step-downward :
      {c d : Tunnel}
      → Step near_opts far_opts near_start far_start c d
      → LaneStep (downward c) (downward d)
  Step-downward (client_writes bs o e) = rests (ap downward e)
  Step-downward (client_closes e) = rests (ap downward e)
  Step-downward (app_writes bs o e) = writes bs o (ap downward e)
  Step-downward (app_closes e) = closes (ap downward e)
  Step-downward {c} (near_runs w h e) =
      second_runs _
        (rw (output-down c.far)
          (next_wake-down near_start near_opts c.client (to_source c.far) c.near w h))
        (ap downward e)
  Step-downward {c} (far_runs w h e) =
      first_runs _ (next_wake-down far_start far_opts (to_destination c.near) c.app c.far w h)
        (ap downward e)

  opened-IsLane :
      IsLane (upward (opened near_start far_start))
      × IsLane (downward (opened near_start far_start))
  opened-IsLane = (
    record { at_first = nothing; at_second = nothing },
    record { at_first = nothing; at_second = nothing },
  )
    where
      nothing :
          IsHop
            (record { written = []; closed = false })
            (record { read = []; taken = []; pending = []; status = going })
      nothing = record {
        reads = ([], refl);
        passes_on = ([], refl);
        whole = λ _. refl;
        all_read = λ d. absurd cc;
      }

  pub Reach-IsLane :
      {c : Tunnel}
      → Reach near_opts far_opts near_start far_start (opened near_start far_start) c
      → IsLane (upward c) × IsLane (downward c)
  Reach-IsLane here = opened-IsLane
  Reach-IsLane (next r s) =
      let (u, d) = Reach-IsLane r in
      (LaneStep-IsLane (Step-upward s) u, LaneStep-IsLane (Step-downward s) d)

Reach-PipeReach :
    (near_opts far_opts : PumpOptions) (near_start far_start : ℕ) (c : Tunnel)
    → Reach near_opts far_opts near_start far_start (opened near_start far_start) c
    → PipeReach empty (pipe (upward c)) × PipeReach empty (pipe (downward c))
Reach-PipeReach near_opts far_opts near_start far_start c here = (nothing, nothing)
Reach-PipeReach near_opts far_opts near_start far_start c (next {d} r s) =
    let (u, v) = Reach-PipeReach near_opts far_opts near_start far_start d r in
    let (k, l) = Reach-IsLane near_opts far_opts near_start far_start r in
    (
      more u (LaneStep-PipeStep (Step-upward near_opts far_opts near_start far_start s) k),
      more v (LaneStep-PipeStep (Step-downward near_opts far_opts near_start far_start s) l),
    )

-- Whatever the wake-ups and however the two loops take turns, in each direction two proxies in a row
-- stand where a pipe can get from the empty pipe, and each of their steps is a step of that pipe, or
-- leaves it as it is. A pipe only ever writes out, at its far end, the next of the bytes that were written
-- to it, and is complete, with both proxies having returned at the end of its stream, only when
-- its writer is done and all its bytes were written out.
pub tunnel-refines :
    (near_opts far_opts : PumpOptions) (near_start far_start : ℕ) (c d : Tunnel)
    → Reach near_opts far_opts near_start far_start (opened near_start far_start) c
    → Step near_opts far_opts near_start far_start c d
    → (PipeReach empty (pipe (upward c)) × PipeStep (pipe (upward c)) (pipe (upward d)))
      × (PipeReach empty (pipe (downward c)) × PipeStep (pipe (downward c)) (pipe (downward d)))
tunnel-refines near_opts far_opts near_start far_start c d r s =
    let (u, v) = Reach-PipeReach near_opts far_opts near_start far_start c r in
    let (k, l) = Reach-IsLane near_opts far_opts near_start far_start r in
    (
      (u, LaneStep-PipeStep (Step-upward near_opts far_opts near_start far_start s) k),
      (v, LaneStep-PipeStep (Step-downward near_opts far_opts near_start far_start s) l),
    )
