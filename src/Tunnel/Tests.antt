-- ===== src/Tunnel/Tests.antt =====
-- A client that sends three bytes through both proxies and is done; and two proxies that both write.
use rust_tcpao_proxy.Base.{true, arith, refl, some, none, List, [], ◌∷◌, ok, ℕ, ◌≡◌}
use rust_tcpao_proxy.Forward.{PumpOptions, PumpStats, source_eof}
use rust_tcpao_proxy.Forward.Awaits.{
  clock, source_takes, Wake, source_reads, destination_reads, destination_takes, Point, returned,
  wake_at,
}
use rust_tcpao_proxy.Tunnel.{
  Tunnel, opened, write, close, next_wake, client_writes, client_closes, app_writes, near_runs,
  far_runs, Reach, here, next, Admits, Supplies,
}
use rust_tcpao_proxy.Tunnel.Pipe.{PipeReach, PipeStep, pipe, empty}
use rust_tcpao_proxy.Tunnel.Refines.{upward, downward, tunnel-refines}
use rust_tcpao_proxy.Tunnel.Complete.{Arrived, tunnel_complete}
use rust_tcpao_proxy.Tunnel.Locks.{tunnel-locks}
use rust_tcpao_proxy.Tunnel.Deadlock.{HeldReach, here, next, held, Locked, tunnel-deadlock}

abbrev near_opts : PumpOptions
near_opts = record { idle_timeout = some 120 }

abbrev far_opts : PumpOptions
far_opts = record { idle_timeout = none }

abbrev bytes : List ℕ
bytes = 97 ∷ 98 ∷ 99 ∷ []

abbrev read_them : ℕ → Wake
read_them now = (source_reads (ok bytes), now)

abbrev read_end : ℕ → Wake
read_end now = (source_reads (ok []), now)

abbrev takes : ℕ → ℕ → Wake
takes n now = (destination_takes (ok n), now)

abbrev start : Tunnel
start = opened 10 15

abbrev near_wakes : Wake → Tunnel → Tunnel
near_wakes w c = record c { near = next_wake 10 near_opts c.near w }

abbrev far_wakes : Wake → Tunnel → Tunnel
far_wakes w c = record c { far = next_wake 15 far_opts c.far w }

abbrev sent : Tunnel
sent = record (record start { client = write start.client bytes }) {
  client = close (write start.client bytes);
}

-- The protected connection takes two of the bytes, and then the third.
abbrev passed : Tunnel
passed = near_wakes (takes 5 22) (near_wakes (takes 2 21) (near_wakes (read_them 20) sent))

abbrev near_ended : Tunnel
near_ended = near_wakes (read_end 30) passed

abbrev written_out : Tunnel
written_out = far_wakes (takes 3 41) (far_wakes (read_them 40) near_ended)

abbrev far_ended : Tunnel
far_ended = far_wakes (read_end 50) written_out

written_out-Reach : Reach near_opts far_opts 10 15 start written_out
unfolding next_wake wake_at Admits Supplies
written_out-Reach =
    next
      (next
        (next
          (next
            (next
              (next (next (next here (client_writes bytes refl refl)) (client_closes refl))
                (near_runs (read_them 20) (omega arith, ([], refl)) refl))
              (near_runs (takes 2 21) tt refl))
            (near_runs (takes 5 22) tt refl))
          (near_runs (read_end 30) (refl, refl) refl))
        (far_runs (read_them 40) (omega arith, ([], refl)) refl))
      (far_runs (takes 3 41) tt refl)

end_read :
    Admits
      (record { written = bytes; closed = true })
      start.app
      written_out.far
      written_out.far.pump.point
      (source_reads (ok []))
unfolding next_wake wake_at Admits Supplies
end_read = (refl, refl)

tunnel-refines_example :
    (PipeReach empty (pipe (upward written_out))
      × PipeStep (pipe (upward written_out)) (pipe (upward far_ended)))
    × (PipeReach empty (pipe (downward written_out))
        × PipeStep (pipe (downward written_out)) (pipe (downward far_ended)))
unfolding next_wake wake_at
tunnel-refines_example =
    tunnel-refines near_opts far_opts 10 15 written_out far_ended written_out-Reach
      (far_runs (read_end 50) end_read refl)

far_ended-Reach : Reach near_opts far_opts 10 15 start far_ended
unfolding next_wake wake_at
far_ended-Reach = next written_out-Reach (far_runs (read_end 50) end_read refl)

abbrev near_stats : PumpStats
near_stats = record { bytes_up = 3; bytes_down = 0; reason = source_eof; duration = 20 }

abbrev far_stats : PumpStats
far_stats = record near_stats { duration = 35 }

near_returns : far_ended.near.pump.point ≡ returned (ok near_stats)
unfolding next_wake wake_at
near_returns = refl

far_returns : far_ended.far.pump.point ≡ returned (ok far_stats)
unfolding next_wake wake_at
far_returns = refl

tunnel_complete_example : Arrived source_eof far_ended near_stats far_stats
tunnel_complete_example =
    tunnel_complete near_opts far_opts 10 15 far_ended source_eof near_stats far_stats
      far_ended-Reach near_returns far_returns refl refl

-- Both ends have written, and each proxy is in a write to the other, which has taken nothing yet.
abbrev both_write : Tunnel
both_write =
    far_wakes (destination_reads (ok bytes), 21)
      (near_wakes (read_them 20)
        (record start { client = write start.client bytes; app = write start.app bytes }))

both_write-Reach : Reach near_opts far_opts 10 15 start both_write
unfolding next_wake wake_at Admits Supplies
both_write-Reach =
    next
      (next (next (next here (client_writes bytes refl refl)) (app_writes bytes refl refl))
        (near_runs (read_them 20) (omega arith, ([], refl)) refl))
      (far_runs (destination_reads (ok bytes), 21) (omega arith, ([], refl)) refl)

in_opposite_writes :
    (both_write.near.pump.point ≡ Point.to_destination bytes bytes)
    × (both_write.far.pump.point ≡ Point.to_source bytes bytes)
unfolding next_wake wake_at
in_opposite_writes = (refl, refl)

-- The connection between them has room for two bytes each way, which they take: then they are locked.
abbrev stuck : Tunnel
stuck = far_wakes (source_takes (ok 2), 23) (near_wakes (takes 2 22) both_write)

stuck-HeldReach : HeldReach 2 near_opts far_opts 10 15 start stuck
unfolding next_wake wake_at Admits Supplies
stuck-HeldReach =
    next
      (next
        (next
          (next
            (next (next here (held (client_writes bytes refl refl) tt (omega arith) (omega arith)))
              (held (app_writes bytes refl refl) tt (omega arith) (omega arith)))
            (held (near_runs (read_them 20) (omega arith, ([], refl)) refl) tt (omega arith)
              (omega arith)))
          (held (far_runs (destination_reads (ok bytes), 21) (omega arith, ([], refl)) refl) tt
            (omega arith) (omega arith)))
        (held (near_runs (takes 2 22) tt refl) tt (omega arith) (omega arith)))
      (held (far_runs (source_takes (ok 2), 23) tt refl) tt (omega arith) (omega arith))

-- The client is done, and much later the timer of the initiator would be due.
abbrev much_later : Tunnel
much_later = near_wakes (clock, 1_000_000) (record stuck { client = close stuck.client })

waiting : HeldReach 2 near_opts far_opts 10 15 stuck much_later
unfolding next_wake wake_at Admits Supplies
waiting =
    next (next here (held (client_closes refl) tt (omega arith) (omega arith)))
      (held (near_runs (clock, 1_000_000) tt refl) tt (omega arith) (omega arith))

stuck-Locked : Locked 2 stuck.near stuck.far
unfolding next_wake wake_at
stuck-Locked = record {
  near_writes = (bytes, 99, [], refl);
  far_writes = (bytes, 99, [], refl);
  up_full = refl;
  down_full = refl;
}

tunnel-deadlock_example : (much_later.near ≡ stuck.near) × (much_later.far ≡ stuck.far)
tunnel-deadlock_example =
    tunnel-deadlock 2 near_opts far_opts 10 15 stuck much_later stuck-Locked waiting

tunnel-locks_example :
    (c : Tunnel) × HeldReach 100 near_opts far_opts 10 15 start c × Locked 100 c.near c.far
tunnel-locks_example = tunnel-locks 100 near_opts far_opts 10 15 (omega arith)
