-- ===== src/Tunnel/Locks.antt =====
-- How the two pumps of src/forward.rs come to be each in a write to the other.
use mathlib.Core.List.{append-nil}
use rust_tcpao_proxy.Base.{
  ℕ, zero, suc, ◌<◌, ◌≤◌, ◌≡◌, refl, sym, ap, List, [], ◌∷◌, ok, length, take, drop, replicate,
  length-replicate, arith,
}
use rust_tcpao_proxy.Forward.{PumpOptions, fresh}
use rust_tcpao_proxy.Forward.Awaits.{
  source_reads, destination_reads, destination_takes, source_takes, Point, wake_at,
}
use rust_tcpao_proxy.Tunnel.{
  buffer_size, Relay, idle, next_wake, Admits, Supplies, Tunnel, opened, write, client_writes,
  app_writes, near_runs, far_runs,
}
use rust_tcpao_proxy.Tunnel.Deadlock.{Locked, HeldReach, held, here, next}

-- One byte more than there is room for.
abbrev too_many : ℕ → List ℕ
too_many room = 0 ∷ replicate room 0

drop-zeros : (n : ℕ) → drop n (too_many n) ≡ 0 ∷ []
drop-zeros zero = refl
drop-zeros (suc n) = drop-zeros n

length-take-zeros : (n : ℕ) → length (take n (too_many n)) ≡ n
length-take-zeros zero = refl
length-take-zeros (suc n) = omega (arith, length-take-zeros n)

-- All was read, and nothing or as much as there is room for was taken.
abbrev near_reading : ℕ → Relay
near_reading room = record {
  source_bytes = too_many room;
  destination_bytes = [];
  pump = record { point = Point.to_destination (too_many room) (too_many room); state = fresh };
}

abbrev near_full : ℕ → Relay
near_full room = record {
  source_bytes = too_many room;
  destination_bytes = [];
  pump = record {
    point = Point.to_destination (too_many room) (0 ∷ []);
    state = record fresh { to_destination = take room (too_many room) };
  };
}

abbrev far_reading : ℕ → Relay
far_reading room = record {
  source_bytes = [];
  destination_bytes = too_many room;
  pump = record { point = Point.to_source (too_many room) (too_many room); state = fresh };
}

abbrev far_full : ℕ → Relay
far_full room = record {
  source_bytes = [];
  destination_bytes = too_many room;
  pump = record {
    point = Point.to_source (too_many room) (0 ∷ []);
    state = record fresh { to_source = take room (too_many room) };
  };
}

near_fills :
    (started : ℕ) (opts : PumpOptions) (room now : ℕ)
    → next_wake started opts (near_reading room) (destination_takes (ok room), now) ≡ near_full room
unfolding next_wake wake_at
near_fills started opts zero now = refl
near_fills started opts (suc n) now = rw (drop-zeros n, append-nil {A = ℕ} (replicate n 0)) refl

far_fills :
    (started : ℕ) (opts : PumpOptions) (room now : ℕ)
    → next_wake started opts (far_reading room) (source_takes (ok room), now) ≡ far_full room
unfolding next_wake wake_at
far_fills started opts zero now = refl
far_fills started opts (suc n) now = rw (drop-zeros n, append-nil {A = ℕ} (replicate n 0)) refl

near_reads :
    (started : ℕ) (opts : PumpOptions) (room now : ℕ)
    → next_wake started opts (idle started) (source_reads (ok (too_many room)), now)
      ≡ near_reading room
unfolding next_wake wake_at
near_reads started opts room now = refl

far_reads :
    (started : ℕ) (opts : PumpOptions) (room now : ℕ)
    → next_wake started opts (idle started) (destination_reads (ok (too_many room)), now)
      ≡ far_reading room
unfolding next_wake wake_at
far_reads started opts room now = refl

module _ (room : ℕ) (near_opts far_opts : PumpOptions) (near_start far_start : ℕ) where
  abbrev both_written : Tunnel
  both_written = record (opened near_start far_start) {
    client = write (opened near_start far_start).client (too_many room);
    app = write (opened near_start far_start).app (too_many room);
  }

  abbrev both_reading : Tunnel
  both_reading = record both_written { near = near_reading room; far = far_reading room }

  abbrev both_full : Tunnel
  both_full = record both_written { near = near_full room; far = far_full room }

  both_reading-HeldReach :
      room < buffer_size
      → HeldReach room near_opts far_opts near_start far_start
          (opened near_start far_start)
          both_reading
  unfolding Admits Supplies
  both_reading-HeldReach h =
      let fits : length (too_many room) ≤ buffer_size =
        omega (arith, h, length-replicate {A = ℕ} room 0) in
      let written : HeldReach room near_opts far_opts near_start far_start
          (opened near_start far_start) both_written =
        next
          (next here
            (held (client_writes (too_many room) refl refl) tt (omega arith) (omega arith)))
          (held (app_writes (too_many room) refl refl) tt (omega arith) (omega arith)) in
      next
        (next written (
          held
            (near_runs (source_reads (ok (too_many room)), 0) (fits, ([], append-nil _))
              (ap (λ x. record both_written { near = x })
                (sym (near_reads near_start near_opts room 0))))
            tt (omega arith) (omega arith)))
        (held
          (far_runs (destination_reads (ok (too_many room)), 0) (fits, ([], append-nil _))
            (ap (λ x. record both_written { near = near_reading room; far = x })
              (sym (far_reads far_start far_opts room 0))))
          tt (omega arith) (omega arith))

  -- When the protected connection has room for less than the 16 KiB of a buffer, each way, then however
  -- the timeouts are configured, two proxies that have just been opened can come, without a failure
  -- of that connection, to be each in a write to the other with no room left either way.
  pub tunnel-locks :
      room < buffer_size
      → (c : Tunnel) × HeldReach room near_opts far_opts near_start far_start
          (opened near_start far_start)
          c
        × Locked room c.near c.far
  unfolding Admits Supplies
  tunnel-locks h =
      let full = length-take-zeros room in
      (
        both_full,
        next
            (next (both_reading-HeldReach h) (
              held
                (near_runs (destination_takes (ok room), 0) tt
                  (ap (λ x. record both_reading { near = x })
                    (sym (near_fills near_start near_opts room 0))))
                tt (omega (arith, full)) (omega arith)))
            (held
              (far_runs (source_takes (ok room), 0) tt
                (ap (λ x. record both_full { far = x })
                  (sym (far_fills far_start far_opts room 0))))
              tt (omega (arith, full)) (omega (arith, full))),
        record {
          near_writes = (too_many room, 0, [], refl);
          far_writes = (too_many room, 0, [], refl);
          up_full = omega (arith, full);
          down_full = omega (arith, full);
        },
      )
