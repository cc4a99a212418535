-- ===== src/Tunnel/Wakes.antt =====
-- A wake-up of `pump` of src/forward.rs as a step of each of its two directions.
use mathlib.Core.List.{append-nil}
use rust_tcpao_proxy.Base.{
  ℕ, zero, suc, ◌+◌, ◌≡◌, refl, Bool-cases, inl, inr, leb, Option, none, some, List, [], ◌∷◌, ◌++◌,
  ok, err, drop,
}
use rust_tcpao_proxy.Forward.{PumpOptions, PumpState, CloseReason, source_eof, destination_eof}
use rust_tcpao_proxy.Forward.Awaits.{
  Event, source_reads, destination_reads, destination_takes, source_takes, clock, Point, selecting,
  to_destination, to_source, returned, Pump, source_arm, destination_arm, timer_arm,
  wrote_destination, wrote_source, take_destination, take_source, wake_at,
}
use rust_tcpao_proxy.Tunnel.{Writer, Supplies, Relay, next_wake, Admits}
use rust_tcpao_proxy.Tunnel.Hop.{
  Status, Hop, going, status_of, HopStep, waits, reads_in, passes, drains, stops, breaks,
}

abbrev pub status_at : CloseReason → Point → Status
status_at why (selecting since) = going
status_at why (to_destination chunk rest) = going
status_at why (to_source chunk rest) = going
status_at why (returned res) = status_of why res

abbrev left_for_destination : Point → List ℕ
left_for_destination (selecting since) = []
left_for_destination (to_destination chunk rest) = rest
left_for_destination (to_source chunk rest) = []
left_for_destination (returned res) = []

abbrev left_for_source : Point → List ℕ
left_for_source (selecting since) = []
left_for_source (to_destination chunk rest) = []
left_for_source (to_source chunk rest) = rest
left_for_source (returned res) = []

abbrev up_of : List ℕ → Pump → Hop
up_of read p = record {
  read = read;
  taken = p.state.to_destination;
  pending = left_for_destination p.point;
  status = status_at source_eof p.point;
}

abbrev down_of : List ℕ → Pump → Hop
down_of read p = record {
  read = read;
  taken = p.state.to_source;
  pending = left_for_source p.point;
  status = status_at destination_eof p.point;
}

abbrev pub up : Relay → Hop
up r = up_of r.source_bytes r.pump

abbrev pub down : Relay → Hop
down r = down_of r.destination_bytes r.pump

module _ (started : ℕ) (opts : PumpOptions) where
  timer-up :
      (w : Writer) (read : List ℕ) (timeout : Option ℕ) (since now : ℕ) (s : PumpState)
      → HopStep w
          (up_of read (record { point = selecting since; state = s }))
          (up_of (read ++ []) (timer_arm started opts timeout since s now))
  unfolding timer_arm
  timer-up w read none since now s = waits (rw append-nil refl)
  timer-up w read (some t) since now s = elim (Bool-cases (leb (since + t) now)) [
    | inl due ↦ rw due (stops refl (rw append-nil refl))
    | inr early ↦ rw early (waits (rw append-nil refl))
  ]

  timer-down :
      (w : Writer) (read : List ℕ) (timeout : Option ℕ) (since now : ℕ) (s : PumpState)
      → HopStep w
          (down_of read (record { point = selecting since; state = s }))
          (down_of (read ++ []) (timer_arm started opts timeout since s now))
  unfolding timer_arm
  timer-down w read none since now s = waits (rw append-nil refl)
  timer-down w read (some t) since now s = elim (Bool-cases (leb (since + t) now)) [
    | inl due ↦ rw due (stops refl (rw append-nil refl))
    | inr early ↦ rw early (waits (rw append-nil refl))
  ]

  wrote_destination-up :
      (read : List ℕ) (s : PumpState) (chunk left : List ℕ) (now : ℕ)
      → up_of (read ++ []) (wrote_destination started opts s chunk left now)
        ≡ record { read = read; taken = s.to_destination; pending = left; status = going }
  unfolding wrote_destination
  wrote_destination-up read s chunk [] now = rw append-nil refl
  wrote_destination-up read s chunk (b ∷ left) now = rw append-nil refl

  wrote_destination-down :
      (read : List ℕ) (s : PumpState) (chunk left : List ℕ) (now : ℕ)
      → down_of (read ++ []) (wrote_destination started opts s chunk left now)
        ≡ record { read = read; taken = s.to_source; pending = []; status = going }
  unfolding wrote_destination
  wrote_destination-down read s chunk [] now = rw append-nil refl
  wrote_destination-down read s chunk (b ∷ left) now = rw append-nil refl

  wrote_source-up :
      (read : List ℕ) (s : PumpState) (chunk left : List ℕ) (now : ℕ)
      → up_of (read ++ []) (wrote_source started opts s chunk left now)
        ≡ record { read = read; taken = s.to_destination; pending = []; status = going }
  unfolding wrote_source
  wrote_source-up read s chunk [] now = rw append-nil refl
  wrote_source-up read s chunk (b ∷ left) now = rw append-nil refl

  wrote_source-down :
      (read : List ℕ) (s : PumpState) (chunk left : List ℕ) (now : ℕ)
      → down_of (read ++ []) (wrote_source started opts s chunk left now)
        ≡ record { read = read; taken = s.to_source; pending = left; status = going }
  unfolding wrote_source
  wrote_source-down read s chunk [] now = rw append-nil refl
  wrote_source-down read s chunk (b ∷ left) now = rw append-nil refl

  module _ (source destination : Writer) (sb db : List ℕ) (s : PumpState) where
    abbrev relay : Point → Relay
    relay p = record {
      source_bytes = sb;
      destination_bytes = db;
      pump = record { point = p; state = s };
    }

    wake-up :
        (p : Point) (e : Event) (now : ℕ)
        → Admits source destination (relay p) p e
        → HopStep source (up (relay p)) (up (next_wake started opts (relay p) (e, now)))
    unfolding next_wake Admits Supplies wake_at source_arm destination_arm take_destination
        take_source
    wake-up (selecting since) (source_reads (err x)) now h = breaks refl (rw append-nil refl)
    wake-up (selecting since) (source_reads (ok [])) now (c, same) =
        drains refl refl c same (rw append-nil refl)
    wake-up (selecting since) (source_reads (ok (b ∷ bs))) now (_, h) =
        reads_in (b ∷ bs) refl refl h refl
    wake-up (selecting since) (destination_reads (err x)) now h = breaks refl (rw append-nil refl)
    wake-up (selecting since) (destination_reads (ok [])) now h = stops refl (rw append-nil refl)
    wake-up (selecting since) (destination_reads (ok (b ∷ bs))) now h = waits (rw append-nil refl)
    wake-up (selecting since) clock now h = timer-up source sb opts.idle_timeout since now s
    wake-up (to_destination chunk rest) (destination_takes (err x)) now h =
        breaks refl (rw append-nil refl)
    wake-up (to_destination chunk rest) (destination_takes (ok zero)) now h =
        waits (rw append-nil refl)
    wake-up (to_destination chunk rest) (destination_takes (ok (suc n))) now h =
        passes (suc n) refl (wrote_destination-up sb _ chunk (drop (suc n) rest) now)
    wake-up (to_source chunk rest) (source_takes (err x)) now h = breaks refl (rw append-nil refl)
    wake-up (to_source chunk rest) (source_takes (ok zero)) now h = waits (rw append-nil refl)
    wake-up (to_source chunk rest) (source_takes (ok (suc n))) now h =
        waits (wrote_source-up sb _ chunk (drop (suc n) rest) now)
    wake-up p _ now h = waits (rw append-nil refl)

    wake-down :
        (p : Point) (e : Event) (now : ℕ)
        → Admits source destination (relay p) p e
        → HopStep destination (down (relay p)) (down (next_wake started opts (relay p) (e, now)))
    unfolding next_wake Admits Supplies wake_at source_arm destination_arm take_destination
        take_source
    wake-down (selecting since) (destination_reads (err x)) now h = breaks refl (rw append-nil refl)
    wake-down (selecting since) (destination_reads (ok [])) now (c, same) =
        drains refl refl c same (rw append-nil refl)
    wake-down (selecting since) (destination_reads (ok (b ∷ bs))) now (_, h) =
        reads_in (b ∷ bs) refl refl h refl
    wake-down (selecting since) (source_reads (err x)) now h = breaks refl (rw append-nil refl)
    wake-down (selecting since) (source_reads (ok [])) now h = stops refl (rw append-nil refl)
    wake-down (selecting since) (source_reads (ok (b ∷ bs))) now h = waits (rw append-nil refl)
    wake-down (selecting since) clock now h =
        timer-down destination db opts.idle_timeout since now s
    wake-down (to_source chunk rest) (source_takes (err x)) now h = breaks refl (rw append-nil refl)
    wake-down (to_source chunk rest) (source_takes (ok zero)) now h = waits (rw append-nil refl)
    wake-down (to_source chunk rest) (source_takes (ok (suc n))) now h =
        passes (suc n) refl (wrote_source-down db _ chunk (drop (suc n) rest) now)
    wake-down (to_destination chunk rest) (destination_takes (err x)) now h =
        breaks refl (rw append-nil refl)
    wake-down (to_destination chunk rest) (destination_takes (ok zero)) now h =
        waits (rw append-nil refl)
    wake-down (to_destination chunk rest) (destination_takes (ok (suc n))) now h =
        waits (wrote_destination-down db _ chunk (drop (suc n) rest) now)
    wake-down p _ now h = waits (rw append-nil refl)

  pub next_wake-up :
      (source destination : Writer) (r : Relay) (w : Event × ℕ)
      → Admits source destination r r.pump.point w.0
      → HopStep source (up r) (up (next_wake started opts r w))
  next_wake-up source destination r (e, now) h =
      wake-up source destination r.source_bytes r.destination_bytes r.pump.state r.pump.point e now
        h

  pub next_wake-down :
      (source destination : Writer) (r : Relay) (w : Event × ℕ)
      → Admits source destination r r.pump.point w.0
      → HopStep destination (down r) (down (next_wake started opts r w))
  next_wake-down source destination r (e, now) h =
      wake-down source destination r.source_bytes r.destination_bytes r.pump.state r.pump.point e
        now h
