-- ===== src/Forward.antt =====
-- src/forward.rs: relaying bytes between two streams. The loop waits for whichever comes first of a
-- read from the source, a read from the destination and, with a timeout, the timer; the model takes
-- the list of what came first in each round.
pub mod Relay
pub mod Ends
pub mod Returns
pub mod Rounds
pub mod Awaits
mod Tests
use rust_tcpao_proxy.Base.{
  ℕ, ◌+◌, ◌-◌, ◌%◌, ◌^◌, Bool, true, Option, none, some, List, [], ◌∷◌, ◌++◌, Result, ok, err,
  length, take,
}
use rust_tcpao_proxy.Error.{IoError}

pub record PumpOptions : Type 0 where
  pub idle_timeout : Option ℕ

pub data CloseReason : Type 0 where
  source_eof destination_eof idle_timeout : CloseReason

-- Durations and instants are in nanoseconds.
pub record PumpStats : Type 0 where
  pub bytes_up : ℕ
  pub bytes_down : ℕ
  pub reason : CloseReason
  pub duration : ℕ

-- How `write_all` ended: all bytes written, or an error after the stream took some of them.
pub data Written : Type 0 where
  all : Written
  partly : ℕ → IoError → Written

-- What a round of the loop waited for. A read gives the bytes that it put into the buffer, none at
-- the end of the stream; then follow the outcome of writing them on, and the time.
pub data Arrival : Type 0 where
  source_read : Result IoError (List ℕ) → Written → ℕ → Arrival
  destination_read : Result IoError (List ℕ) → Written → ℕ → Arrival
  elapsed : ℕ → Arrival

-- The two counters, what each stream has taken so far, and whether its write half is shut down.
pub record PumpState : Type 0 where
  pub source_to_destination : ℕ
  pub destination_to_source : ℕ
  pub to_destination : List ℕ
  pub to_source : List ℕ
  pub destination_shut : Bool
  pub source_shut : Bool

pub data Next : Type 0 where
  continue : PumpState → Next
  finish : PumpState → Result IoError PumpStats → Next

-- A counter is a `u64`.
abbrev pub add_u64 : ℕ → ℕ → ℕ
add_u64 n count = (n + count) % 2 ^ 64

abbrev pub stats : PumpState → CloseReason → ℕ → PumpStats
stats s why time = record {
  bytes_up = s.source_to_destination;
  bytes_down = s.destination_to_source;
  reason = why;
  duration = time;
}

module _ (started : ℕ) where
  unfoldable pub from_source : PumpState → Result IoError (List ℕ) → Written → ℕ → Next
  from_source s (err e) w now = finish s (err e)
  from_source s (ok []) w now =
      finish (record s { destination_shut = true }) (ok (stats s source_eof (now - started)))
  from_source s (ok (b ∷ bs)) all now = continue (record s {
    to_destination = s.to_destination ++ b ∷ bs;
    source_to_destination = add_u64 s.source_to_destination (length (b ∷ bs));
  })
  from_source s (ok (b ∷ bs)) (partly n e) now =
      finish (record s { to_destination = s.to_destination ++ take n (b ∷ bs) }) (err e)

  unfoldable pub from_destination : PumpState → Result IoError (List ℕ) → Written → ℕ → Next
  from_destination s (err e) w now = finish s (err e)
  from_destination s (ok []) w now =
      finish (record s { source_shut = true }) (ok (stats s destination_eof (now - started)))
  from_destination s (ok (b ∷ bs)) all now = continue (record s {
    to_source = s.to_source ++ b ∷ bs;
    destination_to_source = add_u64 s.destination_to_source (length (b ∷ bs));
  })
  from_destination s (ok (b ∷ bs)) (partly n e) now =
      finish (record s { to_source = s.to_source ++ take n (b ∷ bs) }) (err e)

  -- The timer is one of the things waited for only if there is a timeout.
  unfoldable pub from_timer : Option ℕ → PumpState → ℕ → Next
  from_timer none s now = continue s
  from_timer (some timeout) s now =
      finish (record s { source_shut = true; destination_shut = true })
        (ok (stats s idle_timeout (now - started)))

  -- One round of the loop.
  unfoldable pub pump_step : PumpOptions → PumpState → Arrival → Next
  unfolding from_source from_destination from_timer
  pump_step opts s (source_read r w now) = from_source s r w now
  pump_step opts s (destination_read r w now) = from_destination s r w now
  pump_step opts s (elapsed now) = from_timer opts.idle_timeout s now

  -- `none`: the arrivals are used up, and the loop waits.
  unfoldable pub pump_from :
      PumpOptions → PumpState → List Arrival → Option (Result IoError PumpStats) × PumpState
  unfolding pump_step
  pump_from opts s [] = (none, s)
  pump_from opts s (a ∷ rest) = elim (pump_step opts s a) [
    | continue s' ↦ pump_from opts s' rest
    | finish s' r ↦ (some r, s')
  ]

abbrev pub fresh : PumpState
fresh = record {
  source_to_destination = 0;
  destination_to_source = 0;
  to_destination = [];
  to_source = [];
  destination_shut = Bool.false;
  source_shut = Bool.false;
}

unfoldable pub pump : PumpOptions → ℕ → List Arrival → Option (Result IoError PumpStats) × PumpState
unfolding pump_from
pump opts started arrivals = pump_from started opts fresh arrivals
