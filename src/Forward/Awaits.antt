-- ===== src/Forward/Awaits.antt =====
-- `pump` of src/forward.rs by the points where it awaits: in `tokio::select!`, and in `write_all`, which
-- runs inside an arm of the select, so that nothing else is waited for until all bytes are taken.
pub mod Stands
pub mod Writes
pub mod Refines
pub mod Waits
pub mod Idles
use rust_tcpao_proxy.Base.{
  ℕ, zero, suc, ◌+◌, ◌-◌, Bool, true, Option, none, some, List, [], ◌∷◌, ◌++◌, Result, ok, err,
  length, take, drop, leb, if◌then◌else◌,
}
use rust_tcpao_proxy.Error.{IoError}
use rust_tcpao_proxy.Forward.{
  PumpOptions, PumpStats, PumpState, source_eof, destination_eof, idle_timeout, add_u64, stats,
  fresh,
}

-- What the task is woken up by: a stream that has something to read, or that takes bytes (how many of
-- those offered), or the clock.
pub data Event : Type 0 where
  source_reads : Result IoError (List ℕ) → Event
  destination_reads : Result IoError (List ℕ) → Event
  destination_takes : Result IoError ℕ → Event
  source_takes : Result IoError ℕ → Event
  clock : Event

abbrev pub Wake : Type 0
Wake = Event × ℕ

-- Where the loop awaits: in the select since some time, with a timer that began then; or in a
-- `write_all` of what was read, of which a part is still to be written; or it has returned.
pub data Point : Type 0 where
  selecting : ℕ → Point
  to_destination : List ℕ → List ℕ → Point
  to_source : List ℕ → List ℕ → Point
  returned : Result IoError PumpStats → Point

pub record Pump : Type 0 where
  pub point : Point
  pub state : PumpState

module _ (started : ℕ) (opts : PumpOptions) where
  abbrev finished : PumpState → Result IoError PumpStats → Pump
  finished s r = record { point = returned r; state = s }

  abbrev writing : (List ℕ → List ℕ → Point) → PumpState → List ℕ → Pump
  writing where_to s chunk = record { point = where_to chunk chunk; state = s }

  -- The two arms of the select that read.
  unfoldable pub source_arm : PumpState → Result IoError (List ℕ) → ℕ → Pump
  source_arm s (err e) now = finished s (err e)
  source_arm s (ok []) now =
      finished (record s { destination_shut = true }) (ok (stats s source_eof (now - started)))
  source_arm s (ok (b ∷ bs)) now = writing to_destination s (b ∷ bs)

  unfoldable pub destination_arm : PumpState → Result IoError (List ℕ) → ℕ → Pump
  destination_arm s (err e) now = finished s (err e)
  destination_arm s (ok []) now =
      finished (record s { source_shut = true }) (ok (stats s destination_eof (now - started)))
  destination_arm s (ok (b ∷ bs)) now = writing to_source s (b ∷ bs)

  -- The arm of the timer, once the timeout has passed since the select began.
  unfoldable pub timer_arm : Option ℕ → ℕ → PumpState → ℕ → Pump
  timer_arm none since s now = record { point = selecting since; state = s }
  timer_arm (some timeout) since s now =
      if leb (since + timeout) now
      then finished (record s { source_shut = true; destination_shut = true })
          (ok (stats s idle_timeout (now - started)))
      else record { point = selecting since; state = s }

  -- After a stream has taken some of the bytes: `write_all` goes on with the rest, or has returned; then
  -- the arm ends with the count, and the loop begins a new select.
  unfoldable pub wrote_destination : PumpState → List ℕ → List ℕ → ℕ → Pump
  wrote_destination s chunk [] now = record {
    point = selecting now;
    state = record s { source_to_destination = add_u64 s.source_to_destination (length chunk) };
  }
  wrote_destination s chunk (b ∷ rest) now = record {
    point = to_destination chunk (b ∷ rest);
    state = s;
  }

  unfoldable pub wrote_source : PumpState → List ℕ → List ℕ → ℕ → Pump
  wrote_source s chunk [] now = record {
    point = selecting now;
    state = record s { destination_to_source = add_u64 s.destination_to_source (length chunk) };
  }
  wrote_source s chunk (b ∷ rest) now = record { point = to_source chunk (b ∷ rest); state = s }

  -- What tokio documents of `write_all`, whose code is not this program's: it returns once the stream has
  -- taken all bytes, or with an error; how many bytes the stream takes at a time is not said. The program
  -- then goes on by `?`.
  unfoldable pub take_destination : PumpState → List ℕ → List ℕ → Result IoError ℕ → ℕ → Pump
  unfolding wrote_destination
  take_destination s chunk rest (err e) now = finished s (err e)
  take_destination s chunk rest (ok zero) now = record {
    point = to_destination chunk rest;
    state = s;
  }
  take_destination s chunk rest (ok (suc n)) now =
      wrote_destination (record s { to_destination = s.to_destination ++ take (suc n) rest }) chunk
        (drop (suc n) rest) now

  unfoldable pub take_source : PumpState → List ℕ → List ℕ → Result IoError ℕ → ℕ → Pump
  unfolding wrote_source
  take_source s chunk rest (err e) now = finished s (err e)
  take_source s chunk rest (ok zero) now = record { point = to_source chunk rest; state = s }
  take_source s chunk rest (ok (suc n)) now =
      wrote_source (record s { to_source = s.to_source ++ take (suc n) rest }) chunk
        (drop (suc n) rest) now

  -- The task is woken up; what it does not wait for makes no difference.
  unfoldable pub wake_at : PumpState → Point → Event → ℕ → Pump
  unfolding source_arm destination_arm timer_arm take_destination take_source
  wake_at s (selecting since) (source_reads r) now = source_arm s r now
  wake_at s (selecting since) (destination_reads r) now = destination_arm s r now
  wake_at s (selecting since) clock now = timer_arm opts.idle_timeout since s now
  wake_at s (to_destination chunk rest) (destination_takes r) now =
      take_destination s chunk rest r now
  wake_at s (to_source chunk rest) (source_takes r) now = take_source s chunk rest r now
  wake_at s p _ now = record { point = p; state = s }

  abbrev pub wake : Pump → Wake → Pump
  unfolding wake_at
  wake p (e, now) = wake_at p.state p.point e now

  unfoldable pub wakes : Pump → List Wake → Pump
  unfolding wake_at
  wakes p [] = p
  wakes p (w ∷ ws) = wakes (wake p w) ws

  abbrev pub opened : Pump
  opened = record { point = selecting started; state = fresh }
