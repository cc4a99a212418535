-- ===== src/Tunnel.antt =====
-- Two proxies in a row, as README.md puts them: a client, `pump` of src/forward.rs in the initiator,
-- the protected connection, `pump` in the terminator, and the application. Each of the three
-- connections gives its reader the bytes that were written to it in order, and the end of the stream
-- once its writer is done; it may break at any time. It may also take what is written to it as slowly as
-- it likes, so that a `write_all` lasts. The wake-ups of the two loops, at each of their awaits, take
-- any turns. What the client and the application read from their own connections is not part of this.
pub mod Hop
pub mod Lane
pub mod Pipe
pub mod Wakes
pub mod Refines
pub mod Runs
pub mod Complete
pub mod Stuck
pub mod Deadlock
pub mod Locks
mod Tests
use rust_tcpao_proxy.Base.{
  ◌*◌, ◌≤◌, length, ℕ, ◌≡◌, Bool, true, false, List, [], ◌∷◌, ◌++◌, Result, ok, err, IsPrefix,
}
use rust_tcpao_proxy.Error.{IoError}
use rust_tcpao_proxy.Forward.{PumpOptions, fresh}
use rust_tcpao_proxy.Forward.Awaits.{
  Event, source_reads, destination_reads, Wake, Point, selecting, returned, Pump, wake_at, wake,
}
use rust_tcpao_proxy.Forward.Awaits.Refines.{source_got, destination_got}

-- What was written to a connection from one side, and whether that side will write no more.
pub record Writer : Type 0 where
  pub written : List ℕ
  pub closed : Bool

-- The size of the two buffers of `pump`.
abbrev pub buffer_size : ℕ
buffer_size = 16 * 1024

-- What a read may give after `read` has been read.
unfoldable pub Supplies : Writer → List ℕ → Result IoError (List ℕ) → Type 0
Supplies w read (err e) = Unit
Supplies w read (ok []) = (w.closed ≡ true) × (read ≡ w.written)
Supplies w read (ok (b ∷ bs)) =
    (length (b ∷ bs) ≤ buffer_size) × IsPrefix (read ++ b ∷ bs) w.written

-- A call of `pump`: what it has read from each stream, and where its loop stands.
pub record Relay : Type 0 where
  pub source_bytes : List ℕ
  pub destination_bytes : List ℕ
  pub pump : Pump

abbrev pub idle : ℕ → Relay
idle started = record {
  source_bytes = [];
  destination_bytes = [];
  pump = record { point = selecting started; state = fresh };
}

-- The loop is woken up once.
unfoldable pub next_wake : ℕ → PumpOptions → Relay → Wake → Relay
unfolding wake_at
next_wake started opts r (e, now) = record {
  source_bytes = r.source_bytes ++ source_got r.pump.point e;
  destination_bytes = r.destination_bytes ++ destination_got r.pump.point e;
  pump = wake started opts r.pump (e, now);
}

-- The wake-ups that the two streams allow, where the loop stands.
unfoldable pub Admits : Writer → Writer → Relay → Point → Event → Type 0
unfolding Supplies
Admits source destination r (selecting since) (source_reads res) =
    Supplies source r.source_bytes res
Admits source destination r (selecting since) (destination_reads res) =
    Supplies destination r.destination_bytes res
Admits source destination r p e = Unit

-- When `pump` has returned, both of its streams are dropped.
abbrev pub is_over : Point → Bool
is_over (selecting since) = false
is_over (Point.to_destination chunk rest) = false
is_over (Point.to_source chunk rest) = false
is_over (returned res) = true

abbrev pub to_destination : Relay → Writer
to_destination r = record { written = r.pump.state.to_destination; closed = is_over r.pump.point }

abbrev pub to_source : Relay → Writer
to_source r = record { written = r.pump.state.to_source; closed = is_over r.pump.point }

pub record Tunnel : Type 0 where
  pub client : Writer
  pub near : Relay
  pub far : Relay
  pub app : Writer

abbrev silent : Writer
silent = record { written = []; closed = false }

-- The two loops begin at these times.
abbrev pub opened : ℕ → ℕ → Tunnel
opened near_start far_start = record {
  client = silent;
  near = idle near_start;
  far = idle far_start;
  app = silent;
}

abbrev pub write : Writer → List ℕ → Writer
write w bs = record w { written = w.written ++ bs }

abbrev pub close : Writer → Writer
close w = record w { closed = true }

-- Both proxies have their own configuration and clock.
module _ (near_opts far_opts : PumpOptions) (near_start far_start : ℕ) where
  pub data Step (c d : Tunnel) : Type 0 where
    client_writes :
        (bs : List ℕ)
        → c.client.closed ≡ false
        → d ≡ record c { client = write c.client bs }
        → Step c d
    client_closes : d ≡ record c { client = close c.client } → Step c d
    app_writes :
        (bs : List ℕ) → c.app.closed ≡ false → d ≡ record c { app = write c.app bs } → Step c d
    app_closes : d ≡ record c { app = close c.app } → Step c d
    near_runs :
        (w : Wake)
        → Admits c.client (to_source c.far) c.near c.near.pump.point w.0
        → d ≡ record c { near = next_wake near_start near_opts c.near w }
        → Step c d
    far_runs :
        (w : Wake)
        → Admits (to_destination c.near) c.app c.far c.far.pump.point w.0
        → d ≡ record c { far = next_wake far_start far_opts c.far w }
        → Step c d

  pub data Reach (c : Tunnel) : Tunnel → Type 0 where
    here : Reach c c
    next : {d e : Tunnel} → Reach c d → Step d e → Reach c e
