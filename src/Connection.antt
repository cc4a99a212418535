-- ===== src/Connection.antt =====
-- What both modes share: the log of a connection, the loop that accepts connections, and how a
-- connection that was set up runs to its end.
pub mod Accept
pub mod Reports
pub mod Setup
mod Tests
use rust_tcpao_proxy.Base.{
  ℕ, ◌+◌, ◌/◌, ◌%◌, ◌^◌, Option, none, some, List, [], ◌∷◌, Text, Result, ok, err,
}
use rust_tcpao_proxy.Error.{IoError, ProxyError, io_error}
use rust_tcpao_proxy.Net.{SocketAddr}
use rust_tcpao_proxy.Config.{Mode, AoPolicyConfig, GlobalConfig, idle_timeout}
use rust_tcpao_proxy.Os.{Os, Trace}
use rust_tcpao_proxy.Forward.{PumpStats, CloseReason, PumpState, Arrival, pump}

-- The line `connection closed` of the log.
pub record Closed : Type 0 where
  pub mode : Mode
  pub conn_id : ℕ
  pub peer : SocketAddr
  pub policy : Text
  pub keyid : ℕ
  pub rnextkeyid : Option ℕ
  pub bytes_up : ℕ
  pub bytes_down : ℕ
  pub duration_ms : ℕ
  pub reason : CloseReason

-- The lines that a connection's task writes at its end.
pub data Log : Type 0 where
  closed : Closed → Log
  failed : Mode → ℕ → SocketAddr → ProxyError → Log

-- `duration.as_millis() as u64`.
abbrev pub millis : ℕ → ℕ
millis nanos = nanos / 1_000_000 % 2 ^ 64

abbrev pub closed_line : Mode → ℕ → SocketAddr → AoPolicyConfig → PumpStats → Closed
closed_line mode conn_id peer policy st = record {
  mode = mode;
  conn_id = conn_id;
  peer = peer;
  policy = policy.name;
  keyid = policy.keyid;
  rnextkeyid = policy.rnextkeyid;
  bytes_up = st.bytes_up;
  bytes_down = st.bytes_down;
  duration_ms = millis st.duration;
  reason = st.reason;
}

-- A connection that was set up: its policy, and the two streams as `pump` gets them.
pub record Streams : Type 0 where
  pub policy : AoPolicyConfig
  pub source : ℕ
  pub destination : ℕ

-- Where a connection has got to: it is still relaying, it is over, or it failed. What the streams
-- have taken is kept in the state of the loop; a connection that fails before has none.
pub data Outcome : Type 0 where
  relaying : Streams → PumpState → Outcome
  done : Streams → PumpState → Closed → Outcome
  broken : Option PumpState → ProxyError → Outcome

-- The end of `handle_connection`, from `pump` on.
unfoldable pub after_pump :
    Mode → ℕ → SocketAddr → Streams → Option (Result IoError PumpStats) × PumpState → Outcome
after_pump mode conn_id peer streams (none, s) = relaying streams s
after_pump mode conn_id peer streams (some (ok st), s) =
    done streams s (closed_line mode conn_id peer streams.policy st)
after_pump mode conn_id peer streams (some (err e), s) = broken (some s) (io_error e)

unfoldable pub relay :
    Mode → ℕ → SocketAddr → GlobalConfig → ℕ → List Arrival → Result ProxyError Streams → Outcome
unfolding after_pump idle_timeout pump
relay mode conn_id peer global started arrivals (err e) = broken none e
relay mode conn_id peer global started arrivals (ok streams) =
    after_pump mode conn_id peer streams
      (pump (record { idle_timeout = idle_timeout global }) started arrivals)

-- The `match` in the spawned task: what it logs.
unfoldable pub task_log : Mode → ℕ → SocketAddr → Outcome → List Log
task_log mode conn_id peer (relaying streams s) = []
task_log mode conn_id peer (done streams s line) = closed line ∷ []
task_log mode conn_id peer (broken s e) = failed mode conn_id peer e ∷ []

-- A spawned task: its number, and the accepted stream with its peer.
pub record Task : Type 0 where
  pub conn_id : ℕ
  pub stream : ℕ
  pub peer : SocketAddr

-- A connection as the environment brings it: the accepted stream and its peer, and what its task
-- meets, which is a system of its own that answers its calls, when `pump` begins, and its arrivals.
pub record Visit : Type 0 where
  pub stream : ℕ
  pub peer : SocketAddr
  pub oracle : Os
  pub started : ℕ
  pub arrivals : List Arrival

-- A task that was spawned: where its connection has got to, its calls, and what it has logged.
pub record Handled : Type 0 where
  pub task : Task
  pub visit : Visit
  pub outcome : Outcome
  pub calls : Trace
  pub log : List Log

-- The listener's loop: `CONN_ID`, the tasks it has spawned, and the error that ended it.
pub record Listening : Type 0 where
  pub next_id : ℕ
  pub tasks : List Handled
  pub ended : Option ProxyError

-- What `run` of a mode has made: the listening socket, the address that its tasks connect to, and the
-- loop.
pub record Serving : Type 0 where
  pub listener : ℕ
  pub target : SocketAddr
  pub loop : Listening

-- `CONN_ID.fetch_add(1)` on an `AtomicU64`.
abbrev pub fetch_add : ℕ → ℕ
fetch_add id = (id + 1) % 2 ^ 64

abbrev pub spawn : Handled → Listening → Listening
spawn h l = record l { tasks = h ∷ l.tasks }

abbrev pub task_of : ℕ → Visit → Task
task_of id v = record { conn_id = id; stream = v.stream; peer = v.peer }

-- The loop, over the outcomes of `accept`, with the body of the tasks that it spawns.
module _ (body : Task → Visit → Handled) where
  unfoldable pub accept_loop : ℕ → List (Result IoError Visit) → Listening
  accept_loop id [] = record { next_id = id; tasks = []; ended = none }
  accept_loop id (ok v ∷ rest) = spawn (body (task_of id v) v) (accept_loop (fetch_add id) rest)
  accept_loop id (err e ∷ rest) = record { next_id = id; tasks = []; ended = some (io_error e) }

-- The task that the loop spawns, by its `handle_connection`: it logs how that ended.
unfoldable pub spawned : Mode → (Task → Visit → Outcome × Trace) → Task → Visit → Handled
unfolding task_log
spawned mode handle k v =
    let (o, t) = handle k v in
    record { task = k; visit = v; outcome = o; calls = t; log = task_log mode k.conn_id k.peer o }
