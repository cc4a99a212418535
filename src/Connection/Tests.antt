-- ===== src/Connection/Tests.antt =====
-- The loop that accepts connections on two streams and a failure.
use rust_tcpao_proxy.Base.{
  refl, none, codes, ℕ, ◌+◌, ◌-◌, ◌^◌, ◌%◌, ◌≡◌, List, [], ◌∷◌, ok, err, length, arith,
}
use rust_tcpao_proxy.Error.{os}
use rust_tcpao_proxy.Config.{Mode}
use rust_tcpao_proxy.Forward.{Arrival, source_read, destination_read, all, pump, destination_eof}
use rust_tcpao_proxy.Net.{SocketAddr}
use rust_tcpao_proxy.Initiator
use rust_tcpao_proxy.Connection.{
  Task, Visit, Handled, accept_loop, Streams, Closed, closed, task_log, relay,
}
use rust_tcpao_proxy.Connection.Reports.{Describes, options, task_log-Describes}
use rust_tcpao_proxy.Connection.Accept.{
  Accepted, visits, failure, end_of, numbered, accept_loop-serves,
}
use rust_tcpao_proxy.Samples.{exact, global, remote, local, policies, system}

abbrev arrivals : List Arrival
arrivals =
    source_read (ok (codes "abc")) all 10_000_000
    ∷ destination_read (ok (codes "de")) all 20_000_000
    ∷ destination_read (ok []) all 3_000_000_000
    ∷ []

abbrev visit : ℕ → SocketAddr → Visit
visit stream peer = record {
  stream = stream;
  peer = peer;
  oracle = system;
  started = 0;
  arrivals = arrivals;
}

abbrev outcomes : List Accepted
outcomes = ok (visit 8 remote) ∷ ok (visit 9 local) ∷ err (os 24) ∷ ok (visit 10 remote) ∷ []

abbrev last_id : ℕ
last_id = 2 ^ 64 - 1

-- The tasks of an initiator.
abbrev body : Task → Visit → Handled
body = Initiator.serve remote policies global

accept_loop-serves_example :
    ((accept_loop body last_id outcomes).tasks ≡ numbered body last_id (visits outcomes))
    × ((accept_loop body last_id outcomes).next_id ≡ (last_id + length (visits outcomes)) % 2 ^ 64)
    × ((accept_loop body last_id outcomes).ended ≡ end_of (failure outcomes))
accept_loop-serves_example = accept_loop-serves body last_id outcomes (omega arith)

abbrev streams_up : Streams
streams_up = record { policy = exact; source = 5; destination = 7 }

abbrev line : Closed
line = record {
  mode = Mode.initiator;
  conn_id = 4;
  peer = local;
  policy = codes "exact";
  keyid = 1;
  rnextkeyid = none;
  bytes_up = 3;
  bytes_down = 2;
  duration_ms = 3000;
  reason = destination_eof;
}

logs :
    task_log Mode.initiator 4 local (relay Mode.initiator 4 local global 0 arrivals (ok streams_up))
    ≡ closed line ∷ []
unfolding task_log relay
logs = refl

task_log-Describes_example :
    Describes Mode.initiator 4 local global streams_up (pump (options global) 0 arrivals).1 line
task_log-Describes_example =
    task_log-Describes Mode.initiator 4 local global 0 arrivals streams_up line logs
