-- ===== src/Initiator/Tests.antt =====
-- A connection of the initiator on the sample system.
use mathlib.Core.Path.{refl}
use rust_tcpao_proxy.Base.{◌≡◌, true, some, list_eq, List, [], ◌∷◌, ok, codes}
use rust_tcpao_proxy.Forward.{Arrival, source_read, all}
use rust_tcpao_proxy.Connection.{Streams, relay}
use rust_tcpao_proxy.Os.Quiet.{Guarded}
use rust_tcpao_proxy.Initiator.{wire_socket, handle_connection}
use rust_tcpao_proxy.Initiator.FailClosed.{WireGuard, handle_connection-fails_closed}
use rust_tcpao_proxy.Initiator.Connects.{handle_connection-connects}
use rust_tcpao_proxy.Connection.Setup.{Joins}
use rust_tcpao_proxy.Tcpao.Applies.{IsKeyed}
use rust_tcpao_proxy.Tcpao.Key.{key_request, fill_add}
use rust_tcpao_proxy.Net.{ip_eq, port_eq}
use rust_tcpao_proxy.Policy.{select_policy}
use rust_tcpao_proxy.Config.{load_key_bytes, initiator}
use rust_tcpao_proxy.Os.{little}
use rust_tcpao_proxy.Forward.{elapsed}
use rust_tcpao_proxy.Connection.{Task}
use rust_tcpao_proxy.Process.{
  Process, Running, Reach, here, next, accept, run, start, spawn, spawned, moved, advance,
}
use rust_tcpao_proxy.Process.Laws.{IsSafeProcess}
use rust_tcpao_proxy.Base.{All, false, ℕ}
use rust_tcpao_proxy.Process.Alone.{settled}
use rust_tcpao_proxy.Connection.{relaying}
use rust_tcpao_proxy.Forward.{fresh}
use rust_tcpao_proxy.Initiator.Tasks.{
  IsReady, IsHandled, stages, tasks-IsSafeProcess, tasks-handle_connection,
}
use rust_tcpao_proxy.Samples.{exact, system-IsWilling, system, local, remote, policies, global}

abbrev arrivals : List Arrival
arrivals = source_read (ok (codes "abc")) all 10 ∷ source_read (ok []) all 20 ∷ []

handle_connection-fails_closed_example :
    Guarded
      (WireGuard system policies remote)
      (handle_connection system 0 5 local remote policies global 0 arrivals []).1
handle_connection-fails_closed_example =
    handle_connection-fails_closed system 0 5 local remote policies global 0 arrivals refl

chosen : select_policy policies remote.ip (some remote.port) ≡ some exact
unfolding select_policy ip_eq list_eq port_eq
chosen = refl

exact-IsKeyed : IsKeyed system exact remote
unfolding load_key_bytes key_request
exact-IsKeyed = record {
  key = codes "secret";
  loads = λ t. refl;
  add = fill_add little exact remote (codes "secret") true (codes "hmac(sha1)") 12;
  requests = refl;
}

handle_connection-connects_example :
    (s : Streams) × ((handle_connection system 0 5 local remote policies global 0 arrivals []).0
      ≡ relay initiator 0 local global 0 arrivals (ok s))
    × Joins exact 5 remote s
        (handle_connection system 0 5 local remote policies global 0 arrivals []).1
handle_connection-connects_example =
    handle_connection-connects system exact 0 5 local remote policies global 0 arrivals [] refl
      system-IsWilling chosen exact-IsKeyed

-- Two connections are accepted, and the first of them comes to relay.
abbrev first : Task
first = record { conn_id = 1; stream = 5; peer = local }

abbrev second : Task
second = record { conn_id = 2; stream = 6; peer = local }

abbrev two_accepted : Process
two_accepted = spawned (spawned start 5 local system) 6 local system

abbrev runs : Running → ℕ → Running
runs r now = moved r (
    advance r.oracle (stages r.oracle remote policies global) r.task r.stage (now, elapsed now)
      r.calls)

abbrev beside_second : Running → Process
beside_second r = record two_accepted { running = spawn second system ∷ r ∷ [] }

abbrev relays : Process
relays = beside_second (runs (runs (runs (spawn first system) 1) 2) 3)

abbrev first_runs :
    (r : Running) (now : ℕ)
    → Reach false (λ sys. stages sys remote policies global) start (beside_second r)
    → Reach false (λ sys. stages sys remote policies global) start (beside_second (runs r now))
first_runs r now h = next h (run (spawn second system ∷ []) [] r (now, elapsed now) refl refl refl)

relays-Reach : Reach false (λ sys. stages sys remote policies global) start relays
relays-Reach = first_runs (runs (runs (spawn first system) 1) 2) 3 (
    first_runs (runs (spawn first system) 1) 2 (
      first_runs (spawn first system) 1 (
        next (next here (accept 5 local system refl refl refl))
          (accept 6 local system refl refl refl))))

tasks-IsSafeProcess_example :
    IsSafeProcess false
      (λ sys. stages sys remote policies global)
      (λ sys. IsReady sys remote policies global)
      relays
tasks-IsSafeProcess_example = tasks-IsSafeProcess remote policies global relays relays-Reach

tasks-handle_connection_example : All (IsHandled remote policies global) relays.running
tasks-handle_connection_example =
    tasks-handle_connection remote policies global false relays relays-Reach

-- The first task relays there, so what is said of it is not empty.
first-settled :
    settled (runs (runs (runs (spawn first system) 1) 2) 3).stage
    ≡ some (relaying (record { policy = exact; source = 5; destination = 7 }) fresh)
unfolding settled advance list_eq ip_eq port_eq select_policy wire_socket
first-settled = refl
