-- ===== src/Terminator/Tests.antt =====
-- A connection and the listener of the terminator on the sample system.
use mathlib.Core.Path.{refl}
use rust_tcpao_proxy.Base.{
  Any, ◌≢◌, ◌⊎◌, inr, sym, some, none, list_eq, arith, ◌≡◌, List, [], ◌∷◌, ok, codes,
}
use rust_tcpao_proxy.Forward.{Arrival, source_read, all}
use rust_tcpao_proxy.Os.Quiet.{Guarded}
use rust_tcpao_proxy.Terminator.{handle_connection, build_ao_listener}
use rust_tcpao_proxy.Terminator.Verified.{PlainGuard, handle_connection-verified}
use rust_tcpao_proxy.Terminator.Listener.{IsListening, bound, build_ao_listener-IsListening}
use rust_tcpao_proxy.Error.{ProxyError}
use rust_tcpao_proxy.Os.{Os, AoInfo, getsockopt}
use rust_tcpao_proxy.Terminator.Refuses.{handle_connection-refuses}
use rust_tcpao_proxy.Terminator.Covers.{InstallsPolicy, build_ao_listener-covers}
use rust_tcpao_proxy.Terminator.Connects.{handle_connection-forwards}
use rust_tcpao_proxy.Connection.Setup.{Joins}
use rust_tcpao_proxy.Tcpao.Applies.{IsProtected}
use rust_tcpao_proxy.Net.{ip_eq, port_eq}
use rust_tcpao_proxy.Policy.{select_policy}
use rust_tcpao_proxy.Config.{terminator}
use rust_tcpao_proxy.Connection.{broken, Streams, relay}
use rust_tcpao_proxy.Forward.{elapsed}
use rust_tcpao_proxy.Connection.{Task}
use rust_tcpao_proxy.Process.{
  Process, Running, Reach, here, next, accept, run, start, spawn, spawned, moved, advance,
}
use rust_tcpao_proxy.Process.Laws.{IsSafeProcess}
use rust_tcpao_proxy.Base.{false, ℕ}
use rust_tcpao_proxy.Terminator.Stages.{stages}
use rust_tcpao_proxy.Terminator.Tasks.{IsReady, tasks-verified}
use rust_tcpao_proxy.Samples.{any_port, system-IsWilling, system, local, remote, policies, global}

abbrev arrivals : List Arrival
arrivals = source_read (ok (codes "abc")) all 10 ∷ source_read (ok []) all 20 ∷ []

handle_connection-verified_example :
    Guarded
      (PlainGuard 9 remote local policies)
      (handle_connection system 0 9 remote local policies global 0 arrivals []).1
handle_connection-verified_example =
    handle_connection-verified system 0 9 remote local policies global 0 arrivals refl

listener_ok : (build_ao_listener system local policies []).0 ≡ ok 7
unfolding build_ao_listener
listener_ok = refl

build_ao_listener-IsListening_example :
    IsListening system local policies 7
      (bound local 7 [])
      (build_ao_listener system local policies []).1
build_ao_listener-IsListening_example =
    build_ao_listener-IsListening system local policies [] 7 refl listener_ok

chosen : select_policy policies remote.ip none ≡ some any_port
unfolding select_policy ip_eq list_eq port_eq
chosen = refl

wire-IsProtected : IsProtected system 9
wire-IsProtected = record {
  info = record { ao_required = 1 };
  answers = λ t. refl;
  requires = λ h. absurd (omega arith);
}

handle_connection-forwards_example :
    (s : Streams) × ((handle_connection system 0 9 remote local policies global 0 arrivals []).0
      ≡ relay terminator 0 remote global 0 arrivals (ok s))
    × Joins any_port 9 local s
        (handle_connection system 0 9 remote local policies global 0 arrivals []).1
handle_connection-forwards_example =
    handle_connection-forwards system any_port 0 9 remote local policies global 0 arrivals [] refl
      system-IsWilling chosen wire-IsProtected

build_ao_listener-covers_example :
    Any (InstallsPolicy system 7 any_port) (build_ao_listener system local policies []).1
build_ao_listener-covers_example =
    build_ao_listener-covers system local policies [] 7 remote.ip any_port refl listener_ok refl
      chosen

-- A kernel that does not say that connections require TCP-AO.
abbrev unprotected : Os
unprotected = record system { getsockopt = λ t fd. ok (record { ao_required = 0 }) }

not_required :
    ¬ ((info : AoInfo) × (unprotected.getsockopt [] 9 ≡ ok info) × (info.ao_required ≢ 0))
not_required (info, answer, required) = let same : 0 ≡ info.ao_required = cc in required (sym same)

handle_connection-refuses_example :
    (e : ProxyError) × ((handle_connection unprotected 0 9 remote local policies global 0 arrivals
        []).0
      ≡ broken none e)
    × (((handle_connection unprotected 0 9 remote local policies global 0 arrivals []).1 ≡ [])
        ⊎ ((handle_connection unprotected 0 9 remote local policies global 0 arrivals []).1
            ≡ getsockopt 9 (unprotected.getsockopt [] 9) ∷ []))
handle_connection-refuses_example =
    handle_connection-refuses unprotected 0 9 remote local policies global 0 arrivals [] refl
      (inr not_required)

-- Two connections are accepted, and the first of them comes to relay.
abbrev first : Task
first = record { conn_id = 1; stream = 9; peer = remote }

abbrev second : Task
second = record { conn_id = 2; stream = 8; peer = local }

abbrev two_accepted : Process
two_accepted = spawned (spawned start 9 remote system) 8 local system

abbrev runs : Running → ℕ → Running
runs r now = moved r (
    advance r.oracle (stages r.oracle local policies global) r.task r.stage (now, elapsed now)
      r.calls)

abbrev beside_second : Running → Process
beside_second r = record two_accepted { running = spawn second system ∷ r ∷ [] }

abbrev relays : Process
relays = beside_second (runs (runs (runs (spawn first system) 1) 2) 3)

abbrev first_runs :
    (r : Running) (now : ℕ)
    → Reach false (λ sys. stages sys local policies global) start (beside_second r)
    → Reach false (λ sys. stages sys local policies global) start (beside_second (runs r now))
first_runs r now h = next h (run (spawn second system ∷ []) [] r (now, elapsed now) refl refl refl)

relays-Reach : Reach false (λ sys. stages sys local policies global) start relays
relays-Reach = first_runs (runs (runs (spawn first system) 1) 2) 3 (
    first_runs (runs (spawn first system) 1) 2 (
      first_runs (spawn first system) 1 (
        next (next here (accept 9 remote system refl refl refl))
          (accept 8 local system refl refl refl))))

tasks-verified_example :
    IsSafeProcess false
      (λ sys. stages sys local policies global)
      (λ sys. IsReady sys local policies global)
      relays
tasks-verified_example = tasks-verified local policies global relays relays-Reach
