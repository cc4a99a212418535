-- ===== src/Main/Protects.antt =====
-- `main` of cmd/tcpao-proxy/main.rs in a mode of src/mode_initiator.rs or src/mode_terminator.rs: the
-- connections of the whole program.
use mathlib.Core.Path.{subst}
use rust_tcpao_proxy.Base.{ℕ, ◌≡◌, refl, sym, ap, false, List, All, Text, Result, ok}
use rust_tcpao_proxy.Error.{IoError}
use rust_tcpao_proxy.Net.{SocketAddr}
use rust_tcpao_proxy.Config.{Config, Mode}
use rust_tcpao_proxy.Config.Valid.{IsValid}
use rust_tcpao_proxy.Os.{Os, Trace}
use rust_tcpao_proxy.Os.Quiet.{Guarded}
use rust_tcpao_proxy.Connection.{Task, Visit, Handled, Serving}
use rust_tcpao_proxy.Connection.Accept.{visits, All-tasks}
use rust_tcpao_proxy.Initiator
use rust_tcpao_proxy.Initiator.FailClosed.{WireGuard, handle_connection-fails_closed}
use rust_tcpao_proxy.Terminator
use rust_tcpao_proxy.Terminator.Verified.{PlainGuard, handle_connection-verified}
use rust_tcpao_proxy.Terminator.Listener.{IsListening, bound, build_ao_listener-IsListening}
use rust_tcpao_proxy.Main.Listens.{IsUp}
use rust_tcpao_proxy.Main.Serves.{Loads, begun, mode_loop, Serves}
use rust_tcpao_proxy.Main.Startup.{Ends-serving, run-checked}
use rust_tcpao_proxy.Main.{Cli, to_mode, serving, run}

-- Every `connect` of a task: under the key of the policy for the remote address, or for a peer that was
-- verified.
abbrev pub IsProtected : Mode → Config → SocketAddr → Handled → Type 0
IsProtected Mode.initiator c a h = Guarded (WireGuard h.visit.oracle c.ao_policy a) h.calls
IsProtected Mode.terminator c a h =
    Guarded (PlainGuard h.task.stream h.task.peer a c.ao_policy) h.calls

-- The terminator's listener got the keys of the policies before it was told to listen.
abbrev pub IsArmedListener : Os → Mode → Config → ℕ → Trace → Trace → Type 0
IsArmedListener sys Mode.initiator c fd t out = Unit
IsArmedListener sys Mode.terminator c fd t out =
    (a : SocketAddr) × IsListening sys a c.ao_policy fd (bound a fd t) out

abbrev pub IsRelease : Os → Type 0
IsRelease sys = sys.debug_assertions ≡ false

initiator-IsProtected :
    (c : Config) (a : SocketAddr) (k : Task) (v : Visit)
    → IsRelease v.oracle
    → IsProtected Mode.initiator c a (Initiator.serve a c.ao_policy c.global k v)
unfolding Initiator.serve
initiator-IsProtected c a k v release =
    handle_connection-fails_closed v.oracle k.conn_id k.stream k.peer a c.ao_policy c.global
      v.started v.arrivals release

terminator-IsProtected :
    (c : Config) (a : SocketAddr) (k : Task) (v : Visit)
    → IsRelease v.oracle
    → IsProtected Mode.terminator c a (Terminator.serve a c.ao_policy c.global k v)
unfolding Terminator.serve
terminator-IsProtected c a k v release =
    handle_connection-verified v.oracle k.conn_id k.stream k.peer a c.ao_policy c.global v.started
      v.arrivals release

mode_loop-All :
    (mode : Mode) (c : Config) (a : SocketAddr) (incoming : List (Result IoError Visit))
    → All (λ v. IsRelease v.oracle) (visits incoming)
    → All (IsProtected mode c a) (mode_loop mode a c incoming).tasks
mode_loop-All Mode.initiator c a incoming h =
    All-tasks (Initiator.serve a c.ao_policy c.global) _ (IsProtected Mode.initiator c a)
      (initiator-IsProtected c a) 1 incoming h
mode_loop-All Mode.terminator c a incoming h =
    All-tasks (Terminator.serve a c.ao_policy c.global) _ (IsProtected Mode.terminator c a)
      (terminator-IsProtected c a) 1 incoming h

Serves-IsArmedListener :
    (sys : Os) (mode : Mode) (c : Config) (incoming : List (Result IoError Visit)) (s : Serving)
    (t out : Trace)
    → IsRelease sys
    → Serves sys mode c incoming s t out
    → IsArmedListener sys mode c s.listener t out
Serves-IsArmedListener sys Mode.initiator c incoming s t out release serves = tt
Serves-IsArmedListener sys Mode.terminator c incoming s t out release serves =
    let up = serves.up.0 in
    (
      up.listen_addr,
      subst
          (λ x.
            IsListening sys up.listen_addr c.ao_policy s.listener
              (bound up.listen_addr s.listener t) x)
          (ap (λ x. x.1) up.opens)
          (build_ao_listener-IsListening sys up.listen_addr c.ao_policy t s.listener release
            (ap (λ x. x.0) up.opens)),
    )

-- What the program does while it serves, from the file on the command line on.
pub record Protects (sys : Os) (parse_toml : Text → Result Text Config) (cli : Cli) (s : Serving)
    (mode : Mode) (t out : Trace) : Type 0 where
  pub config : Config
  pub loads : Loads sys parse_toml cli.config t config
  pub valid : IsValid config mode
  pub asked : mode ≡ to_mode cli.mode
  pub up : IsUp sys config mode s.listener s.target (begun sys cli config t) out
  pub armed : IsArmedListener sys mode config s.listener (begun sys cli config t) out
  pub tasks : All (IsProtected mode config s.target) s.loop.tasks

Serves-Protects :
    (sys : Os) (parse_toml : Text → Result Text Config) (cli : Cli)
    (incoming : List (Result IoError Visit)) (t out : Trace) (s : Serving) (c : Config)
    → IsRelease sys
    → All (λ v. IsRelease v.oracle) (visits incoming)
    → Loads sys parse_toml cli.config t c
    → IsValid c (to_mode cli.mode)
    → Serves sys (to_mode cli.mode) c incoming s (begun sys cli c t) out
    → Protects sys parse_toml cli s (to_mode cli.mode) t out
Serves-Protects sys parse_toml cli incoming t out s c release releases loads valid serves = record {
  config = c;
  loads = loads;
  valid = valid;
  asked = refl;
  up = serves.up;
  armed =
      Serves-IsArmedListener sys (to_mode cli.mode) c incoming s (begun sys cli c t) out release
        serves;
  tasks =
      subst (λ l. All (IsProtected (to_mode cli.mode) c s.target) l.tasks) (sym serves.loops)
        (mode_loop-All (to_mode cli.mode) c s.target incoming releases);
}

-- In a release build, whatever the systems answer and the environment brings, a run of the program
-- that gets to serve has read a configuration from the file on the command line that is valid for the
-- mode asked for, and whose address of the other end was parsed; a terminator's listener got the keys of that configuration's policies of its
-- family and was made to require TCP-AO before it was told to listen; and each `connect` of each task
-- goes to the address of the other end, for an initiator on a socket that before got the key of the
-- policy of that address and was made to require TCP-AO, for a terminator after a policy was found
-- for the peer and the kernel said that the peer's connection requires TCP-AO.
pub run-Protects :
    (sys : Os) (parse_toml : Text → Result Text Config) (cli : Cli)
    (incoming : List (Result IoError Visit)) (t : Trace) (mode : Mode) (s : Serving)
    → IsRelease sys
    → All (λ v. IsRelease v.oracle) (visits incoming)
    → (run sys parse_toml cli incoming t).0 ≡ ok (serving mode s)
    → Protects sys parse_toml cli s mode t (run sys parse_toml cli incoming t).1
run-Protects sys parse_toml cli incoming t mode s release releases h =
    let (c, loads, valid, ends) = run-checked sys parse_toml cli incoming t (serving mode s) h in
    let out = (run sys parse_toml cli incoming t).1 in
    let (asked, serves) = Ends-serving sys cli c incoming mode s t out ends in
    rw asked
      (Serves-Protects sys parse_toml cli incoming t out s c release releases loads valid serves)
