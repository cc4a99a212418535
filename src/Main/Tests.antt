-- ===== src/Main/Tests.antt =====
-- Runs of the program on the sample system.
use mathlib.Core.Path.{refl}
use rust_tcpao_proxy.Base.{
  ◌≡◌, ◌↔◌, [], ◌∷◌, List, ok, err, codes, none, true, false, Text, Result, list_eq,
}
use rust_tcpao_proxy.Error.{IoError, os, ProxyError, str, end, show_io}
use rust_tcpao_proxy.Net.{ip_eq, port_eq}
use rust_tcpao_proxy.Net.Parse.{parse_socket_addr}
use rust_tcpao_proxy.Forward.{source_read, all}
use rust_tcpao_proxy.Config.{Config, Mode}
use rust_tcpao_proxy.Config.Valid.{IsValid}
use rust_tcpao_proxy.Connection.{Visit, Serving, accept_loop}
use rust_tcpao_proxy.Connection.Accept.{visits}
use rust_tcpao_proxy.Initiator
use rust_tcpao_proxy.Main.{Cli, ModeArg, to_mode, serving, run, main, runs, exits}
use rust_tcpao_proxy.Main.Serves.{Loads, begun}
use rust_tcpao_proxy.Main.Startup.{Ends, run-checked, run-refuses}
use rust_tcpao_proxy.Main.Causes.{Ended}
use rust_tcpao_proxy.Main.Exits.{EndsWell, main-Ended, main-exits_iff}
use rust_tcpao_proxy.Main.Protects.{Protects, run-Protects}
use rust_tcpao_proxy.Samples
use rust_tcpao_proxy.Samples.{system, remote, local}

abbrev parse : Text → Result Text Config
parse raw = ok Samples.config

abbrev parse_empty : Text → Result Text Config
parse_empty raw = ok (record Samples.config { ao_policy = [] })

abbrev cli : Cli
cli = record {
  mode = ModeArg.initiator;
  config = codes "proxy.toml";
  log_format = none;
  dry_run = true;
}

-- A connection that sends three bytes and closes, and a failure of `accept`.
abbrev visit : Visit
visit = record {
  stream = 8;
  peer = local;
  oracle = system;
  started = 0;
  arrivals = source_read (ok (codes "abc")) all 1 ∷ source_read (ok []) all 2 ∷ [];
}

abbrev incoming : List (Result IoError Visit)
incoming = ok visit ∷ err (os 24) ∷ []

dry_run_ok : (main system parse (ok cli) [] []).0 ≡ exits 0 end
unfolding main list_eq ip_eq port_eq
dry_run_ok = refl

abbrev serve : Cli
serve = record cli { dry_run = false }

abbrev open_end : List (Result IoError Visit)
open_end = ok visit ∷ []

still_runs : (main system parse (ok serve) open_end []).0 ≡ runs
unfolding main list_eq ip_eq port_eq parse_socket_addr
still_runs = refl

out_of_files :
    (main system parse (ok serve) incoming []).0
    ≡ exits 1 (str "error: " (str "io error: " (show_io (os 24) end)))
unfolding main list_eq ip_eq port_eq parse_socket_addr
out_of_files = refl

-- What the program has made of that.
abbrev served : Serving
served = record {
  listener = 3;
  target = remote;
  loop = accept_loop (Initiator.serve remote Samples.policies Samples.global) 1 incoming;
}

starts : (run system parse serve incoming []).0 ≡ ok (serving Mode.initiator served)
unfolding run list_eq ip_eq port_eq parse_socket_addr
starts = refl

run-checked_example :
    (c : Config) × Loads system parse (codes "proxy.toml") [] c
    × IsValid c Mode.initiator
    × Ends system serve c incoming
        (serving Mode.initiator served)
        []
        (run system parse serve incoming []).1
unfolding to_mode
run-checked_example =
    run-checked system parse serve incoming [] (serving Mode.initiator served) starts

no_policies : ¬ IsValid (record Samples.config { ao_policy = [] }) (to_mode cli.mode)
no_policies v = v.nonempty refl

refuses_run :
    (e : ProxyError) × (run system parse_empty cli [] []
      ≡ (err e, begun system cli (record Samples.config { ao_policy = [] }) []))
refuses_run =
    run-refuses system parse_empty cli [] [] (record Samples.config { ao_policy = [] })
      (record { raw = codes "mode"; reads = refl; parses = refl }) no_policies

main-Ended_example :
    Ended system parse serve incoming [] (main system parse (ok serve) incoming []).0
main-Ended_example = main-Ended system parse serve incoming []

main-exits_iff_example :
    ((main system parse (ok cli) [] []).0 ≡ exits 0 end) ↔ EndsWell system parse [] (ok cli)
main-exits_iff_example = main-exits_iff system parse [] [] (ok cli)

run-Protects_example :
    Protects system parse serve served Mode.initiator [] (run system parse serve incoming []).1
unfolding visits
run-Protects_example =
    run-Protects system parse serve incoming [] Mode.initiator served refl (refl, tt) starts
