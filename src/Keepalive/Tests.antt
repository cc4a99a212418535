-- ===== src/Keepalive/Tests.antt =====
-- Keepalive on a socket of the sample system.
use mathlib.Core.Path.{refl}
use rust_tcpao_proxy.Base.{◌≡◌, ◌++◌, [], arith, ok}
use rust_tcpao_proxy.Keepalive.{apply_keepalive}
use rust_tcpao_proxy.Keepalive.Values.{keepalive_calls, InRange, apply_keepalive-calls}
use rust_tcpao_proxy.Samples.{system, global}

in_range : InRange global
in_range = record { time = omega arith; intvl = tt; probes = tt }

succeeds : (apply_keepalive system 7 global []).0 ≡ ok tt
unfolding apply_keepalive
succeeds = refl

apply_keepalive-calls_example :
    (apply_keepalive system 7 global []).1 ≡ keepalive_calls 7 global ++ []
apply_keepalive-calls_example = apply_keepalive-calls system 7 global [] in_range succeeds
