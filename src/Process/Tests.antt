-- ===== src/Process/Tests.antt =====
-- The process of an initiator that has accepted two connections.
use rust_tcpao_proxy.Base.{◌≤◌, ◌^◌, false, length, Distinct, refl}
use rust_tcpao_proxy.Os.{Os}
use rust_tcpao_proxy.Process.{Stages, Process, Reach, here, next, accept, start, spawned}
use rust_tcpao_proxy.Process.Numbers.{IsNumbered, Reach-numbers}
use rust_tcpao_proxy.Initiator.Tasks.{stages}
use rust_tcpao_proxy.Samples.{system, local, remote, policies, global}

abbrev initiator : Os → Stages
initiator sys = stages sys remote policies global

abbrev first : Process
first = spawned start 8 local system

abbrev second : Process
second = spawned first 9 local system

second-Reach : Reach false initiator start second
second-Reach =
    next (next here (accept 8 local system refl refl refl)) (accept 9 local system refl refl refl)

Reach-numbers_example :
    IsNumbered second
    × (length second.running ≤ 2 ^ 64 → Distinct (λ r. r.task.conn_id) second.running)
Reach-numbers_example = Reach-numbers false initiator second second-Reach
