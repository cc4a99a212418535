-- ===== src/Forward/Tests.antt =====
-- Relaying on a concrete sequence of rounds.
use rust_tcpao_proxy.Base.{◌≡◌, ◌≢◌, ◌↔◌, refl, true, none, some, List, [], ◌∷◌, ok, codes, Any, ap}
use rust_tcpao_proxy.Forward.{
  PumpOptions, PumpStats, Arrival, source_read, destination_read, elapsed, all, pump, fresh,
  PumpState, source_eof, idle_timeout,
}
use rust_tcpao_proxy.Forward.Relay.{IsRelayed, pump-relays}
use rust_tcpao_proxy.Forward.Returns.{pump-returns_iff}
use rust_tcpao_proxy.Forward.Ends.{AtEnd, Reports, IsOpen, ClosesAs, pump-counts, pump-closes}
use rust_tcpao_proxy.Forward.Awaits.{
  source_reads, destination_reads, destination_takes, clock, Wake, returned, Pump, wakes, opened,
}
use rust_tcpao_proxy.Forward.Awaits.Stands.{Stands}
use rust_tcpao_proxy.Forward.Awaits.Refines.{source_got, destination_got, got, wakes-Stands}
use rust_tcpao_proxy.Forward.Awaits.Waits.{IdledOut}
use rust_tcpao_proxy.Forward.Awaits.Idles.{wakes-IdledOut}
use rust_tcpao_proxy.Forward.Relay

abbrev opts : PumpOptions
opts = record { idle_timeout = some 120 }

-- Three bytes up, two down, then the source ends.
abbrev arrivals : List Arrival
arrivals =
    source_read (ok (codes "abc")) all 10
    ∷ destination_read (ok (codes "de")) all 20
    ∷ source_read (ok []) all 30
    ∷ elapsed 200
    ∷ []

abbrev statistics : PumpStats
statistics = record { bytes_up = 3; bytes_down = 2; reason = source_eof; duration = 25 }

abbrev last : PumpState
last = record fresh {
  source_to_destination = 3;
  destination_to_source = 2;
  to_destination = codes "abc";
  to_source = codes "de";
  destination_shut = true;
}

runs : pump opts 5 arrivals ≡ (some (ok statistics), last)
unfolding pump
runs = refl

pump-relays_example : IsRelayed opts fresh arrivals (pump opts 5 arrivals)
pump-relays_example = pump-relays opts 5 arrivals

pump-counts_run : Reports (ok statistics) (pump opts 5 arrivals).1
pump-counts_run = pump-counts opts 5 arrivals (ap (λ r. r.0) runs)

pump-closes_example : AtEnd IsOpen (ClosesAs opts) (pump opts 5 arrivals)
pump-closes_example = pump-closes opts 5 arrivals

pump-returns_iff_example :
    ((pump opts 5 arrivals).0 ≢ none) ↔ Any (λ a. Relay.ends_loop opts a ≡ true) arrivals
pump-returns_iff_example = pump-returns_iff opts 5 arrivals

-- By its awaits: five bytes up, of which the destination takes three and then two, and then nothing
-- until the timer.
abbrev woken : List Wake
woken =
    (source_reads (ok (codes "abcde")), 10)
    ∷ (destination_takes (ok 3), 11)
    ∷ (destination_reads (ok (codes "zz")), 12)
    ∷ (destination_takes (ok 2), 20)
    ∷ (clock, 100)
    ∷ (clock, 140)
    ∷ []

abbrev idle_statistics : PumpStats
idle_statistics = record { bytes_up = 5; bytes_down = 0; reason = idle_timeout; duration = 135 }

abbrev first : Pump
first = opened 5 opts

idles : (wakes 5 opts first woken).point ≡ returned (ok idle_statistics)
unfolding wakes
idles = refl

wakes-Stands_example :
    Stands 5 opts
      (got 5 opts source_got first woken)
      (got 5 opts destination_got first woken)
      (wakes 5 opts first woken)
wakes-Stands_example = wakes-Stands 5 opts woken

wakes-IdledOut_example : IdledOut 5 opts woken (wakes 5 opts first woken).state
wakes-IdledOut_example = wakes-IdledOut 5 opts woken idle_statistics idles refl
