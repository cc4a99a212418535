-- ===== src/Tunnel/Runs.antt =====
-- Each relay of the tunnel as a whole call of `pump` in src/forward.rs.
use mathlib.Core.Path.{subst}
use rust_tcpao_proxy.Base.{ℕ, ◌≡◌, refl, ap, ◌∙◌, some, List, [], ◌∷◌, ◌++◌, Result}
use rust_tcpao_proxy.Error.{IoError}
use rust_tcpao_proxy.Forward.{PumpOptions, PumpStats, Arrival, pump}
use rust_tcpao_proxy.Forward.Awaits.{Wake, Pump, returned, wake, wakes}
use rust_tcpao_proxy.Forward.Awaits
use rust_tcpao_proxy.Forward.Awaits.Stands.{Stands}
use rust_tcpao_proxy.Forward.Awaits.Refines.{got, source_got, destination_got, wakes-Stands}
use rust_tcpao_proxy.Forward.Awaits.Waits.{run-append}
use rust_tcpao_proxy.Tunnel.{
  Relay, next_wake, Tunnel, opened, client_writes, client_closes, app_writes, app_closes, near_runs,
  far_runs, Reach, here, next,
}

module _ (started : ℕ) (opts : PumpOptions) where
  -- Where a relay stands is where `pump` stands after some wake-ups.
  abbrev pub Runs : Relay → Type 0
  Runs r = (ws : List Wake) × (wakes started opts (Awaits.opened started opts) ws ≡ r.pump)

  next_wake-Runs : (r : Relay) (w : Wake) → Runs r → Runs (next_wake started opts r w)
  unfolding next_wake
  next_wake-Runs r w (before, runs) = (
    before ++ w ∷ [],
    run-append started opts before w (Awaits.opened started opts)
        ∙ ap (λ p. wake started opts p w) runs,
  )

  -- A relay that has returned has done so as `pump` by whole rounds does for some arrivals.
  pub Runs-pump :
      (r : Relay) (res : Result IoError PumpStats)
      → Runs r
      → r.pump.point ≡ returned res
      → (made : List Arrival) × (pump opts started made ≡ (some res, r.pump.state))
  unfolding pump
  Runs-pump r res (ws, runs) e =
      let up = got started opts source_got (Awaits.opened started opts) ws in
      let down = got started opts destination_got (Awaits.opened started opts) ws in
      let at : Pump = record { point = returned res; state = r.pump.state } in
      let same : wakes started opts (Awaits.opened started opts) ws ≡ at =
        runs ∙ ap (λ p. record { point = p; state = r.pump.state }) e in
      let (made, (rounds, _)) =
        subst (λ p. Stands started opts up down p) same (wakes-Stands started opts ws) in
      (made, rounds)

module _ (near_opts far_opts : PumpOptions) (near_start far_start : ℕ) where
  pub Reach-Runs :
      {c : Tunnel}
      → Reach near_opts far_opts near_start far_start (opened near_start far_start) c
      → Runs near_start near_opts c.near × Runs far_start far_opts c.far
  unfolding wakes
  Reach-Runs here = (([], refl), ([], refl))
  Reach-Runs (next r (client_writes bs o e)) = rw e (Reach-Runs r)
  Reach-Runs (next r (client_closes e)) = rw e (Reach-Runs r)
  Reach-Runs (next r (app_writes bs o e)) = rw e (Reach-Runs r)
  Reach-Runs (next r (app_closes e)) = rw e (Reach-Runs r)
  Reach-Runs (next {d} r (near_runs w h e)) =
      let (n, f) = Reach-Runs r in rw e (next_wake-Runs near_start near_opts d.near w n, f)
  Reach-Runs (next {d} r (far_runs w h e)) =
      let (n, f) = Reach-Runs r in rw e (n, next_wake-Runs far_start far_opts d.far w f)
