-- ===== src/Tunnel/Deadlock.antt =====
-- Two pumps of src/forward.rs, each in a write to the other, over a connection of limited room.
use rust_tcpao_proxy.Base.{ℕ, ◌+◌, ◌≤◌, ◌≡◌, refl, ap, ◌∙◌, inl, inr, List, length, arith}
use rust_tcpao_proxy.Forward.{PumpOptions}
use rust_tcpao_proxy.Tunnel.{
  Relay, Tunnel, Step, client_writes, client_closes, app_writes, app_closes, near_runs, far_runs,
}
use rust_tcpao_proxy.Tunnel.Stuck.{
  NearHolds, FarHolds, WritesUp, WritesDown, WritesUp-stuck, WritesDown-stuck,
}

abbrev HasRoom : List ℕ → List ℕ → ℕ → Type 0
HasRoom written read room = length written ≤ length read + room

-- Each proxy is in a write to the other, and the connection between them has no room either way.
pub record Locked (room : ℕ) (near far : Relay) : Type 0 where
  pub near_writes : WritesUp near
  pub far_writes : WritesDown far
  pub up_full : length near.pump.state.to_destination ≡ length far.source_bytes + room
  pub down_full : length far.pump.state.to_source ≡ length near.destination_bytes + room

module _ (room : ℕ) (near_opts far_opts : PumpOptions) (near_start far_start : ℕ) where
  abbrev Holds : {c d : Tunnel} → Step near_opts far_opts near_start far_start c d → Type 0
  Holds (client_writes bs o e) = Unit
  Holds (client_closes e) = Unit
  Holds (app_writes bs o e) = Unit
  Holds (app_closes e) = Unit
  Holds (near_runs w h e) = NearHolds w
  Holds (far_runs w h e) = FarHolds w

  -- A step of the tunnel in which the protected connection does not fail and holds no more bytes than
  -- it has room for, in either direction.
  pub data HeldStep (c d : Tunnel) : Type 0 where
    held :
        (s : Step near_opts far_opts near_start far_start c d)
        → Holds s
        → HasRoom d.near.pump.state.to_destination d.far.source_bytes room
        → HasRoom d.far.pump.state.to_source d.near.destination_bytes room
        → HeldStep c d

  pub data HeldReach (c : Tunnel) : Tunnel → Type 0 where
    here : HeldReach c c
    next : {d e : Tunnel} → HeldReach c d → HeldStep d e → HeldReach c e

  abbrev IsStuck : Tunnel → Tunnel → Type 0
  IsStuck c d = (d.near ≡ c.near) × (d.far ≡ c.far)

  HeldStep-IsStuck : {c d : Tunnel} → HeldStep c d → Locked room c.near c.far → IsStuck c d
  HeldStep-IsStuck (held (client_writes bs o e) h u v) k = (ap (λ x. x.near) e, ap (λ x. x.far) e)
  HeldStep-IsStuck (held (client_closes e) h u v) k = (ap (λ x. x.near) e, ap (λ x. x.far) e)
  HeldStep-IsStuck (held (app_writes bs o e) h u v) k = (ap (λ x. x.near) e, ap (λ x. x.far) e)
  HeldStep-IsStuck (held (app_closes e) h u v) k = (ap (λ x. x.near) e, ap (λ x. x.far) e)
  HeldStep-IsStuck {c} (held (near_runs w a e) h u v) k =
      elim (WritesUp-stuck near_start near_opts c.near w k.near_writes h) [
        | inl same ↦ (ap (λ x. x.near) e ∙ same, ap (λ x. x.far) e)
        | inr grows ↦ let k' = rw e at u in absurd (omega (arith, k', grows, k.up_full))
      ]
  HeldStep-IsStuck {c} (held (far_runs w a e) h u v) k =
      elim (WritesDown-stuck far_start far_opts c.far w k.far_writes h) [
        | inl same ↦ (ap (λ x. x.near) e, ap (λ x. x.far) e ∙ same)
        | inr grows ↦ let k' = rw e at v in absurd (omega (arith, k', grows, k.down_full))
      ]

  -- Once the two proxies are each in a write to the other, and the connection between them has no room
  -- either way, then as long as it does not fail, neither ever does anything again, whatever the
  -- client and the application do, whatever there is to read, however much time passes and whatever idle
  -- timeouts are configured: in particular neither returns.
  pub tunnel-deadlock :
      (c d : Tunnel)
      → Locked room c.near c.far
      → HeldReach c d
      → (d.near ≡ c.near) × (d.far ≡ c.far)
  tunnel-deadlock c d k here = (refl, refl)
  tunnel-deadlock c d k (next {d = m} r s) =
      let (n, f) = tunnel-deadlock c m k r in
      let (n', f') = HeldStep-IsStuck s (rw (n, f) k) in (n' ∙ n, f' ∙ f)
