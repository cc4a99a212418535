-- ===== src/Forward/Awaits/Refines.antt =====
-- The loop of `pump` by its awaits, against the loop by whole rounds: all wake-ups.
use mathlib.Core.Path.{subst}
use mathlib.Core.List.{append-nil, append_assoc}
use rust_tcpao_proxy.Base.{ℕ, ◌≡◌, refl, sym, ◌∙◌, List, [], ◌∷◌, ◌++◌}
use rust_tcpao_proxy.Forward.{PumpOptions, PumpState, Arrival, pump_from}
use rust_tcpao_proxy.Forward.Awaits.{
  Event, source_reads, destination_reads, destination_takes, source_takes, clock, Wake, Point,
  selecting, to_destination, to_source, Pump, wake_at, wake, wakes, opened,
}
use rust_tcpao_proxy.Forward.Awaits.Stands.{
  bytes_of, StandsAt, Stands, source_arm-Stands, destination_arm-Stands, timer_arm-Stands,
}
use rust_tcpao_proxy.Forward.Awaits.Writes.{take_destination-Stands, take_source-Stands}

-- The bytes that a wake-up makes the loop read.
abbrev pub source_got : Point → Event → List ℕ
source_got (selecting since) (source_reads r) = bytes_of r
source_got _ _ = []

abbrev pub destination_got : Point → Event → List ℕ
destination_got (selecting since) (destination_reads r) = bytes_of r
destination_got _ _ = []

module _ (started : ℕ) (opts : PumpOptions) where
  -- The same bytes, written otherwise.
  Stands-eq :
      {up up' down down' : List ℕ} (p : Pump)
      → up ≡ up'
      → down ≡ down'
      → Stands started opts up down p
      → Stands started opts up' down' p
  Stands-eq {up' = up'} {down} p e f h =
      subst (λ l. Stands started opts up' l p) f (subst (λ l. Stands started opts l down p) e h)

  wake_at-Stands :
      (made : List Arrival) (up down : List ℕ) (s : PumpState) (p : Point) (e : Event) (now : ℕ)
      → StandsAt started opts made up down p s
      → Stands started opts
          (up ++ source_got p e)
          (down ++ destination_got p e)
          (wake_at started opts s p e now)
  unfolding wake_at
  wake_at-Stands made up down s (selecting since) (source_reads r) now (h, reads) =
      Stands-eq _ refl (sym (append-nil down))
        (source_arm-Stands started opts made s up down h reads r now)
  wake_at-Stands made up down s (selecting since) (destination_reads r) now (h, reads) =
      Stands-eq _ (sym (append-nil up)) refl
        (destination_arm-Stands started opts made s up down h reads r now)
  wake_at-Stands made up down s (selecting since) clock now (h, reads) =
      Stands-eq _ (sym (append-nil up)) (sym (append-nil down))
        (timer_arm-Stands started opts made s up down h reads opts.idle_timeout since now refl)
  wake_at-Stands made up down s (to_destination chunk rest) (destination_takes r) now
        (before, old, h, reads, e, k) =
      Stands-eq _ (e ∙ sym (append-nil up)) (sym (append-nil down))
        (take_destination-Stands started opts made before old down chunk rest s r now h reads k)
  wake_at-Stands made up down s (to_source chunk rest) (source_takes r) now
        (before, old, h, reads, e, k) =
      Stands-eq _ (sym (append-nil up)) (e ∙ sym (append-nil down))
        (take_source-Stands started opts made before old up chunk rest s r now h reads k)
  wake_at-Stands made up down s p _ now h =
      Stands-eq (record { point = p; state = s }) (sym (append-nil up)) (sym (append-nil down))
        (made, h)

  -- All bytes that a run of the loop reads.
  unfoldable pub got : (Point → Event → List ℕ) → Pump → List Wake → List ℕ
  got f p [] = []
  got f p ((e, now) ∷ ws) = f p.point e ++ got f (wake started opts p (e, now)) ws

  wakes_from-Stands :
      (ws : List Wake) (up down : List ℕ) (p : Pump)
      → Stands started opts up down p
      → Stands started opts
          (up ++ got source_got p ws)
          (down ++ got destination_got p ws)
          (wakes started opts p ws)
  unfolding wakes got
  wakes_from-Stands [] up down p h = Stands-eq p (sym (append-nil up)) (sym (append-nil down)) h
  wakes_from-Stands ((e, now) ∷ ws) up down p (made, h) =
      let q = wake started opts p (e, now) in
      Stands-eq (wakes started opts q ws)
        (append_assoc up (source_got p.point e) (got source_got q ws))
        (append_assoc down (destination_got p.point e) (got destination_got q ws))
        (wakes_from-Stands ws (up ++ source_got p.point e) (down ++ destination_got p.point e) q
          (wake_at-Stands made up down p.state p.point e now h))

  -- However `pump` is woken up between its reads and its writes, which may take as little of a chunk as
  -- they like, it stands where the loop by whole rounds stands for some arrivals that read the same
  -- bytes: in the same state, or, within a `write_all`, with a part of the chunk written on top of that
  -- state; and it has returned exactly what that loop has.
  pub wakes-Stands :
      (ws : List Wake)
      → Stands started opts
          (got source_got (opened started opts) ws)
          (got destination_got (opened started opts) ws)
          (wakes started opts (opened started opts) ws)
  unfolding pump_from
  wakes-Stands ws = wakes_from-Stands ws [] [] (opened started opts) ([], (refl, (refl, refl)))
