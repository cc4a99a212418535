-- ===== src/Tunnel/Stuck.antt =====
-- A `pump` of src/forward.rs that is in a write to the protected connection.
use mathlib.Core.Path.{subst}
use mathlib.Core.List.{append-nil}
use rust_tcpao_proxy.Base.{
  ℕ, zero, suc, ◌<◌, ◌≡◌, refl, sym, ap, inl, inr, ◌⊎◌, List, [], ◌∷◌, ◌++◌, ok, err, length, take,
  drop, arith, length-append,
}
use rust_tcpao_proxy.Forward.{PumpOptions, PumpState}
use rust_tcpao_proxy.Forward.Awaits.{
  Event, source_reads, destination_reads, destination_takes, source_takes, clock, Wake,
  to_destination, to_source, wrote_destination, wrote_source, take_destination, take_source,
  wake_at,
}
use rust_tcpao_proxy.Tunnel.{Relay, next_wake}

-- The protected connection does not fail: no write to it ends by an error.
abbrev pub NearHolds : Wake → Type 0
NearHolds (destination_takes (err e), now) = ⊥
NearHolds (_, now) = Unit

abbrev pub FarHolds : Wake → Type 0
FarHolds (source_takes (err e), now) = ⊥
FarHolds (_, now) = Unit

-- A relay that is in a write to the destination, or to the source, of bytes that are not all taken.
abbrev pub WritesUp : Relay → Type 0
WritesUp r =
    (chunk : List ℕ) × (b : ℕ) × (rest : List ℕ) × (r.pump.point ≡ to_destination chunk (b ∷ rest))

abbrev pub WritesDown : Relay → Type 0
WritesDown r =
    (chunk : List ℕ) × (b : ℕ) × (rest : List ℕ) × (r.pump.point ≡ to_source chunk (b ∷ rest))

module _ (started : ℕ) (opts : PumpOptions) where
  wrote_destination-taken :
      (s : PumpState) (chunk left : List ℕ) (now : ℕ)
      → (wrote_destination started opts s chunk left now).state.to_destination ≡ s.to_destination
  unfolding wrote_destination
  wrote_destination-taken s chunk [] now = refl
  wrote_destination-taken s chunk (b ∷ left) now = refl

  wrote_source-taken :
      (s : PumpState) (chunk left : List ℕ) (now : ℕ)
      → (wrote_source started opts s chunk left now).state.to_source ≡ s.to_source
  unfolding wrote_source
  wrote_source-taken s chunk [] now = refl
  wrote_source-taken s chunk (b ∷ left) now = refl

  longer : (xs ys : List ℕ) (y : ℕ) → length xs < length (xs ++ y ∷ ys)
  longer xs ys y = omega (arith, length-append xs (y ∷ ys))

  -- A wake-up within such a write changes nothing, or the stream has taken more.
  module _ (sb db chunk : List ℕ) (s : PumpState) (b : ℕ) (rest : List ℕ) where
    abbrev going_up : Relay
    going_up = record {
      source_bytes = sb;
      destination_bytes = db;
      pump = record { point = to_destination chunk (b ∷ rest); state = s };
    }

    abbrev going_down : Relay
    going_down = record {
      source_bytes = sb;
      destination_bytes = db;
      pump = record { point = to_source chunk (b ∷ rest); state = s };
    }

    wake-stuck_up :
        (e : Event) (now : ℕ)
        → NearHolds (e, now)
        → (next_wake started opts going_up (e, now) ≡ going_up)
          ⊎ (length s.to_destination
              < length (next_wake started opts going_up (e, now)).pump.state.to_destination)
    unfolding next_wake wake_at take_destination
    wake-stuck_up (destination_takes (err x)) now h = absurd h
    wake-stuck_up (destination_takes (ok zero)) now h = inl (rw (append-nil sb, append-nil db) refl)
    wake-stuck_up (destination_takes (ok (suc n))) now h = inr (
        rw (wrote_destination-taken _ chunk (drop n rest) now)
          (longer s.to_destination (take n rest) b))
    wake-stuck_up (source_reads r) now h = inl (rw (append-nil sb, append-nil db) refl)
    wake-stuck_up (destination_reads r) now h = inl (rw (append-nil sb, append-nil db) refl)
    wake-stuck_up (source_takes r) now h = inl (rw (append-nil sb, append-nil db) refl)
    wake-stuck_up clock now h = inl (rw (append-nil sb, append-nil db) refl)

    wake-stuck_down :
        (e : Event) (now : ℕ)
        → FarHolds (e, now)
        → (next_wake started opts going_down (e, now) ≡ going_down)
          ⊎ (length s.to_source
              < length (next_wake started opts going_down (e, now)).pump.state.to_source)
    unfolding next_wake wake_at take_source
    wake-stuck_down (source_takes (err x)) now h = absurd h
    wake-stuck_down (source_takes (ok zero)) now h = inl (rw (append-nil sb, append-nil db) refl)
    wake-stuck_down (source_takes (ok (suc n))) now h =
        inr (rw (wrote_source-taken _ chunk (drop n rest) now) (longer s.to_source (take n rest) b))
    wake-stuck_down (source_reads r) now h = inl (rw (append-nil sb, append-nil db) refl)
    wake-stuck_down (destination_reads r) now h = inl (rw (append-nil sb, append-nil db) refl)
    wake-stuck_down (destination_takes r) now h = inl (rw (append-nil sb, append-nil db) refl)
    wake-stuck_down clock now h = inl (rw (append-nil sb, append-nil db) refl)

  pub WritesUp-stuck :
      (r : Relay) (w : Wake)
      → WritesUp r
      → NearHolds w
      → (next_wake started opts r w ≡ r)
        ⊎ (length r.pump.state.to_destination
            < length (next_wake started opts r w).pump.state.to_destination)
  WritesUp-stuck r (e, now) (chunk, b, rest, p) h =
      let same : r ≡ going_up r.source_bytes r.destination_bytes chunk r.pump.state b rest =
        ap (λ x. record r { pump = record { point = x; state = r.pump.state } }) p in
      subst
        (λ x.
          (next_wake started opts x (e, now) ≡ x)
          ⊎ (length x.pump.state.to_destination
              < length (next_wake started opts x (e, now)).pump.state.to_destination))
        (sym same)
        (wake-stuck_up r.source_bytes r.destination_bytes chunk r.pump.state b rest e now h)

  pub WritesDown-stuck :
      (r : Relay) (w : Wake)
      → WritesDown r
      → FarHolds w
      → (next_wake started opts r w ≡ r)
        ⊎ (length r.pump.state.to_source < length (next_wake started opts r w).pump.state.to_source)
  WritesDown-stuck r (e, now) (chunk, b, rest, p) h =
      let same : r ≡ going_down r.source_bytes r.destination_bytes chunk r.pump.state b rest =
        ap (λ x. record r { pump = record { point = x; state = r.pump.state } }) p in
      subst
        (λ x.
          (next_wake started opts x (e, now) ≡ x)
          ⊎ (length x.pump.state.to_source
              < length (next_wake started opts x (e, now)).pump.state.to_source))
        (sym same)
        (wake-stuck_down r.source_bytes r.destination_bytes chunk r.pump.state b rest e now h)
