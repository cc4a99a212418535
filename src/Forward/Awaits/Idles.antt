-- ===== src/Forward/Awaits/Idles.antt =====
-- The timer of `pump` in src/forward.rs.
use mathlib.Core.Path.{subst}
use mathlib.Core.List.{append-nil, append_assoc}
use rust_tcpao_proxy.Base.{ℕ, ◌≡◌, refl, sym, ap, ◌∙◌, inl, List, [], ◌∷◌, ◌++◌, Result, ok, err}
use rust_tcpao_proxy.Error.{IoError}
use rust_tcpao_proxy.Forward.{PumpOptions, PumpStats, PumpState, idle_timeout, fresh}
use rust_tcpao_proxy.Forward.Awaits.{
  Event, source_reads, destination_reads, destination_takes, source_takes, clock, Wake, Point,
  selecting, to_destination, to_source, returned, Pump, wake_at, wake, wakes, opened,
}
use rust_tcpao_proxy.Forward.Awaits.Waits.{
  Waits, IdledOut, InvAt, After, run-append, stale, source_arm-Inv, destination_arm-Inv,
  timer_arm-Inv, take_destination-Inv, take_source-Inv,
}

module _ (started : ℕ) (opts : PumpOptions) where
  later :
      (done : List Wake) (w : Wake) (s : PumpState)
      → IdledOut started opts done s
      → IdledOut started opts (done ++ w ∷ []) s
  later done w s k = record {
    timeout = k.timeout;
    configured = k.configured;
    waited = k.waited;
    now = k.now;
    rest = k.rest ++ w ∷ [];
    splits =
        ap (λ l. l ++ w ∷ []) k.splits ∙ append_assoc k.waited ((clock, k.now) ∷ k.rest) (w ∷ []);
    since = k.since;
    last = k.last;
    waits = k.waits;
    whole = k.whole;
    shut = k.shut;
  }

  returned-Inv :
      (done : List Wake) (w : Wake) (s : PumpState) (r : Result IoError PumpStats)
      → InvAt started opts done (returned r) s
      → InvAt started opts (done ++ w ∷ []) (returned r) s
  returned-Inv done w s (err e) k = tt
  returned-Inv done w s (ok st) k = λ h. later done w s (k h)

  wake_at-Inv :
      (done : List Wake) (s : PumpState) (p : Point) (e : Event) (now : ℕ)
      → wakes started opts (opened started opts) (done ++ (e, now) ∷ [])
        ≡ wake_at started opts s p e now
      → InvAt started opts done p s
      → After started opts done (e, now) (wake_at started opts s p e now)
  unfolding wake_at
  wake_at-Inv done s (selecting since) (source_reads r) now h k =
      source_arm-Inv started opts done (source_reads r, now) s r now
  wake_at-Inv done s (selecting since) (destination_reads r) now h k =
      destination_arm-Inv started opts done (destination_reads r, now) s r now
  wake_at-Inv done s (selecting since) clock now h k =
      timer_arm-Inv started opts done since now s opts.idle_timeout refl k
  wake_at-Inv done s (to_destination chunk rest) (destination_takes r) now h k =
      take_destination-Inv started opts done (destination_takes r) s chunk rest r now h
  wake_at-Inv done s (to_source chunk rest) (source_takes r) now h k =
      take_source-Inv started opts done (source_takes r) s chunk rest r now h
  wake_at-Inv done s (selecting since) (destination_takes r) now h k =
      stale started opts done (destination_takes r, now) since s refl k
  wake_at-Inv done s (selecting since) (source_takes r) now h k =
      stale started opts done (source_takes r, now) since s refl k
  wake_at-Inv done s (returned r) e now h k = returned-Inv done (e, now) s r k
  wake_at-Inv done s (to_destination chunk rest) _ now h k = tt
  wake_at-Inv done s (to_source chunk rest) _ now h k = tt

  wakes-Inv :
      (ws done : List Wake) (p : Pump)
      → wakes started opts (opened started opts) done ≡ p
      → InvAt started opts done p.point p.state
      → InvAt started opts
          (done ++ ws)
          (wakes started opts p ws).point
          (wakes started opts p ws).state
  unfolding wakes
  wakes-Inv [] done p h k =
      subst (λ l. InvAt started opts l p.point p.state) (sym (append-nil done)) k
  wakes-Inv ((e, now) ∷ ws) done p h k =
      let q = wake started opts p (e, now) in
      let reached : wakes started opts (opened started opts) (done ++ (e, now) ∷ []) ≡ q =
        run-append started opts done (e, now) (opened started opts)
        ∙ ap (λ x. wake started opts x (e, now)) h in
      subst
        (λ l. InvAt started opts l (wakes started opts q ws).point (wakes started opts q ws).state)
        (append_assoc done ((e, now) ∷ []) ws)
        (wakes-Inv ws (done ++ (e, now) ∷ []) q reached
          (wake_at-Inv done p.state p.point e now reached k))

  timed_out :
      (ws : List Wake) (st : PumpStats) (p : Pump)
      → InvAt started opts ws p.point p.state
      → p.point ≡ returned (ok st)
      → st.reason ≡ idle_timeout
      → IdledOut started opts ws p.state
  timed_out ws st p k h why =
      let at : InvAt started opts ws (returned (ok st)) p.state =
        subst (λ x. InvAt started opts ws x p.state) h k in
      at why

  -- When `pump` returns by its timer, a timeout is configured, and before that it has waited in one
  -- select for the whole of it, since the start or since the wake-up that began that select; in this time
  -- nothing was read and no stream has taken anything, and then both are shut down.
  pub wakes-IdledOut :
      (ws : List Wake) (st : PumpStats)
      → (wakes started opts (opened started opts) ws).point ≡ returned (ok st)
      → st.reason ≡ idle_timeout
      → IdledOut started opts ws (wakes started opts (opened started opts) ws).state
  unfolding wakes
  wakes-IdledOut ws st h why =
      let first : Waits started opts [] started fresh = record {
        before = [];
        idle = [];
        splits = refl;
        began = inl (refl, refl);
        reached = refl;
        quiet = refl;
      } in
      timed_out ws st (wakes started opts (opened started opts) ws)
        (wakes-Inv ws [] (opened started opts) refl first) h why
