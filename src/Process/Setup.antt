-- ===== src/Process/Setup.antt =====
-- The set-up of a task in one piece, and what its success leaves behind.
use rust_tcpao_proxy.Base.{ℕ, ◌≡◌, refl, ap, ◌∙◌, [], ◌∷◌, ◌++◌, inl, Result, ok, err, map_err}
use rust_tcpao_proxy.Error.{io_error, os}
use rust_tcpao_proxy.Net.{SocketAddr}
use rust_tcpao_proxy.Os.{Os, Event, connect, Trace, ◌>>=◌, from_io, sys_connect}
use rust_tcpao_proxy.Os.Invert.{>>=-Splits}
use rust_tcpao_proxy.Os.Quiet.{Any-append}
use rust_tcpao_proxy.Connection.{Streams, Task}
use rust_tcpao_proxy.Process.{Stages}
use rust_tcpao_proxy.Process.Laws.{Readiness, Laws, Joined}
use rust_tcpao_proxy.Process.Alone.{set_up}

-- A `connect` that succeeds gives the stream of its own socket.
pub record Connected (fd : ℕ) (a : SocketAddr) (stream : ℕ) (t out : Trace) : Type 0 where
  pub own : stream ≡ fd
  pub called : out ≡ connect fd a (ok tt) ∷ t

connect-Connected :
    (sys : Os) (fd : ℕ) (a : SocketAddr) (t : Trace) {stream : ℕ}
    → (from_io (sys_connect sys fd a) t).0 ≡ ok stream
    → Connected fd a stream t (from_io (sys_connect sys fd a) t).1
connect-Connected sys fd a t {stream} h = go (sys.connect t fd a) h
  where
    go :
        (r : Result ℕ (Unit {0}))
        → map_err io_error (elim r [ ok _ ↦ ok fd | err e ↦ err (os e) ]) ≡ ok stream
        → Connected fd a stream t (connect fd a r ∷ t)
    go (ok u) e = record { own = cc; called = refl }
    go (err x) e = absurd cc

module _ (sys : Os) (st : Stages) (IsReady : Readiness) (laws : Laws st IsReady) where
  pub set_up-Joined :
      (k : Task) (t : Trace) {s : Streams}
      → (set_up sys st k t).0 ≡ ok s
      → Joined sys st IsReady k s (set_up sys st k t).1
  set_up-Joined k t {s} h =
      let a =
        >>=-Splits (st.prepare k)
          (λ (p, fd). from_io (sys_connect sys fd st.target) >>= st.complete k p) t h in
      let (p, fd) = a.value in
      let t₁ = (st.prepare k t).1 in
      let ready = laws.prepare_ready k t a.first in
      let b = >>=-Splits (from_io (sys_connect sys fd st.target)) (st.complete k p) t₁ a.second in
      let c = connect-Connected sys fd st.target t₁ b.first in
      let t₂ = (from_io (sys_connect sys fd st.target) t₁).1 in
      let same : s ≡ record { policy = p; source = k.stream; destination = fd } =
        laws.complete_joins k p b.value t₂ b.second
        ∙ ap (λ x. record { policy = p; source = k.stream; destination = x }) c.own in
      let (u, added, _) = (laws.complete_quiet k p b.value).adds t₂ in
      let e : Event = connect fd st.target (ok tt) in
      let final : (set_up sys st k t).1 ≡ u ++ e ∷ t₁ =
        a.final ∙ (b.final ∙ (added ∙ ap (λ x. u ++ x) c.called)) in
      rw (same, final)
        (record {
          own = refl;
          opened = Any-append _ u (e ∷ t₁) (inl refl);
          ready = laws.ready_lasts k p fd u (e ∷ t₁) (laws.ready_lasts k p fd (e ∷ []) t₁ ready);
        })
