-- ===== src/Main/Listens.antt =====
-- How a mode of src/mode_initiator.rs or src/mode_terminator.rs starts: the section of the
-- configuration, its two addresses, and the listener.
use rust_tcpao_proxy.Base.{ℕ, ◌≡◌, sym, ap, ◌∙◌, Result, ok, ok_or, ok_or-ok, ok-eq}
use mathlib.Core.Path.{subst}
use rust_tcpao_proxy.Error.{ProxyError, missing_mode_config, addr_parse}
use rust_tcpao_proxy.Net.{SocketAddr}
use rust_tcpao_proxy.Net.Parse.Ranges.{InRange, parse_socket_addr-InRange}
use rust_tcpao_proxy.Config.{
  Config, Mode, InitiatorConfig, TerminatorConfig, listen_plain_addr, remote_ao_addr,
  listen_ao_addr, forward_plain_addr,
}
use rust_tcpao_proxy.Os.{Os, Trace, Action, ◌>>=◌, lift, pure, from_io, sys_tcp_bind}
use rust_tcpao_proxy.Os.Invert.{>>=-Splits}
use rust_tcpao_proxy.Terminator.{build_ao_listener}
use rust_tcpao_proxy.Initiator
use rust_tcpao_proxy.Terminator

module _ {S : Type 0} (section : Result ProxyError S)
    (listen target : S → Result ProxyError SocketAddr)
    (bind_to : SocketAddr → Action ProxyError ℕ) where
  -- The section and its addresses were read, and the listener was opened, with the calls of that only.
  pub record Up (fd : ℕ) (a : SocketAddr) (t out : Trace) : Type 0 where
    pub chosen : S
    pub listen_addr : SocketAddr
    pub has_section : section ≡ ok chosen
    pub listens : listen chosen ≡ ok listen_addr
    pub targets : target chosen ≡ ok a
    pub opens : bind_to listen_addr t ≡ (ok fd, out)

  abbrev opening : Action ProxyError (ℕ × SocketAddr)
  opening = do
    s ← lift section
    listen_addr ← lift (listen s)
    a ← lift (target s)
    fd ← bind_to listen_addr
    pure (fd, a)

  opening-Up : (t : Trace) {r : ℕ × SocketAddr} → (opening t).0 ≡ ok r → Up r.0 r.1 t (opening t).1
  opening-Up t {r} h =
      let last : SocketAddr → SocketAddr → Action ProxyError (ℕ × SocketAddr) =
        λ l a. bind_to l >>= λ fd. pure (fd, a) in
      let s =
        >>=-Splits (lift section) (λ s. lift (listen s) >>= λ l. lift (target s) >>= last l) t h in
      let l =
        >>=-Splits (lift (listen s.value)) (λ l. lift (target s.value) >>= last l) t s.second in
      let a = >>=-Splits (lift (target s.value)) (last l.value) t l.second in
      let o = >>=-Splits (bind_to l.value) (λ fd. pure (fd, a.value)) t a.second in
      let up : Up o.value a.value t (opening t).1 = record {
        chosen = s.value;
        listen_addr = l.value;
        has_section = s.first;
        listens = l.first;
        targets = a.first;
        opens =
            ap (λ x. (x, (bind_to l.value t).1)) o.first
            ∙ ap (λ x. (ok o.value, x)) (sym (s.final ∙ l.final ∙ a.final ∙ o.final));
      } in
      subst (λ x. Up x.0 x.1 t (opening t).1) (ok-eq o.second) up

-- The listener of a mode is up: of the plain side, or with the keys of TCP-AO.
abbrev pub IsUp : Os → Config → Mode → ℕ → SocketAddr → Trace → Trace → Type 0
IsUp sys c Mode.initiator fd a t out =
    Up (ok_or (missing_mode_config "initiator") c.initiator) listen_plain_addr remote_ao_addr
      (λ l. from_io (sys_tcp_bind sys l)) fd a t out
    × InRange a
IsUp sys c Mode.terminator fd a t out =
    Up (ok_or (missing_mode_config "terminator") c.terminator) listen_ao_addr forward_plain_addr
      (λ l. build_ao_listener sys l c.ao_policy) fd a t out
    × InRange a

remote_ao_addr-InRange :
    (s : InitiatorConfig) {a : SocketAddr} → remote_ao_addr s ≡ ok a → InRange a
unfolding remote_ao_addr
remote_ao_addr-InRange s h = parse_socket_addr-InRange s.remote_ao (ok_or-ok addr_parse _ h)

forward_plain_addr-InRange :
    (s : TerminatorConfig) {a : SocketAddr} → forward_plain_addr s ≡ ok a → InRange a
unfolding forward_plain_addr
forward_plain_addr-InRange s h = parse_socket_addr-InRange s.forward_plain (ok_or-ok addr_parse _ h)

pub start-initiator :
    (sys : Os) (c : Config) (t : Trace) {r : ℕ × SocketAddr}
    → (Initiator.start sys c t).0 ≡ ok r
    → IsUp sys c Mode.initiator r.0 r.1 t (Initiator.start sys c t).1
unfolding Initiator.start
start-initiator sys c t h =
    let up = opening-Up _ _ _ _ t h in (up, remote_ao_addr-InRange up.chosen up.targets)

pub start-terminator :
    (sys : Os) (c : Config) (t : Trace) {r : ℕ × SocketAddr}
    → (Terminator.start sys c t).0 ≡ ok r
    → IsUp sys c Mode.terminator r.0 r.1 t (Terminator.start sys c t).1
unfolding Terminator.start
start-terminator sys c t h =
    let up = opening-Up _ _ _ _ t h in (up, forward_plain_addr-InRange up.chosen up.targets)
