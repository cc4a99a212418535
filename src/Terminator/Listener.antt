-- ===== src/Terminator/Listener.antt =====
-- `build_ao_listener` of src/mode_terminator.rs: what is done to the socket before it is given
-- out.
use mathlib.Core.Path.{subst}
use rust_tcpao_proxy.Base.{ℕ, ◌≡◌, refl, ap, ◌∙◌, ◌≢◌, false, List, [], ◌∷◌, Result, ok, map_err}
use rust_tcpao_proxy.Error.{IoError, ProxyError, io_error, os, tcp_ao, str, show_io, end}
use rust_tcpao_proxy.Net.{SocketAddr}
use rust_tcpao_proxy.Config.{AoPolicyConfig}
use rust_tcpao_proxy.Policy.{keep}
use rust_tcpao_proxy.Os.{
  Os, Event, Trace, Action, ◌>>◌, pure, mapping, from_io, new_socket, sys_setsockopt, reuse_address,
  sys_bind, sys_listen, sys_set_nonblocking, sys_register,
}
use rust_tcpao_proxy.Os.Invert.{>>=-Splits, >>-Follows, map_err-ok}
use rust_tcpao_proxy.Tcpao.Policies.{configure_listener}
use rust_tcpao_proxy.Tcpao.Armed.{require_event}
use rust_tcpao_proxy.Tcpao.Installed.{Installs, same_family, configure_listener-Installs}
use rust_tcpao_proxy.Terminator.{socket_family, build_ao_listener}

-- A call that succeeded behind the two conversions of its error.
call-ok : {A : Type 0} (r : Result ℕ A) {a : A} → map_err io_error (map_err os r) ≡ ok a → r ≡ ok a
call-ok r h = map_err-ok os r (map_err-ok io_error (map_err os r) h)

abbrev listener_failed : IoError → ProxyError
listener_failed e = tcp_ao (str "failed to configure listener AO policies: " (show_io e end))

-- The trace once the socket is bound.
abbrev pub bound : SocketAddr → ℕ → Trace → Trace
bound a fd t =
    Event.bind fd a (ok tt)
    ∷ Event.setsockopt fd reuse_address (ok tt)
    ∷ Event.socket (socket_family a.ip) (ok fd)
    ∷ t

-- The trace once it listens.
abbrev pub listens : ℕ → Trace → Trace
listens fd t =
    Event.register fd (ok tt) ∷ Event.set_nonblocking fd (ok tt) ∷ Event.listen fd 1024 (ok tt) ∷ t

-- A trace that begins at `t` and leaves the listener `fd` armed and listening.
abbrev pub IsListening : Os → SocketAddr → List AoPolicyConfig → ℕ → Trace → Trace → Type 0
IsListening sys a ps fd t final =
    (keep (same_family a.ip) ps ≢ [])
    × ((t₁ : Trace) × Installs sys fd 0 (keep (same_family a.ip) ps) t t₁
        × (final ≡ listens fd (require_event fd ∷ t₁)))

module _ (sys : Os) (a : SocketAddr) (ps : List AoPolicyConfig) where
  abbrev m₁ : Action ProxyError ℕ
  m₁ = from_io (new_socket sys (socket_family a.ip))

  module _ (fd : ℕ) where
    abbrev m₂ : Action ProxyError (Unit {0})
    m₂ = from_io (sys_setsockopt sys fd reuse_address)

    abbrev m₃ : Action ProxyError (Unit {0})
    m₃ = from_io (sys_bind sys fd a)

    abbrev m₄ : Action ProxyError (Unit {0})
    m₄ = mapping listener_failed (configure_listener sys fd a ps)

    abbrev m₅ : Action ProxyError (Unit {0})
    m₅ = from_io (sys_listen sys fd 1024)

    abbrev m₆ : Action ProxyError (Unit {0})
    m₆ = from_io (sys_set_nonblocking sys fd)

    abbrev m₇ : Action ProxyError (Unit {0})
    m₇ = from_io (sys_register sys fd)

    -- From `listen` on.
    listens-ok :
        (t : Trace) {out : ℕ}
        → ((m₅ >> (m₆ >> (m₇ >> pure fd))) t).0 ≡ ok out
        → (((m₅ >> (m₆ >> (m₇ >> pure fd))) t).1 ≡ listens fd t) × (fd ≡ out)
    listens-ok t h =
        let a₅ = >>-Follows m₅ (m₆ >> (m₇ >> pure fd)) t h in
        let a₆ = >>-Follows m₆ (m₇ >> pure fd) (m₅ t).1 a₅.second in
        let a₇ = >>-Follows m₇ (pure fd) (m₆ (m₅ t).1).1 a₆.second in
        let e₅ = call-ok (sys.listen t fd 1024) a₅.first in
        let e₆ = call-ok (sys.set_nonblocking (m₅ t).1 fd) a₆.first in
        let e₇ = call-ok (sys.register (m₆ (m₅ t).1).1 fd) a₇.first in
        (a₅.final ∙ a₆.final ∙ a₇.final ∙ rw (e₇, e₆, e₅) refl, cc (a₇.second))

    -- From the configuration on.
    configured-ok :
        (t : Trace) {out : ℕ}
        → sys.debug_assertions ≡ false
        → ((m₄ >> (m₅ >> (m₆ >> (m₇ >> pure fd)))) t).0 ≡ ok out
        → (fd ≡ out) × IsListening sys a ps fd t ((m₄ >> (m₅ >> (m₆ >> (m₇ >> pure fd)))) t).1
    configured-ok t release h =
        let a₄ = >>-Follows m₄ (m₅ >> (m₆ >> (m₇ >> pure fd))) t h in
        let (some_key, (t₁, installs, required)) =
          configure_listener-Installs sys fd a ps t release
            (map_err-ok listener_failed (configure_listener sys fd a ps t).0 a₄.first) in
        let (listening, same) = listens-ok (m₄ t).1 a₄.second in
        (same, (some_key, (t₁, installs, a₄.final ∙ listening ∙ ap (listens fd) required)))

-- In a release build, the listener that `build_ao_listener` gives was made for the family of the
-- address, told to reuse it and bound to it; then it got a key of each policy of that family, the
-- first as the current key, and TCP-AO was made required; and only then it was told to listen. These
-- are all the calls that were made, and at least one key was installed.
pub build_ao_listener-IsListening :
    (sys : Os) (a : SocketAddr) (ps : List AoPolicyConfig) (t : Trace) (fd : ℕ)
    → sys.debug_assertions ≡ false
    → (build_ao_listener sys a ps t).0 ≡ ok fd
    → IsListening sys a ps fd (bound a fd t) (build_ao_listener sys a ps t).1
unfolding build_ao_listener
build_ao_listener-IsListening sys a ps t fd release h =
    let rest =
      λ (s : ℕ). m₄ sys a ps s >> (m₅ sys a ps s >> (m₆ sys a ps s >> (m₇ sys a ps s >> pure s))) in
    let b = >>=-Splits (m₁ sys a ps) (λ s. m₂ sys a ps s >> (m₃ sys a ps s >> rest s)) t h in
    let s = b.value in
    let t₁ = (m₁ sys a ps t).1 in
    let b₂ = >>-Follows (m₂ sys a ps s) (m₃ sys a ps s >> rest s) t₁ b.second in
    let t₂ = (m₂ sys a ps s t₁).1 in
    let b₃ = >>-Follows (m₃ sys a ps s) (rest s) t₂ b₂.second in
    let t₃ = (m₃ sys a ps s t₂).1 in
    let (same, listening) = configured-ok sys a ps s t₃ release b₃.second in
    let made = call-ok (sys.socket t (socket_family a.ip)) b.first in
    let reused = call-ok (sys.setsockopt t₁ s reuse_address) b₂.first in
    let was_bound = call-ok (sys.bind t₂ s a) b₃.first in
    let start : t₃ ≡ bound a s t = rw (was_bound, reused, made) refl in
    let final = b.final ∙ b₂.final ∙ b₃.final in
    subst (λ x. IsListening sys a ps x (bound a x t) (build_ao_listener sys a ps t).1) same
      (rw final (subst (λ x. IsListening sys a ps s x (rest s t₃).1) start listening))
