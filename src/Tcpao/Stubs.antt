-- ===== src/Tcpao/Stubs.antt =====
-- The functions of src/tcpao/linux.rs, and `apply_keepalive` of the modes, in a build for another
-- system.
use rust_tcpao_proxy.Base.{ℕ, List, ◌≡◌, refl, err}
use rust_tcpao_proxy.Error.{IoError, custom, unsupported, str, end, ProxyError}
use rust_tcpao_proxy.Net.{SocketAddr}
use rust_tcpao_proxy.Config.{AoPolicyConfig, GlobalConfig}
use rust_tcpao_proxy.Os.{Action, pure, throw, Trace}

abbrev only_on_linux : IoError
only_on_linux = custom unsupported (str "tcp-ao is only supported on linux" end)

unfoldable probe_tcpao_support : Action IoError (Unit {0})
probe_tcpao_support = throw only_on_linux

unfoldable apply_outbound_policy : ℕ → AoPolicyConfig → SocketAddr → Action IoError (Unit {0})
apply_outbound_policy socket_fd policy remote = throw only_on_linux

unfoldable configure_listener : ℕ → SocketAddr → List AoPolicyConfig → Action IoError (Unit {0})
configure_listener socket_fd listen_addr policies = throw only_on_linux

unfoldable ensure_inbound_session_has_ao : ℕ → SocketAddr → Action IoError (Unit {0})
ensure_inbound_session_has_ao socket_fd peer = throw only_on_linux

unfoldable apply_keepalive : ℕ → GlobalConfig → Action ProxyError (Unit {0})
apply_keepalive fd global = pure tt

-- There, nothing passes for protected, and no call is made.
refuse :
    (fd : ℕ) (p : AoPolicyConfig) (a : SocketAddr) (ps : List AoPolicyConfig) (t : Trace)
    → (probe_tcpao_support t ≡ (err only_on_linux, t))
      × (apply_outbound_policy fd p a t ≡ (err only_on_linux, t))
      × (configure_listener fd a ps t ≡ (err only_on_linux, t))
      × (ensure_inbound_session_has_ao fd a t ≡ (err only_on_linux, t))
unfolding probe_tcpao_support apply_outbound_policy configure_listener ensure_inbound_session_has_ao
refuse fd p a ps t = (refl, refl, refl, refl)
