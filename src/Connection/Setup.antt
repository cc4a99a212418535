-- ===== src/Connection/Setup.antt =====
-- A connection that was set up, in either mode: what its streams join, and the steps of setting it
-- up that both modes share.
use rust_tcpao_proxy.Base.{ℕ, ◌≡◌, refl, ap, Option, some, ok, ok_or, map_err, Any, inl}
use rust_tcpao_proxy.Error.{io_error, os, no_policy_for_peer, addr, end}
use rust_tcpao_proxy.Net.{SocketAddr}
use rust_tcpao_proxy.Config.{AoPolicyConfig}
use rust_tcpao_proxy.Os.{Os, Family, connect, Trace, lift, from_io, new_socket, sys_connect}
use rust_tcpao_proxy.Os.Gives.{Gives, IsWilling}
use rust_tcpao_proxy.Connection.{Streams}

abbrev pub IsConnected : SocketAddr → ℕ → Trace → Type 0
IsConnected a fd t = Any (λ e. e ≡ connect fd a (ok tt)) t

-- The streams are, under the policy, the accepted one and one that is connected to the address.
pub record Joins (p : AoPolicyConfig) (stream : ℕ) (a : SocketAddr) (s : Streams) (t : Trace)
    : Type 0 where
  pub under : s.policy ≡ p
  pub accepted : s.source ≡ stream
  pub opened : IsConnected a s.destination t

pub new_socket-Gives :
    (sys : Os)
    → IsWilling sys
    → (f : Family) (t : Trace) → Gives (from_io (new_socket sys f)) t (λ _ _. Unit)
new_socket-Gives sys w f t =
    let (fd, made) = w.made t f in
    record { value = fd; gives = ap (λ r. map_err io_error (map_err os r)) made; holds = tt }

pub sys_connect-IsConnected :
    (sys : Os)
    → IsWilling sys
    → (fd : ℕ) (a : SocketAddr) (t : Trace)
    → Gives (from_io (sys_connect sys fd a)) t (IsConnected a)
sys_connect-IsConnected sys w fd a t = record {
  value = fd;
  gives = rw (w.connected t fd a) refl;
  holds = inl (ap (connect fd a) (w.connected t fd a));
}

pub policy_chosen :
    (p : AoPolicyConfig) (peer : SocketAddr) (o : Option AoPolicyConfig) (t : Trace)
    → o ≡ some p
    → Gives (lift (ok_or (no_policy_for_peer (addr peer end)) o)) t (λ q _. q ≡ p)
policy_chosen p peer o t h = record {
  value = p;
  gives = ap (ok_or (no_policy_for_peer (addr peer end))) h;
  holds = refl;
}
