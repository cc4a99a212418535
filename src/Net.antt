-- ===== src/Net.antt =====
-- `std::net::IpAddr` and `std::net::SocketAddr`, as src/config.rs and src/tcpao/ use them.
pub mod Parse
use rust_tcpao_proxy.Base.{
  ℕ, ◌≡◌, ◌↔◌, ◌<◌, Bool, true, false, ◌&&◌, List, [], ◌∷◌, Option, none, some, ◌==◌, length, All,
  list_eq, list_eq_iff, arith,
}

-- An address by its octets in network order: four for `V4`, sixteen for `V6`.
pub data IpAddr : Type 0 where
  v4 : List ℕ → IpAddr
  v6 : List ℕ → IpAddr

pub record SocketAddr : Type 0 where
  pub ip : IpAddr
  pub port : ℕ
  pub flowinfo : ℕ
  pub scope_id : ℕ

-- `SocketAddr::new`.
abbrev pub new_addr : IpAddr → ℕ → SocketAddr
new_addr ip port = record { ip = ip; port = port; flowinfo = 0; scope_id = 0 }

-- The octets have the number and the range that the Rust types give them.
abbrev pub IsIp : IpAddr → Type 0
IsIp (v4 os) = (length os ≡ 4) × All (λ o. o < 256) os
IsIp (v6 os) = (length os ≡ 16) × All (λ o. o < 256) os

-- `==` on addresses.
unfoldable pub ip_eq : IpAddr → IpAddr → Bool
ip_eq (v4 a) (v4 b) = list_eq a b
ip_eq (v4 a) (v6 b) = false
ip_eq (v6 a) (v4 b) = false
ip_eq (v6 a) (v6 b) = list_eq a b

pub ip_eq_iff : (a b : IpAddr) → (ip_eq a b ≡ true) ↔ (a ≡ b)
unfolding ip_eq
ip_eq_iff (v4 a) (v4 b) = ground (arith, list_eq_iff a b)
ip_eq_iff (v4 a) (v6 b) = ground arith
ip_eq_iff (v6 a) (v4 b) = ground arith
ip_eq_iff (v6 a) (v6 b) = ground (arith, list_eq_iff a b)

-- `==` on optional ports.
unfoldable pub port_eq : Option ℕ → Option ℕ → Bool
port_eq none none = true
port_eq none (some q) = false
port_eq (some p) none = false
port_eq (some p) (some q) = p == q

pub port_eq_iff : (a b : Option ℕ) → (port_eq a b ≡ true) ↔ (a ≡ b)
unfolding port_eq
port_eq_iff none none = ground arith
port_eq_iff none (some q) = ground arith
port_eq_iff (some p) none = ground arith
port_eq_iff (some p) (some q) = ground arith

unfoldable pub all_zero : List ℕ → Bool
all_zero [] = true
all_zero (o ∷ os) = o == 0 && all_zero os

-- `is_unspecified`: the address `0.0.0.0` or `::`.
unfoldable pub is_unspecified : IpAddr → Bool
unfolding all_zero
is_unspecified (v4 os) = all_zero os
is_unspecified (v6 os) = all_zero os
