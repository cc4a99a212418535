-- ===== src/Policy.antt =====
-- src/tcpao/policy.rs: which policy a peer gets.
pub mod Select
pub mod Order
pub mod Unique
pub mod Spec
mod Tests
mod UnitTests
use rust_tcpao_proxy.Base.{
  ℕ, Bool, ◌&&◌, Option, none, some, List, [], ◌∷◌, is_empty, if◌then◌else◌,
}
use rust_tcpao_proxy.Net.{IpAddr, ip_eq, port_eq}
use rust_tcpao_proxy.Config.{AoPolicyConfig}

-- `Iterator::find`: the first item that passes.
unfoldable pub find {ℓ} : {A : Type ℓ} → (A → Bool) → List A → Option A
find f [] = none
find f (x ∷ xs) = if f x then some x else find f xs

-- `Iterator::filter`, as the list of what its `next` would give.
unfoldable pub keep {ℓ} : {A : Type ℓ} → (A → Bool) → List A → List A
keep f [] = []
keep f (x ∷ xs) = if f x then x ∷ keep f xs else keep f xs

-- `policy.peer_ip == peer_ip && policy.peer_port == port`.
unfoldable pub matches : IpAddr → Option ℕ → AoPolicyConfig → Bool
matches ip port p = ip_eq p.peer_ip ip && port_eq p.peer_port port

unfoldable pub matches_ip : IpAddr → AoPolicyConfig → Bool
matches_ip ip p = ip_eq p.peer_ip ip

-- The first of an iterator, if its second `next` gives nothing.
unfoldable pub sole {ℓ} : {A : Type ℓ} → List A → Option A
unfolding is_empty
sole [] = none
sole (x ∷ rest) = if is_empty rest then some x else none

-- The choice without a port, from the policies for any port and from all those for the address.
unfoldable pub select_any_port : List AoPolicyConfig → List AoPolicyConfig → Option AoPolicyConfig
unfolding sole
select_any_port [] any_for_ip = sole any_for_ip
select_any_port (x ∷ rest) any_for_ip = sole (x ∷ rest)

-- `if let Some(exact) = … { return Some(exact); } return …`.
unfoldable pub prefer {ℓ} : {A : Type ℓ} → Option A → Option A → Option A
prefer (some exact) fallback = some exact
prefer none fallback = fallback

unfoldable pub select_policy : List AoPolicyConfig → IpAddr → Option ℕ → Option AoPolicyConfig
unfolding find keep matches matches_ip select_any_port prefer
select_policy policies peer_ip (some port) =
    prefer (find (matches peer_ip (some port)) policies) (find (matches peer_ip none) policies)
select_policy policies peer_ip none =
    select_any_port (keep (matches peer_ip none) policies) (keep (matches_ip peer_ip) policies)
