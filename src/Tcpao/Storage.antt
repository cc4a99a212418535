-- ===== src/Tcpao/Storage.antt =====
-- `socket_addr_to_libc_storage` and `prefix_len_for_ip`: a peer as the kernel reads it. The storage
-- is the 128 bytes of `struct sockaddr_storage`; `socket_addr_to_kernel_storage` is a `transmute` of
-- the same bytes.
pub mod Decode
use rust_tcpao_proxy.Base.{
  ℕ, ◌+◌, ◌-◌, ◌*◌, ◌/◌, ◌%◌, ◌^◌, List, [], ◌∷◌, ◌++◌, length, replicate, if◌then◌else◌,
}
use rust_tcpao_proxy.Net.{IpAddr, v4, v6, SocketAddr, is_unspecified}
use rust_tcpao_proxy.Os.{Endian, little, big}
use rust_tcpao_proxy.Error.{af_inet, af_inet6}

-- A native `u16` and `u32` in memory.
abbrev pub u16_ne : Endian → ℕ → List ℕ
u16_ne little n = n % 256 ∷ n / 256 % 256 ∷ []
u16_ne big n = n / 256 % 256 ∷ n % 256 ∷ []

abbrev pub u32_ne : Endian → ℕ → List ℕ
u32_ne little n = n % 256 ∷ n / 2 ^ 8 % 256 ∷ n / 2 ^ 16 % 256 ∷ n / 2 ^ 24 % 256 ∷ []
u32_ne big n = n / 2 ^ 24 % 256 ∷ n / 2 ^ 16 % 256 ∷ n / 2 ^ 8 % 256 ∷ n % 256 ∷ []

-- `u32::from_ne_bytes`.
abbrev pub from_ne_bytes : Endian → List ℕ → ℕ
from_ne_bytes little (a ∷ b ∷ c ∷ d ∷ _) = a + b * 2 ^ 8 + c * 2 ^ 16 + d * 2 ^ 24
from_ne_bytes big (a ∷ b ∷ c ∷ d ∷ _) = a * 2 ^ 24 + b * 2 ^ 16 + c * 2 ^ 8 + d
from_ne_bytes _ _ = 0

-- Zeros behind the bytes that are written, up to the size of the whole.
unfoldable pub pad : ℕ → List ℕ → List ℕ
pad n bytes = bytes ++ replicate (n - length bytes) 0

abbrev pub storage_size : ℕ
storage_size = 128

-- `struct sockaddr_in` and `struct sockaddr_in6`; both have port 0.
unfoldable pub storage_by_ip : Endian → IpAddr → SocketAddr → List ℕ
unfolding pad
storage_by_ip e (v4 os) a =
    pad storage_size
      (u16_ne e af_inet ++ (u16_ne e 0 ++ (u32_ne e (from_ne_bytes e os) ++ replicate 8 0)))
storage_by_ip e (v6 os) a =
    pad storage_size
      (u16_ne e af_inet6 ++ (u16_ne e 0 ++ (u32_ne e a.flowinfo ++ (os ++ u32_ne e a.scope_id))))

unfoldable pub socket_addr_to_storage : Endian → SocketAddr → List ℕ
unfolding storage_by_ip
socket_addr_to_storage e a = storage_by_ip e a.ip a

unfoldable pub prefix_len_for_ip : IpAddr → ℕ
unfolding is_unspecified
prefix_len_for_ip (v4 os) = if is_unspecified (v4 os) then 0 else 32
prefix_len_for_ip (v6 os) = if is_unspecified (v6 os) then 0 else 128
