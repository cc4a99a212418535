-- ===== src/Tcpao/Storage/Decode.antt =====
-- The kernel's reading of what `socket_addr_to_libc_storage` writes, by the layouts of `struct
-- sockaddr_in` and `struct sockaddr_in6`.
use mathlib.Core.List.{append_assoc}
use rust_tcpao_proxy.Base.{
  ℕ, ◌+◌, ◌-◌, ◌*◌, ◌/◌, ◌%◌, ◌^◌, ◌<◌, ◌≡◌, refl, ◌∙◌, Option, none, some, List, [], ◌∷◌, ◌++◌,
  length, take, drop, replicate, All, take-append, if◌then◌else◌, ◌==◌, arith, zero, suc,
}
use rust_tcpao_proxy.Net.{IpAddr, v4, v6, SocketAddr, IsIp}
use rust_tcpao_proxy.Net.Parse.Ranges.{InRange, HasScope}
use rust_tcpao_proxy.Os.{Endian, little, big}
use rust_tcpao_proxy.Error.{af_inet, af_inet6}
use rust_tcpao_proxy.Tcpao.Storage.{
  u16_ne, u32_ne, from_ne_bytes, pad, storage_size, storage_by_ip, socket_addr_to_storage,
}

-- The integer that starts a piece of memory; `big` is also the order of the network.
unfoldable pub u16_at : Endian → List ℕ → ℕ
u16_at little (a ∷ b ∷ _) = a + b * 2 ^ 8
u16_at big (a ∷ b ∷ _) = a * 2 ^ 8 + b
u16_at _ _ = 0

unfoldable pub u32_at : Endian → List ℕ → ℕ
u32_at little (a ∷ b ∷ c ∷ d ∷ _) = a + b * 2 ^ 8 + c * 2 ^ 16 + d * 2 ^ 24
u32_at big (a ∷ b ∷ c ∷ d ∷ _) = a * 2 ^ 24 + b * 2 ^ 16 + c * 2 ^ 8 + d
u32_at _ _ = 0

-- The fields at their offsets.
unfoldable pub read_v4 : List ℕ → SocketAddr
unfolding u16_at
read_v4 m = record {
  ip = v4 (take 4 (drop 4 m));
  port = u16_at big (drop 2 m);
  flowinfo = 0;
  scope_id = 0;
}

unfoldable pub read_v6 : Endian → List ℕ → SocketAddr
unfolding u16_at u32_at
read_v6 e m = record {
  ip = v6 (take 16 (drop 8 m));
  port = u16_at big (drop 2 m);
  flowinfo = u32_at e (drop 4 m);
  scope_id = u32_at e (drop 24 m);
}

unfoldable pub read_storage : Endian → List ℕ → Option SocketAddr
unfolding u16_at read_v4 read_v6
read_storage e m =
    if u16_at e m == af_inet
    then some (read_v4 m)
    else if u16_at e m == af_inet6
    then some (read_v6 e m)
    else none

-- A value of `SocketAddr` in Rust: an IPv4 address has no flow and no scope.
unfoldable HasFields : IpAddr → SocketAddr → Type 0
HasFields (v4 os) a = (a.flowinfo ≡ 0) × (a.scope_id ≡ 0)
HasFields (v6 os) a = (a.flowinfo < 2 ^ 32) × (a.scope_id < 2 ^ 32)

unfoldable pub IsAddr : SocketAddr → Type 0
unfolding HasFields
IsAddr a = IsIp a.ip × HasFields a.ip a

HasFields-scope :
    (ip : IpAddr) (a : SocketAddr) → a.flowinfo ≡ 0 → HasScope ip a.scope_id → HasFields ip a
unfolding HasFields
HasFields-scope (v4 os) a f h = (f, h)
HasFields-scope (v6 os) a f h = (omega arith, h)

-- An address that was parsed is one.
pub InRange-IsAddr : (a : SocketAddr) → InRange a → IsAddr a
unfolding IsAddr
InRange-IsAddr a h = (h.ip, HasFields-scope a.ip a h.flowinfo h.scope_id)

drop-append : {A : Type 0} (xs ys : List A) (n : ℕ) → length xs ≡ n → drop n (xs ++ ys) ≡ ys
drop-append [] ys zero h = refl
drop-append [] ys (suc n) h = absurd (omega arith)
drop-append (x ∷ xs) ys zero h = absurd (omega arith)
drop-append (x ∷ xs) ys (suc n) h = drop-append xs ys n (omega arith)

same_v6 :
    {i j : List ℕ} {f g s u : ℕ}
    → i ≡ j
    → f ≡ g
    → s ≡ u
    → ◌≡◌ {A = Option SocketAddr}
        (some (record { ip = v6 i; port = 0; flowinfo = f; scope_id = s }))
        (some (record { ip = v6 j; port = 0; flowinfo = g; scope_id = u }))
same_v6 p q r = cc

-- The words of 32 bits read back.
u32_at-u32_ne : (e : Endian) (n : ℕ) (r : List ℕ) → n < 2 ^ 32 → u32_at e (u32_ne e n ++ r) ≡ n
unfolding u32_at
u32_at-u32_ne little n r h = omega arith
u32_at-u32_ne big n r h = omega arith

-- What follows the eight bytes of the family, the port and the flow.
v6_tail :
    (e : Endian) (os : List ℕ) (n : ℕ) (r : List ℕ)
    → length os ≡ 16
    → n < 2 ^ 32
    → (take 16 ((os ++ u32_ne e n) ++ r) ≡ os) × (u32_at e (drop 16 ((os ++ u32_ne e n) ++ r)) ≡ n)
v6_tail e os n r h k =
    rw
      (
        append_assoc os (u32_ne e n) r,
        take-append os (u32_ne e n ++ r) 16 h,
        drop-append os (u32_ne e n ++ r) 16 h,
      )
      (refl, u32_at-u32_ne e n r k)

v6-reads :
    (e : Endian) (os : List ℕ) (a : SocketAddr)
    → length os ≡ 16
    → a.flowinfo < 2 ^ 32
    → a.scope_id < 2 ^ 32
    → read_storage e (storage_by_ip e (v6 os) a)
      ≡ some (record { ip = v6 os; port = 0; flowinfo = a.flowinfo; scope_id = a.scope_id })
unfolding read_storage storage_by_ip pad read_v6
v6-reads little os a n f s =
    let r =
      replicate
        (storage_size
          - length (
              u16_ne little af_inet6
              ++ (u16_ne little 0
                  ++ (u32_ne little a.flowinfo ++ (os ++ u32_ne little a.scope_id)))))
        0 in
    let (ip, scope) = v6_tail little os a.scope_id r n s in
    let flow = u32_at-u32_ne little a.flowinfo ((os ++ u32_ne little a.scope_id) ++ r) f in
    same_v6 ip flow scope
v6-reads big os a n f s =
    let r =
      replicate
        (storage_size
          - length (
              u16_ne big af_inet6
              ++ (u16_ne big 0 ++ (u32_ne big a.flowinfo ++ (os ++ u32_ne big a.scope_id)))))
        0 in
    let (ip, scope) = v6_tail big os a.scope_id r n s in
    let flow = u32_at-u32_ne big a.flowinfo ((os ++ u32_ne big a.scope_id) ++ r) f in
    same_v6 ip flow scope

-- The octets of an IPv4 address, taken as an integer and written again.
octets :
    (e : Endian) (a b c d : ℕ)
    → a < 256
    → b < 256
    → c < 256
    → d < 256
    → u32_ne e (from_ne_bytes e (a ∷ b ∷ c ∷ d ∷ [])) ≡ a ∷ b ∷ c ∷ d ∷ []
octets little a b c d ha hb hc hd =
    let n = a + b * 2 ^ 8 + c * 2 ^ 16 + d * 2 ^ 24 in
    let p : n % 256 ≡ a = omega arith in
    let q : n / 2 ^ 8 % 256 ≡ b = omega arith in
    let r : n / 2 ^ 16 % 256 ≡ c = omega arith in
    let s : n / 2 ^ 24 % 256 ≡ d = omega arith in rw (p, q, r, s) refl
octets big a b c d ha hb hc hd =
    let n = a * 2 ^ 24 + b * 2 ^ 16 + c * 2 ^ 8 + d in
    let p : n / 2 ^ 24 % 256 ≡ a = omega arith in
    let q : n / 2 ^ 16 % 256 ≡ b = omega arith in
    let r : n / 2 ^ 8 % 256 ≡ c = omega arith in
    let s : n % 256 ≡ d = omega arith in rw (p, q, r, s) refl

v4-reads :
    (e : Endian) (os : List ℕ) (a : SocketAddr)
    → length os ≡ 4
    → All (λ o. o < 256) os
    → read_storage e (storage_by_ip e (v4 os) a)
      ≡ some (record { ip = v4 os; port = 0; flowinfo = 0; scope_id = 0 })
unfolding read_storage storage_by_ip pad read_v4
v4-reads little (a ∷ b ∷ c ∷ d ∷ []) _ n (ha, (hb, (hc, (hd, _)))) =
    rw (octets little a b c d ha hb hc hd) refl
v4-reads big (a ∷ b ∷ c ∷ d ∷ []) _ n (ha, (hb, (hc, (hd, _)))) =
    rw (octets big a b c d ha hb hc hd) refl
v4-reads e [] _ n _ = absurd (omega arith)
v4-reads e (a ∷ []) _ n _ = absurd (omega arith)
v4-reads e (a ∷ b ∷ []) _ n _ = absurd (omega arith)
v4-reads e (a ∷ b ∷ c ∷ []) _ n _ = absurd (omega arith)
v4-reads e (a ∷ b ∷ c ∷ d ∷ x ∷ os) _ n _ = absurd (omega arith)

by_ip-reads :
    (e : Endian) (ip : IpAddr) (a : SocketAddr)
    → IsIp ip
    → HasFields ip a
    → read_storage e (storage_by_ip e ip a)
      ≡ some (record { ip = ip; port = 0; flowinfo = a.flowinfo; scope_id = a.scope_id })
unfolding HasFields
by_ip-reads e (v4 os) a (n, h) (f, s) = v4-reads e os a n h ∙ rw (f, s) refl
by_ip-reads e (v6 os) a (n, h) (f, s) = v6-reads e os a n f s

-- On a target of either byte order, the kernel reads from the storage the address itself, with its
-- flow and its scope, and port 0.
pub read_storage-socket_addr_to_storage :
    (e : Endian) (a : SocketAddr)
    → IsAddr a
    → read_storage e (socket_addr_to_storage e a) ≡ some (record a { port = 0 })
unfolding socket_addr_to_storage IsAddr
read_storage-socket_addr_to_storage e a (i, f) = by_ip-reads e a.ip a i f
