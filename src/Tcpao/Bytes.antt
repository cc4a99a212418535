-- ===== src/Tcpao/Bytes.antt =====
-- The bytes that src/tcpao/linux.rs writes into the fields of `tcp_ao_add`.
use rust_tcpao_proxy.Base.{
  ℕ, zero, suc, ◌+◌, ◌-◌, ◌<◌, ◌≤◌, ◌≡◌, refl, true, false, ◌&&◌, List, [], ◌∷◌, ◌++◌, length,
  length-append, replicate, All, All-append, arith, if◌then◌else◌, Text, as_bytes, utf8_char,
  trim_start, trim_end, keep_end, is_whitespace, is_empty,
}
use rust_tcpao_proxy.Error.{af_inet, af_inet6}
use rust_tcpao_proxy.Net.{IpAddr, v4, v6, SocketAddr, IsIp}
use rust_tcpao_proxy.Os.{Endian, little, big}
use rust_tcpao_proxy.Tcpao.Storage.{
  pad, storage_size, u16_ne, u32_ne, from_ne_bytes, storage_by_ip, prefix_len_for_ip,
}
use rust_tcpao_proxy.Tcpao.Request.{length-pad}

abbrev pub AreBytes : List ℕ → Type 0
AreBytes bs = All (λ b. b < 256) bs

-- Text holds Unicode scalar values.
abbrev pub IsText : Text → Type 0
IsText s = All (λ c. c < 0x110000) s

All-replicate : (P : ℕ → Type 0) (n a : ℕ) → P a → All P (replicate n a)
All-replicate P zero a h = tt
All-replicate P (suc n) a h = (h, All-replicate P n a h)

pad-AreBytes : (n : ℕ) (bs : List ℕ) → AreBytes bs → AreBytes (pad n bs)
unfolding pad
pad-AreBytes n bs h = All-append _ bs _ h (All-replicate _ (n - length bs) 0 (omega arith))

u16_ne-AreBytes : (e : Endian) (n : ℕ) → AreBytes (u16_ne e n)
u16_ne-AreBytes little n = (omega arith, (omega arith, tt))
u16_ne-AreBytes big n = (omega arith, (omega arith, tt))

u32_ne-AreBytes : (e : Endian) (n : ℕ) → AreBytes (u32_ne e n)
u32_ne-AreBytes little n = (omega arith, (omega arith, (omega arith, (omega arith, tt))))
u32_ne-AreBytes big n = (omega arith, (omega arith, (omega arith, (omega arith, tt))))

length-u16_ne : (e : Endian) (n : ℕ) → length (u16_ne e n) ≡ 2
length-u16_ne little n = refl
length-u16_ne big n = refl

length-u32_ne : (e : Endian) (n : ℕ) → length (u32_ne e n) ≡ 4
length-u32_ne little n = refl
length-u32_ne big n = refl

-- The family, the port and the word behind them.
abbrev header : Endian → ℕ → ℕ → List ℕ → List ℕ
header e family word rest = u16_ne e family ++ (u16_ne e 0 ++ (u32_ne e word ++ rest))

length-header :
    (e : Endian) (family word : ℕ) (rest : List ℕ)
    → length (header e family word rest) ≡ 8 + length rest
length-header little family word rest = omega arith
length-header big family word rest = omega arith

header-AreBytes :
    (e : Endian) (family word : ℕ) (rest : List ℕ)
    → AreBytes rest
    → AreBytes (header e family word rest)
header-AreBytes e family word rest h = All-append _ (u16_ne e family) _ (u16_ne-AreBytes e family) (
    All-append _ (u16_ne e 0) _ (u16_ne-AreBytes e 0)
      (All-append _ (u32_ne e word) rest (u32_ne-AreBytes e word) h))

-- A field of the struct has its size, and holds bytes.
pub record IsField (n : ℕ) (bs : List ℕ) : Type 0 where
  pub size : length bs ≡ n
  pub bytes : AreBytes bs

pub pad-IsField : (n : ℕ) (bs : List ℕ) → length bs ≤ n → AreBytes bs → IsField n (pad n bs)
pad-IsField n bs short h = record { size = length-pad n bs short; bytes = pad-AreBytes n bs h }

pub storage_by_ip-IsField :
    (e : Endian) (ip : IpAddr) (a : SocketAddr)
    → IsIp ip
    → IsField storage_size (storage_by_ip e ip a)
unfolding storage_by_ip
storage_by_ip-IsField e (v4 os) a (n, h) =
    let zeros : List ℕ = replicate 8 0 in
    let size = length-header e af_inet (from_ne_bytes e os) zeros in
    pad-IsField storage_size (header e af_inet (from_ne_bytes e os) zeros) (omega (arith, size)) (
      header-AreBytes e af_inet (from_ne_bytes e os) zeros
        (All-replicate (λ b. b < 256) 8 0 (omega arith)))
storage_by_ip-IsField e (v6 os) a (n, h) =
    let rest = os ++ u32_ne e a.scope_id in
    let size = length-header e af_inet6 a.flowinfo rest in
    pad-IsField storage_size (header e af_inet6 a.flowinfo rest)
      (omega (arith, size, length-append os (u32_ne e a.scope_id), length-u32_ne e a.scope_id))
      (header-AreBytes e af_inet6 a.flowinfo rest
        (All-append _ os _ h (u32_ne-AreBytes e a.scope_id)))

pub prefix_len-bound : (ip : IpAddr) → prefix_len_for_ip ip ≤ 128
unfolding prefix_len_for_ip
prefix_len-bound (v4 os) = ground arith
prefix_len-bound (v6 os) = ground arith

-- UTF-8 of a text.
utf8_char-AreBytes : (c : ℕ) → c < 0x110000 → AreBytes (utf8_char c)
unfolding utf8_char
utf8_char-AreBytes c h = ground arith

pub as_bytes-AreBytes : (s : Text) → IsText s → AreBytes (as_bytes s)
unfolding as_bytes
as_bytes-AreBytes [] h = tt
as_bytes-AreBytes (c ∷ s) (k, h) =
    All-append _ (utf8_char c) _ (utf8_char-AreBytes c k) (as_bytes-AreBytes s h)

pub trim_start-IsText : (s : Text) → IsText s → IsText (trim_start s)
unfolding trim_start
trim_start-IsText [] h = tt
trim_start-IsText (c ∷ s) (k, h) =
    elim (is_whitespace c) as (λ b. IsText (if b then trim_start s else c ∷ s)) [
      | true ↦ trim_start-IsText s h
      | false ↦ (k, h)
    ]

keep_end-IsText : (c : ℕ) (s : Text) → c < 0x110000 → IsText s → IsText (keep_end c s)
unfolding keep_end
keep_end-IsText c s k h =
    elim (is_whitespace c && is_empty s) as (λ b. IsText (if b then [] else c ∷ s)) [
      | true ↦ tt
      | false ↦ (k, h)
    ]

pub trim_end-IsText : (s : Text) → IsText s → IsText (trim_end s)
unfolding trim_end
trim_end-IsText [] h = tt
trim_end-IsText (c ∷ s) (k, h) = keep_end-IsText c (trim_end s) k (trim_end-IsText s h)
