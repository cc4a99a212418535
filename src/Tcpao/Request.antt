-- ===== src/Tcpao/Request.antt =====
-- The request that `install_key` of src/tcpao/linux.rs passes to the kernel.
use mathlib.Core.Path.{subst}
use rust_tcpao_proxy.Base.{
  ℕ, ◌-◌, ◌%◌, ◌<◌, ◌≤◌, ◌≡◌, ◌↔◌, refl, sym, ap, ◌∙◌, Bool, true, false, some, List, length, take,
  replicate, length-append, length-replicate, take-append, if◌then◌else◌, arith, Result, ok, err,
  and_then, and_then-eq-ok, if-err, ok-eq, ltb, leb, as_bytes, Text, to_ascii_lowercase, trim,
  is_empty,
}
use rust_tcpao_proxy.Error.{tcp_ao_maxkeylen}
use rust_tcpao_proxy.Net.{SocketAddr, IpAddr, v4, v6}
use rust_tcpao_proxy.Config.{AoPolicyConfig}
use rust_tcpao_proxy.Os.{Endian, TcpAoAdd}
use rust_tcpao_proxy.Tcpao.Mac.{normalize_mac_alg, map_alg}
use rust_tcpao_proxy.Tcpao.Storage.{pad, socket_addr_to_storage, storage_by_ip, prefix_len_for_ip}
use rust_tcpao_proxy.Tcpao.Storage.Decode.{
  read_storage, IsAddr, read_storage-socket_addr_to_storage,
}
use rust_tcpao_proxy.Tcpao.Key.{alg_name_size, fill_add, key_request}

-- Padding fills the field and keeps what it pads.
pub length-pad : (n : ℕ) (bytes : List ℕ) → length bytes ≤ n → length (pad n bytes) ≡ n
unfolding pad
length-pad n bytes h =
    length-append bytes (replicate (n - length bytes) 0)
    ∙ rw (length-replicate {A = ℕ} (n - length bytes) 0) (omega arith)

take-pad : (n : ℕ) (bytes : List ℕ) → take (length bytes) (pad n bytes) ≡ bytes
unfolding pad
take-pad n bytes = take-append bytes (replicate (n - length bytes) 0) (length bytes) refl

-- The request carries the key, the name and the address, each whole.
pub record Carries (e : Endian) (policy : AoPolicyConfig) (peer : SocketAddr) (key : List ℕ)
    (current : Bool) (add : TcpAoAdd) : Type 0 where
  pub key_size : length add.key ≡ tcp_ao_maxkeylen
  pub key_kept : take add.keylen add.key ≡ key
  pub name_size : length add.alg_name ≡ alg_name_size
  -- a name that the algorithm's table gives, with a zero behind it
  pub name : Text
  pub named : normalize_mac_alg policy.mac_alg ≡ ok (name, add.maclen)
  pub terminated : length (as_bytes name) < alg_name_size
  pub name_kept : take (length (as_bytes name)) add.alg_name ≡ as_bytes name
  pub addressed : read_storage e add.addr ≡ some (record peer { port = 0 })
  pub prefix : add.prefix_len ≡ prefix_len_for_ip peer.ip
  pub sends : add.sndid ≡ policy.keyid
  pub receives : add.rcvid ≡ policy.keyid
  pub current_key : add.set_current ≡ current

-- The struct, from the name and the tag's length.
fill_add-Carries :
    (e : Endian) (policy : AoPolicyConfig) (peer : SocketAddr) (key : List ℕ) (current : Bool)
    (name : Text) (maclen : ℕ)
    → IsAddr peer
    → length key ≤ tcp_ao_maxkeylen
    → normalize_mac_alg policy.mac_alg ≡ ok (name, maclen)
    → length (as_bytes name) < alg_name_size
    → Carries e policy peer key current (fill_add e policy peer key current (as_bytes name) maclen)
unfolding fill_add
fill_add-Carries e policy peer key current name maclen is_addr short named fits =
    let whole : length key % 256 ≡ length key = omega arith in
    record {
      key_size = length-pad tcp_ao_maxkeylen key short;
      key_kept = rw whole (take-pad tcp_ao_maxkeylen key);
      name_size = length-pad alg_name_size (as_bytes name) (omega arith);
      name = name;
      named = named;
      terminated = fits;
      name_kept = take-pad alg_name_size (as_bytes name);
      addressed = read_storage-socket_addr_to_storage e peer is_addr;
      prefix = refl;
      sends = refl;
      receives = refl;
      current_key = refl;
    }

pub ltb_iff : (a b : ℕ) → (ltb a b ≡ false) ↔ (b ≤ a)
ltb_iff a b = ground arith

pub leb_iff : (a b : ℕ) → (leb a b ≡ false) ↔ (b < a)
leb_iff a b = ground arith

-- A request that `install_key` makes carries the key, the kernel's name of the algorithm and the
-- address without its port, none of them cut off, and both identifiers are the policy's `keyid`.
pub key_request-Carries :
    (e : Endian) (policy : AoPolicyConfig) (peer : SocketAddr) (key : List ℕ) (current : Bool)
    (add : TcpAoAdd)
    → IsAddr peer
    → key_request e policy peer key current ≡ ok add
    → Carries e policy peer key current add
unfolding key_request
key_request-Carries e policy peer key current add is_addr h =
    let (short, rest) = if-err (ltb tcp_ao_maxkeylen (length key)) _ _ h in
    let r = and_then-eq-ok (normalize_mac_alg policy.mac_alg) _ rest in
    let (fits, same) = if-err (leb alg_name_size (length (as_bytes r.0.0))) _ _ r.2 in
    subst (Carries e policy peer key current) (ok-eq same) (
      fill_add-Carries e policy peer key current r.0.0 r.0.1 is_addr
        ((ltb_iff tcp_ao_maxkeylen (length key)).0 short) r.1
        ((leb_iff alg_name_size (length (as_bytes r.0.0))).0 fits))

-- A request is made exactly when the key has at most 80 bytes, the name of the algorithm is not
-- empty after trimming, and the kernel's name of it leaves room for a zero in 64 bytes.
pub key_request_iff :
    (e : Endian) (policy : AoPolicyConfig) (peer : SocketAddr) (key : List ℕ) (current : Bool)
    → ((add : TcpAoAdd) × (key_request e policy peer key current ≡ ok add)) ↔ (
        (length key ≤ tcp_ao_maxkeylen)
        × (is_empty (trim policy.mac_alg) ≡ false)
        × (length (
              as_bytes (map_alg (trim policy.mac_alg) (to_ascii_lowercase (trim policy.mac_alg))).0)
            < alg_name_size))
unfolding key_request normalize_mac_alg
key_request_iff e policy peer key current =
    let trimmed = trim policy.mac_alg in
    let mapped = map_alg trimmed (to_ascii_lowercase trimmed) in
    (
      λ (add, h).
          let (short, rest) = if-err (ltb tcp_ao_maxkeylen (length key)) _ _ h in
          let r = and_then-eq-ok (normalize_mac_alg policy.mac_alg) _ rest in
          let (full, mapped_eq) = if-err (is_empty trimmed) _ _ r.1 in
          let (fits, _) = if-err (leb alg_name_size (length (as_bytes r.0.0))) _ _ r.2 in
          (
            (ltb_iff tcp_ao_maxkeylen (length key)).0 short,
            full,
            subst (λ x. length (as_bytes x.0) < alg_name_size) (sym (ok-eq mapped_eq))
                ((leb_iff alg_name_size (length (as_bytes r.0.0))).0 fits),
          ),
      λ (short, full, fits).
          let a = (ltb_iff tcp_ao_maxkeylen (length key)).1 short in
          let b = (leb_iff alg_name_size (length (as_bytes mapped.0))).1 fits in
          (fill_add e policy peer key current (as_bytes mapped.0) mapped.1, rw (a, full, b) refl),
    )

if-same :
    {A : Type 0} (b : Bool) (x : A) {y z : A} → y ≡ z → (if b then x else y) ≡ (if b then x else z)
if-same true x h = refl
if-same false x h = h

and_then-same :
    {E A B : Type 0} (m : Result E A) {f g : A → Result E B}
    → ((a : A) → f a ≡ g a)
    → and_then m f ≡ and_then m g
and_then-same (ok a) h = h a
and_then-same (err e) h = refl

storage-portless :
    (e : Endian) (ip : IpAddr) (a : SocketAddr) (port : ℕ)
    → storage_by_ip e ip (record a { port = port }) ≡ storage_by_ip e ip a
unfolding storage_by_ip
storage-portless e (v4 os) a port = refl
storage-portless e (v6 os) a port = refl

fill_add-portless :
    (e : Endian) (policy : AoPolicyConfig) (peer : SocketAddr) (port : ℕ) (key : List ℕ)
    (current : Bool) (alg : List ℕ) (maclen : ℕ)
    → fill_add e policy (record peer { port = port }) key current alg maclen
      ≡ fill_add e policy peer key current alg maclen
unfolding fill_add socket_addr_to_storage
fill_add-portless e policy peer port key current alg maclen =
    rw (storage-portless e peer.ip peer port) refl

-- The port of the peer makes no difference: peers that have the same address, flow and scope get
-- the same request.
pub key_request-portless :
    (e : Endian) (policy : AoPolicyConfig) (peer : SocketAddr) (port : ℕ) (key : List ℕ)
    (current : Bool)
    → key_request e policy (record peer { port = port }) key current
      ≡ key_request e policy peer key current
unfolding key_request
key_request-portless e policy peer port key current =
    if-same (ltb tcp_ao_maxkeylen (length key)) _ (
      and_then-same (normalize_mac_alg policy.mac_alg) λ (alg, maclen).
        if-same (leb alg_name_size (length (as_bytes alg))) _
          (ap ok (fill_add-portless e policy peer port key current (as_bytes alg) maclen)))
