-- ===== src/Tcpao/Agree.antt =====
-- `install_key` of src/tcpao/linux.rs at the two ends of a connection.
use mathlib.Core.Path.{subst}
use rust_tcpao_proxy.Base.{
  ℕ, ◌≡◌, refl, sym, ◌∙◌, Bool, false, List, Text, ok, and_then-eq-ok, if-err, ok-eq, ltb, leb,
  as_bytes, length,
}
use rust_tcpao_proxy.Error.{tcp_ao_maxkeylen}
use rust_tcpao_proxy.Net.{SocketAddr}
use rust_tcpao_proxy.Config.{AoPolicyConfig}
use rust_tcpao_proxy.Os.{Endian, TcpAoAdd}
use rust_tcpao_proxy.Tcpao.Mac.{normalize_mac_alg}
use rust_tcpao_proxy.Tcpao.Key.{alg_name_size, fill_add, key_request}

-- The ends use the same key with the same algorithm, and each sends with the identifier that the
-- other receives.
pub record Agree (x y : TcpAoAdd) : Type 0 where
  pub alg : x.alg_name ≡ y.alg_name
  pub tag : x.maclen ≡ y.maclen
  pub size : x.keylen ≡ y.keylen
  pub bytes : x.key ≡ y.key
  pub there : x.sndid ≡ y.rcvid
  pub back : x.rcvid ≡ y.sndid

fill_add-Agree :
    (e e' : Endian) (p q : AoPolicyConfig) (peer peer' : SocketAddr) (key alg : List ℕ)
    (c c' : Bool) (maclen : ℕ)
    → p.keyid ≡ q.keyid
    → Agree (fill_add e p peer key c alg maclen) (fill_add e' q peer' key c' alg maclen)
unfolding fill_add
fill_add-Agree e e' p q peer peer' key alg c c' maclen same = record {
  alg = refl;
  tag = refl;
  size = refl;
  bytes = refl;
  there = same;
  back = same;
}

-- The checks that a request passes.
key_request-made :
    (e : Endian) (p : AoPolicyConfig) (peer : SocketAddr) (key : List ℕ) (c : Bool) (name : Text)
    (maclen : ℕ)
    → ltb tcp_ao_maxkeylen (length key) ≡ false
    → normalize_mac_alg p.mac_alg ≡ ok (name, maclen)
    → leb alg_name_size (length (as_bytes name)) ≡ false
    → key_request e p peer key c ≡ ok (fill_add e p peer key c (as_bytes name) maclen)
unfolding key_request
key_request-made e p peer key c name maclen short known fits = rw (short, known, fits) refl

-- Where two policies have the same `keyid` and their algorithms the same meaning for
-- `normalize_mac_alg`, and the ends have the same key, a request that one end makes has a request of
-- the other end that agrees with it, whatever the byte orders, the peers and the current keys.
pub key_request-Agree :
    (e e' : Endian) (p q : AoPolicyConfig) (peer peer' : SocketAddr) (key : List ℕ) (c c' : Bool)
    (x : TcpAoAdd)
    → p.keyid ≡ q.keyid
    → normalize_mac_alg p.mac_alg ≡ normalize_mac_alg q.mac_alg
    → key_request e p peer key c ≡ ok x
    → (y : TcpAoAdd) × (key_request e' q peer' key c' ≡ ok y) × Agree x y
unfolding key_request
key_request-Agree e e' p q peer peer' key c c' x same alike h =
    let (short, rest) = if-err (ltb tcp_ao_maxkeylen (length key)) _ _ h in
    let r = and_then-eq-ok (normalize_mac_alg p.mac_alg) _ rest in
    let (fits, made) = if-err (leb alg_name_size (length (as_bytes r.0.0))) _ _ r.2 in
    let known : normalize_mac_alg q.mac_alg ≡ ok r.0 = sym alike ∙ r.1 in
    (
      fill_add e' q peer' key c' (as_bytes r.0.0) r.0.1,
      key_request-made e' q peer' key c' r.0.0 r.0.1 short known fits,
      subst (λ z. Agree z (fill_add e' q peer' key c' (as_bytes r.0.0) r.0.1)) (ok-eq made)
          (fill_add-Agree e e' p q peer peer' key (as_bytes r.0.0) c c' r.0.1 same),
    )
