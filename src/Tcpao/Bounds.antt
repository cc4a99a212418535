-- ===== src/Tcpao/Bounds.antt =====
-- The sizes and ranges of the fields of the request that `install_key` of src/tcpao/linux.rs makes.
use mathlib.Core.Path.{subst}
use rust_tcpao_proxy.Base.{
  ℕ, ◌^◌, ◌<◌, ◌≤◌, ◌≡◌, refl, Bool, true, false, ◌&&◌, List, [], ◌∷◌, length, ok, arith, if-err,
  and_then-eq-ok, ok-eq, ltb, leb, if◌then◌else◌, Text, codes, as_bytes, trim, trim_start, is_empty,
  to_ascii_lowercase,
}
use rust_tcpao_proxy.Error.{tcp_ao_maxkeylen}
use rust_tcpao_proxy.Net.{SocketAddr}
use rust_tcpao_proxy.Config.{AoPolicyConfig}
use rust_tcpao_proxy.Os.{Endian, TcpAoAdd}
use rust_tcpao_proxy.Tcpao.Mac.{
  normalize_mac_alg, map_alg, one_of, sha1_names, sha256_names, cmac_names,
}
use rust_tcpao_proxy.Tcpao.Storage.{socket_addr_to_storage}
use rust_tcpao_proxy.Tcpao.Storage.Decode.{IsAddr}
use rust_tcpao_proxy.Tcpao.Request.{ltb_iff, leb_iff}
use rust_tcpao_proxy.Tcpao.Key.{alg_name_size, fill_add, key_request}
use rust_tcpao_proxy.Tcpao.Bytes.{
  AreBytes, IsText, IsField, pad-IsField, storage_by_ip-IsField, prefix_len-bound,
  as_bytes-AreBytes, trim_start-IsText, trim_end-IsText,
}

-- The kernel's name is of ASCII letters, or the trimmed name; the tag has 12 or 16 bytes.
record IsAlg (a : Text × ℕ) : Type 0 where
  is_text : IsText a.0
  short : a.1 ≤ 16

known-IsAlg : (name : Text) (n : ℕ) → IsText name → n ≤ 16 → IsAlg (name, n)
known-IsAlg name n h k = record { is_text = h; short = k }

if-IsAlg : (b : Bool) (x y : Text × ℕ) → IsAlg x → IsAlg y → IsAlg (if b then x else y)
if-IsAlg true x y h k = h
if-IsAlg false x y h k = k

abbrev pub is_text_test : (s : Text) → Bool
is_text_test [] = true
is_text_test (c ∷ s) = ltb c 0x110000 && is_text_test s

pub is_text_lem : (s : Text) → is_text_test s ≡ true → IsText s
is_text_lem [] h = tt
is_text_lem (c ∷ s) h =
    let (k, rest) : (c < 0x110000) × (is_text_test s ≡ true) = ground arith in
    (k, is_text_lem s rest)

map_alg-IsAlg : (trimmed lower : Text) → IsText trimmed → IsAlg (map_alg trimmed lower)
unfolding map_alg
map_alg-IsAlg trimmed lower h =
    if-IsAlg (one_of lower sha1_names) _ _
      (known-IsAlg (codes "hmac(sha1)") 12 (is_text_lem (codes "hmac(sha1)") refl) (omega arith))
      (if-IsAlg (one_of lower sha256_names) _ _
        (known-IsAlg (codes "hmac(sha256)") 16 (is_text_lem (codes "hmac(sha256)") refl)
          (omega arith))
        (if-IsAlg (one_of lower cmac_names) _ _
          (known-IsAlg (codes "cmac(aes)") 12 (is_text_lem (codes "cmac(aes)") refl) (omega arith))
          (known-IsAlg trimmed 12 h (omega arith))))

normalize_mac_alg-IsAlg :
    (value : Text) {a : Text × ℕ} → IsText value → normalize_mac_alg value ≡ ok a → IsAlg a
unfolding normalize_mac_alg trim
normalize_mac_alg-IsAlg value h e =
    let (_, mapped) = if-err (is_empty (trim value)) _ _ e in
    subst IsAlg (ok-eq mapped) (
      map_alg-IsAlg (trim value) (to_ascii_lowercase (trim value))
        (trim_end-IsText (trim_start value) (trim_start-IsText value h)))

-- Every field fits the type that it has in the kernel's struct, and the lengths are those of the
-- arrays.
pub record IsStruct (add : TcpAoAdd) : Type 0 where
  pub addr : IsField 128 add.addr
  pub alg_name : IsField 64 add.alg_name
  pub prefix_len : add.prefix_len ≤ 128
  pub sndid : add.sndid < 2 ^ 8
  pub rcvid : add.rcvid < 2 ^ 8
  pub maclen : add.maclen ≤ 16
  pub keylen : add.keylen ≤ 80
  pub key : IsField 80 add.key

fill_add-IsStruct :
    (e : Endian) (policy : AoPolicyConfig) (peer : SocketAddr) (key : List ℕ) (current : Bool)
    (a : Text × ℕ)
    → IsAddr peer
    → policy.keyid < 2 ^ 8
    → AreBytes key
    → length key ≤ tcp_ao_maxkeylen
    → length (as_bytes a.0) < alg_name_size
    → IsAlg a
    → IsStruct (fill_add e policy peer key current (as_bytes a.0) a.1)
unfolding fill_add socket_addr_to_storage IsAddr
fill_add-IsStruct e policy peer key current a (is_ip, _) id is_key short fits alg = record {
  addr = storage_by_ip-IsField e peer.ip peer is_ip;
  alg_name = pad-IsField 64 (as_bytes a.0) (omega arith) (as_bytes-AreBytes a.0 alg.is_text);
  prefix_len = prefix_len-bound peer.ip;
  sndid = id;
  rcvid = id;
  maclen = alg.short;
  keylen = omega arith;
  key = pad-IsField 80 key short is_key;
}

-- For a policy with a `u8` as its `keyid` and text as its algorithm, an address and a key of bytes, a request that
-- `install_key` makes fits the kernel's struct: the address has 128 bytes, the name 64, the
-- key 80, of which at most 80 count, the prefix is at most 128, the tag at most 16, and both identifiers
-- are below 256.
pub key_request-IsStruct :
    (e : Endian) (policy : AoPolicyConfig) (peer : SocketAddr) (key : List ℕ) (current : Bool)
    (add : TcpAoAdd)
    → IsAddr peer
    → policy.keyid < 2 ^ 8
    → IsText policy.mac_alg
    → AreBytes key
    → key_request e policy peer key current ≡ ok add
    → IsStruct add
unfolding key_request
key_request-IsStruct e policy peer key current add is_addr id name is_key h =
    let (short, rest) = if-err (ltb tcp_ao_maxkeylen (length key)) _ _ h in
    let r = and_then-eq-ok (normalize_mac_alg policy.mac_alg) _ rest in
    let (fits, same) = if-err (leb alg_name_size (length (as_bytes r.0.0))) _ _ r.2 in
    subst IsStruct (ok-eq same) (
      fill_add-IsStruct e policy peer key current r.0 is_addr id is_key
        ((ltb_iff tcp_ao_maxkeylen (length key)).0 short)
        ((leb_iff alg_name_size (length (as_bytes r.0.0))).0 fits)
        (normalize_mac_alg-IsAlg policy.mac_alg name r.1))
