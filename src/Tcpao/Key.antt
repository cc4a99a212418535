-- ===== src/Tcpao/Key.antt =====
-- `install_key`: the request for `TCP_AO_ADD_KEY`.
use rust_tcpao_proxy.Base.{
  ℕ, ◌%◌, Bool, Option, none, some, true, false, List, Result, ok, err, and_then, length, ltb, leb,
  as_bytes, if◌then◌else◌,
}
use rust_tcpao_proxy.Error.{
  IoError, custom, invalid_input, str, number, end, display, tcp_ao_maxkeylen,
}
use rust_tcpao_proxy.Net.{SocketAddr}
use rust_tcpao_proxy.Config.{AoPolicyConfig, load_key_bytes}
use rust_tcpao_proxy.Os.{Os, Action, ◌>>=◌, lift, mapping, TcpAoAdd, ao_add_key, Endian}
use rust_tcpao_proxy.Tcpao.Mac.{normalize_mac_alg}
use rust_tcpao_proxy.Tcpao.Storage.{pad, socket_addr_to_storage, prefix_len_for_ip}
use rust_tcpao_proxy.Tcpao.Sockopt.{setsockopt_tcp}

unfoldable pub is_some {ℓ} : {A : Type ℓ} → Option A → Bool
is_some none = false
is_some (some a) = true

abbrev pub alg_name_size : ℕ
alg_name_size = 64

-- The struct, once the name and the tag's length are known.
unfoldable pub fill_add :
    Endian → AoPolicyConfig → SocketAddr → List ℕ → Bool → List ℕ → ℕ → TcpAoAdd
unfolding pad socket_addr_to_storage prefix_len_for_ip is_some
fill_add e policy peer key set_current alg maclen = record {
  addr = socket_addr_to_storage e peer;
  alg_name = pad alg_name_size alg;
  set_current = set_current;
  set_rnext = is_some policy.rnextkeyid;
  prefix_len = prefix_len_for_ip peer.ip;
  sndid = policy.keyid;
  rcvid = policy.keyid;
  maclen = maclen;
  keylen = length key % 256;
  key = pad tcp_ao_maxkeylen key;
}

-- The checks of `install_key`, in its order, and the struct that it passes to the kernel.
unfoldable pub key_request :
    Endian → AoPolicyConfig → SocketAddr → List ℕ → Bool → Result IoError TcpAoAdd
unfolding normalize_mac_alg as_bytes fill_add
key_request e policy peer key set_current =
    if ltb tcp_ao_maxkeylen (length key)
    then err (
        custom invalid_input (
          str "ao key too long: "
            (number (length key) (str " bytes (max " (number tcp_ao_maxkeylen (str ")" end))))))
    else and_then (normalize_mac_alg policy.mac_alg) λ (alg, maclen).
      if leb alg_name_size (length (as_bytes alg))
      then err (custom invalid_input (str "mac_alg string is too long for kernel tcp_ao_add" end))
      else ok (fill_add e policy peer key set_current (as_bytes alg) maclen)

module _ (sys : Os) where
  unfoldable pub policy_key_bytes : AoPolicyConfig → Action IoError (List ℕ)
  unfolding load_key_bytes
  policy_key_bytes policy =
      mapping (λ e. custom invalid_input (display e)) (load_key_bytes sys policy.key_source)

  unfoldable pub install_key :
      ℕ → AoPolicyConfig → SocketAddr → List ℕ → Bool → Action IoError (Unit {0})
  unfolding key_request setsockopt_tcp
  install_key fd policy peer key set_current = do
    add ← lift (key_request sys.endian policy peer key set_current)
    setsockopt_tcp sys fd (ao_add_key add) "TCP_AO_ADD_KEY"
