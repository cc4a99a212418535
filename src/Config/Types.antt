-- ===== src/Config/Types.antt =====
-- The data of src/config.rs. The TOML text is read by the crates `serde` and `toml`, so a loaded
-- configuration is a value of these types.
use rust_tcpao_proxy.Base.{
  ℕ, ◌*◌, Bool, false, Option, none, some, List, Text, Result, ok_or, ◌==◌, if◌then◌else◌,
}
use rust_tcpao_proxy.Net.{IpAddr, SocketAddr}
use rust_tcpao_proxy.Net.Parse.{parse_socket_addr}
use rust_tcpao_proxy.Error.{ProxyError, addr_parse}

pub data Mode : Type 0 where
  initiator terminator : Mode

pub data LogFormat : Type 0 where
  text json : LogFormat

-- A `u64` is a number below 2 ^ 64; the program reads it as it is.
pub record GlobalConfig : Type 0 where
  pub log_format : LogFormat
  pub idle_timeout_secs : ℕ
  pub tcp_keepalive : Bool
  pub keepalive_time_secs : Option ℕ
  pub keepalive_intvl_secs : Option ℕ
  pub keepalive_probes : Option ℕ

pub record InitiatorConfig : Type 0 where
  pub listen_plain : Text
  pub remote_ao : Text

pub record TerminatorConfig : Type 0 where
  pub listen_ao : Text
  pub forward_plain : Text

pub record KeySource : Type 0 where
  pub source : Text

pub record AoPolicyConfig : Type 0 where
  pub name : Text
  pub peer_ip : IpAddr
  pub peer_port : Option ℕ
  pub keyid : ℕ
  pub rnextkeyid : Option ℕ
  pub mac_alg : Text
  pub key_source : KeySource

pub record Config : Type 0 where
  pub global : GlobalConfig
  pub initiator : Option InitiatorConfig
  pub terminator : Option TerminatorConfig
  pub ao_policy : List AoPolicyConfig

pub data KeySourceKind : Type 0 where
  file : Text → KeySourceKind
  env : Text → KeySourceKind

abbrev pub default_idle_timeout_secs : ℕ
default_idle_timeout_secs = 120

-- `GlobalConfig::default`.
abbrev pub default_global : GlobalConfig
default_global = record {
  log_format = text;
  idle_timeout_secs = default_idle_timeout_secs;
  tcp_keepalive = false;
  keepalive_time_secs = none;
  keepalive_intvl_secs = none;
  keepalive_probes = none;
}

-- `GlobalConfig::idle_timeout`; a `Duration` is in nanoseconds.
unfoldable pub idle_timeout : GlobalConfig → Option ℕ
idle_timeout g =
    if g.idle_timeout_secs == 0 then none else some (g.idle_timeout_secs * 1_000_000_000)

abbrev parse_addr : Text → Result ProxyError SocketAddr
parse_addr s = ok_or addr_parse (parse_socket_addr s)

unfoldable pub listen_plain_addr : InitiatorConfig → Result ProxyError SocketAddr
listen_plain_addr c = parse_addr c.listen_plain

unfoldable pub remote_ao_addr : InitiatorConfig → Result ProxyError SocketAddr
remote_ao_addr c = parse_addr c.remote_ao

unfoldable pub listen_ao_addr : TerminatorConfig → Result ProxyError SocketAddr
listen_ao_addr c = parse_addr c.listen_ao

unfoldable pub forward_plain_addr : TerminatorConfig → Result ProxyError SocketAddr
forward_plain_addr c = parse_addr c.forward_plain
