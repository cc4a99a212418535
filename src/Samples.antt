-- ===== src/Samples.antt =====
-- A system, addresses and a configuration that the tests run the program on.
use rust_tcpao_proxy.Base.{refl, true, false, none, some, List, [], ◌∷◌, codes, ok}
use rust_tcpao_proxy.Net.{IpAddr, v4, SocketAddr, new_addr}
use rust_tcpao_proxy.Os.{Os, little}
use rust_tcpao_proxy.Os.Gives.{IsWilling}
use rust_tcpao_proxy.Config.{AoPolicyConfig, Config, GlobalConfig, default_global}

-- A release build on a kernel with TCP-AO, where every call succeeds.
abbrev pub system : Os
system = record {
  debug_assertions = false;
  endian = little;
  env_var = λ t name. some (codes "secret");
  read_file = λ t path. ok (codes "secret");
  read_to_string = λ t path. ok (codes "mode");
  socket = λ t family. ok 7;
  setsockopt = λ t fd opt. ok tt;
  getsockopt = λ t fd. ok (record { ao_required = 1 });
  bind = λ t fd a. ok tt;
  listen = λ t fd backlog. ok tt;
  set_nonblocking = λ t fd. ok tt;
  register = λ t fd. ok tt;
  connect = λ t fd a. ok tt;
  tcp_bind = λ t a. ok 3;
  default_env = λ t. none;
}

abbrev pub peer_ip : IpAddr
peer_ip = v4 (10 ∷ 0 ∷ 0 ∷ 2 ∷ [])

abbrev pub other_ip : IpAddr
other_ip = v4 (10 ∷ 0 ∷ 0 ∷ 3 ∷ [])

abbrev pub remote : SocketAddr
remote = new_addr peer_ip 1790

abbrev pub local : SocketAddr
local = new_addr (v4 (127 ∷ 0 ∷ 0 ∷ 1 ∷ [])) 179

abbrev pub exact : AoPolicyConfig
exact = record {
  name = codes "exact";
  peer_ip = peer_ip;
  peer_port = some 1790;
  keyid = 1;
  rnextkeyid = none;
  mac_alg = codes " HMAC-SHA-1 ";
  key_source = record { source = codes "env:KEY" };
}

abbrev pub any_port : AoPolicyConfig
any_port = record exact { name = codes "any"; peer_port = none; keyid = 2 }

abbrev pub other : AoPolicyConfig
other = record exact { name = codes "other"; peer_ip = other_ip; keyid = 3 }

abbrev pub policies : List AoPolicyConfig
policies = any_port ∷ exact ∷ other ∷ []

abbrev pub global : GlobalConfig
global = record default_global { tcp_keepalive = true; keepalive_time_secs = some 30 }

abbrev pub config : Config
config = record {
  global = global;
  initiator =
      some (record { listen_plain = codes "127.0.0.1:1790"; remote_ao = codes "10.0.0.2:1790" });
  terminator =
      some (record { listen_ao = codes "0.0.0.0:1790"; forward_plain = codes "127.0.0.1:179" });
  ao_policy = policies;
}

pub system-IsWilling : IsWilling system
system-IsWilling = record {
  made = λ t f. (7, refl);
  set = λ t fd opt. refl;
  connected = λ t fd a. refl;
}
