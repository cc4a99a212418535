-- ===== src/Os.antt =====
-- The operating system as the program meets it: an oracle that answers each call, given the calls
-- made before it, and the actions of the program as state (the trace of calls) with failure. Nothing
-- is assumed of the answers, so a theorem over every `Os` holds for every kernel and environment.
pub mod Quiet
pub mod Invert
pub mod Gives
use rust_tcpao_proxy.Base.{ℕ, Bool, Option, List, ◌∷◌, Text, Result, ok, err, map_err}
use rust_tcpao_proxy.Net.{SocketAddr}
use rust_tcpao_proxy.Error.{IoError, os, ProxyError}

-- The byte order of a target.
pub data Endian : Type 0 where
  little big : Endian

pub data Family : Type 0 where
  inet inet6 : Family

-- `struct tcp_ao_add`, as `install_key` fills it.
pub record TcpAoAdd : Type 0 where
  pub addr : List ℕ
  pub alg_name : List ℕ
  pub set_current : Bool
  pub set_rnext : Bool
  pub prefix_len : ℕ
  pub sndid : ℕ
  pub rcvid : ℕ
  pub maclen : ℕ
  pub keylen : ℕ
  pub key : List ℕ

-- `struct tcp_ao_info_opt`: the one field that the program uses.
pub record AoInfo : Type 0 where
  pub ao_required : ℕ

-- The options that the program sets on a socket. An integer option has its level, its name and
-- the 32 bits of its value.
pub data SockOpt : Type 0 where
  ao_add_key : TcpAoAdd → SockOpt
  ao_info : AoInfo → SockOpt
  int_option : ℕ → ℕ → ℕ → SockOpt
  reuse_address : SockOpt

-- The formatters of `tracing_subscriber`.
pub data Formatter : Type 0 where
  compact json : Formatter

-- A call with its outcome; a failed call gives the error number. A subscriber of the log has its
-- filter, as a text, and its formatter.
pub data Event : Type 0 where
  read_file : Text → Event
  env_var : Text → Event
  socket : Family → Result ℕ ℕ → Event
  close : ℕ → Event
  setsockopt : ℕ → SockOpt → Result ℕ (Unit {0}) → Event
  getsockopt : ℕ → Result ℕ AoInfo → Event
  bind : ℕ → SocketAddr → Result ℕ (Unit {0}) → Event
  listen : ℕ → ℕ → Result ℕ (Unit {0}) → Event
  set_nonblocking : ℕ → Result ℕ (Unit {0}) → Event
  register : ℕ → Result ℕ (Unit {0}) → Event
  connect : ℕ → SocketAddr → Result ℕ (Unit {0}) → Event
  tcp_bind : SocketAddr → Result ℕ ℕ → Event
  init_subscriber : Text → Formatter → Event

-- The newest event first.
abbrev pub Trace : Type 0
Trace = List Event

pub record Os : Type 0 where
  -- whether the binary was built with debug assertions
  pub debug_assertions : Bool
  -- the byte order of the target
  pub endian : Endian
  -- the value of a variable that is set and is Unicode
  pub env_var : Trace → Text → Option Text
  pub read_file : Trace → Text → Result ℕ (List ℕ)
  -- the text of a file, or an error also where it is not UTF-8
  pub read_to_string : Trace → Text → Result IoError Text
  pub socket : Trace → Family → Result ℕ ℕ
  pub setsockopt : Trace → ℕ → SockOpt → Result ℕ (Unit {0})
  pub getsockopt : Trace → ℕ → Result ℕ AoInfo
  pub bind : Trace → ℕ → SocketAddr → Result ℕ (Unit {0})
  pub listen : Trace → ℕ → ℕ → Result ℕ (Unit {0})
  pub set_nonblocking : Trace → ℕ → Result ℕ (Unit {0})
  pub register : Trace → ℕ → Result ℕ (Unit {0})
  pub connect : Trace → ℕ → SocketAddr → Result ℕ (Unit {0})
  -- `EnvFilter::try_from_default_env`: the filter of the environment, if there is one that is valid
  pub default_env : Trace → Option Text
  -- `tokio::net::TcpListener::bind`: a listening socket
  pub tcp_bind : Trace → SocketAddr → Result ℕ ℕ

-- An action: from the trace so far to an outcome and the longer trace.
abbrev pub Action : Type 0 → Type 0 → Type 0
Action E A = Trace → Result E A × Trace

abbrev pub resume : {E A B : Type 0} → (A → Action E B) → Result E A × Trace → Result E B × Trace
resume f (ok a, t) = f a t
resume f (err e, t) = (err e, t)

infixl 5 ◌>>=◌ ◌>>◌
abbrev pub ◌>>=◌ : {E A B : Type 0} → Action E A → (A → Action E B) → Action E B
◌>>=◌ m f t = resume f (m t)

abbrev pub ◌>>◌ : {E B : Type 0} → Action E (Unit {0}) → Action E B → Action E B
m >> k = m >>= λ _. k

abbrev pub lift : {E A : Type 0} → Result E A → Action E A
lift r t = (r, t)

abbrev pub pure : {E A : Type 0} → A → Action E A
pure a t = (ok a, t)

abbrev pub throw : {E A : Type 0} → E → Action E A
throw e t = (err e, t)

-- `.map_err(f)`.
abbrev pub mapping : {E F A : Type 0} → (E → F) → Action E A → Action F A
mapping f m t = let (r, t') = m t in (map_err f r, t')

-- The outcome of an action as a value, for a `match` on it.
abbrev pub attempt : {E F A : Type 0} → Action E A → Action F (Result E A)
attempt m t = let (r, t') = m t in (ok r, t')

-- `?` from an `io::Result` into a `Result` of the program.
abbrev pub from_io : {A : Type 0} → Action IoError A → Action ProxyError A
from_io = mapping ProxyError.io_error

module _ (sys : Os) where
  abbrev pub getenv : Text → {E : Type 0} → Action E (Option Text)
  getenv name t = (ok (sys.env_var t name), env_var name ∷ t)

  abbrev pub fs_read : Text → Action IoError (List ℕ)
  fs_read path t = (map_err os (sys.read_file t path), read_file path ∷ t)

  abbrev pub fs_read_to_string : Text → Action IoError Text
  fs_read_to_string path t = (sys.read_to_string t path, read_file path ∷ t)

  abbrev pub new_socket : Family → Action IoError ℕ
  new_socket family t = let r = sys.socket t family in (map_err os r, socket family r ∷ t)

  abbrev pub close_fd : ℕ → {E : Type 0} → Action E (Unit {0})
  close_fd fd t = (ok tt, close fd ∷ t)

  abbrev pub sys_setsockopt : ℕ → SockOpt → Action IoError (Unit {0})
  sys_setsockopt fd opt t =
      let r = sys.setsockopt t fd opt in (map_err os r, setsockopt fd opt r ∷ t)

  abbrev pub sys_getsockopt : ℕ → Action IoError AoInfo
  sys_getsockopt fd t = let r = sys.getsockopt t fd in (map_err os r, getsockopt fd r ∷ t)

  abbrev pub sys_bind : ℕ → SocketAddr → Action IoError (Unit {0})
  sys_bind fd a t = let r = sys.bind t fd a in (map_err os r, bind fd a r ∷ t)

  abbrev pub sys_listen : ℕ → ℕ → Action IoError (Unit {0})
  sys_listen fd backlog t =
      let r = sys.listen t fd backlog in (map_err os r, listen fd backlog r ∷ t)

  abbrev pub sys_set_nonblocking : ℕ → Action IoError (Unit {0})
  sys_set_nonblocking fd t =
      let r = sys.set_nonblocking t fd in (map_err os r, set_nonblocking fd r ∷ t)

  -- Hands a listener to the runtime's poller (`TcpListener::from_std`).
  abbrev pub sys_register : ℕ → Action IoError (Unit {0})
  sys_register fd t = let r = sys.register t fd in (map_err os r, register fd r ∷ t)

  -- The stream that `connect` gives is the socket's, under the same descriptor.
  abbrev pub sys_connect : ℕ → SocketAddr → Action IoError ℕ
  sys_connect fd a t =
      let r = sys.connect t fd a in
      (elim r [ ok _ ↦ ok fd | err e ↦ err (os e) ], connect fd a r ∷ t)

  abbrev pub sys_tcp_bind : SocketAddr → Action IoError ℕ
  sys_tcp_bind a t = let r = sys.tcp_bind t a in (map_err os r, tcp_bind a r ∷ t)

  -- `tracing_subscriber::fmt().with_env_filter(…)…init()`.
  abbrev pub init_fmt : Text → Formatter → {E : Type 0} → Action E (Unit {0})
  init_fmt filter formatter t = (ok tt, init_subscriber filter formatter ∷ t)

  abbrev pub try_default_env : {E : Type 0} → Action E (Option Text)
  try_default_env t = (ok (sys.default_env t), t)
