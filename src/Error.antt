-- ===== src/Error.antt =====
-- The errors of src/error.rs, and the part of `std::io::Error` that the program looks at. A message
-- is kept as the pieces that `format!` joins, so no piece is lost by rendering.
mod Abi
pub use Abi.*
use rust_tcpao_proxy.Base.{
  ℕ, Option, none, some, Text, String, Bool, true, false, ◌==◌, ◌||◌, if◌then◌else◌,
}
use rust_tcpao_proxy.Net.{IpAddr, SocketAddr}

-- `io::ErrorKind`: the kinds that the program names; `other` is any other kind, by the number that
-- the system gave for it.
pub data ErrorKind : Type 0 where
  not_found permission_denied invalid_input unsupported : ErrorKind
  other : ℕ → ErrorKind

mutual
  -- `io::Error`: from the system (`last_os_error`), or made by `io::Error::new`.
  pub data IoError : Type 0 where
    os : ℕ → IoError
    custom : ErrorKind → Message → IoError

  pub data Message : Type 0 where
    end : Message
    str : String → Message → Message
    text : Text → Message → Message
    number : ℕ → Message → Message
    optional_port : Option ℕ → Message → Message
    ip : IpAddr → Message → Message
    addr : SocketAddr → Message → Message
    show_io : IoError → Message → Message
    show_proxy : ProxyError → Message → Message

  pub data ProxyError : Type 0 where
    io_error : IoError → ProxyError
    toml : Text → ProxyError
    addr_parse : ProxyError
    config : Message → ProxyError
    missing_mode_config : String → ProxyError
    no_policy_for_peer : Message → ProxyError
    tcp_ao : Message → ProxyError

-- The display text of a `ProxyError`, by the `#[error(...)]` attributes. `toml::de::Error` carries
-- the parser's own text; the program parses only socket addresses, for which std's `AddrParseError`
-- has one text.
unfoldable pub display : ProxyError → Message
display (io_error e) = str "io error: " (show_io e end)
display (toml t) = str "toml parse error: " (text t end)
display addr_parse = str "address parse error: " (str "invalid socket address syntax" end)
display (config m) = str "invalid config: " m
display (missing_mode_config s) = str "missing mode config section: " (str s end)
display (no_policy_for_peer m) = str "no AO policy matched peer " m
display (tcp_ao m) = str "tcp-ao unsupported or not configured: " m

-- What `io::Error::kind` makes of a system's error number on Linux.
unfoldable pub decode_error_kind : ℕ → ErrorKind
decode_error_kind code =
    if code == enoent
    then not_found
    else if code == eperm || code == eacces
    then permission_denied
    else if code == einval
    then invalid_input
    else if code == enosys || code == eopnotsupp
    then unsupported
    else other code

-- `io::Error::kind`.
unfoldable pub kind : IoError → ErrorKind
kind (os code) = decode_error_kind code
kind (custom k m) = k

-- `io::Error::raw_os_error`.
unfoldable pub raw_os_error : IoError → Option ℕ
raw_os_error (os code) = some code
raw_os_error (custom k m) = none

unfoldable pub is_not_found : ErrorKind → Bool
is_not_found not_found = true
is_not_found permission_denied = false
is_not_found invalid_input = false
is_not_found unsupported = false
is_not_found (other n) = false
