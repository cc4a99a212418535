-- ===== src/Config/Keys.antt =====
-- `KeySource`: which kind of source a text names, and loading the key.
use rust_tcpao_proxy.Base.{
  ℕ, Option, none, some, List, Text, codes, Result, ok, err, strip_prefix, is_empty, String,
  map_err, if◌then◌else◌,
}
use rust_tcpao_proxy.Error.{ProxyError, config, toml, str, text, end}
use rust_tcpao_proxy.Os.{Os, Action, ◌>>=◌, lift, from_io, getenv, fs_read, fs_read_to_string}
use rust_tcpao_proxy.Config.Types.{Config, KeySource, KeySourceKind, file, env}
use rust_tcpao_proxy.Base.{as_bytes}

-- The three outcomes, by what is left of the text behind `file:` and behind `env:`.
unfoldable pub kind_by : Option Text → Option Text → Text → Result ProxyError KeySourceKind
unfolding is_empty
kind_by (some v) _ s =
    if is_empty v
    then err (config (str "key_source file path must not be empty" end))
    else ok (file v)
kind_by none (some v) s =
    if is_empty v
    then err (config (str "key_source env variable must not be empty" end))
    else ok (env v)
kind_by none none s =
    err (
      config (str "unsupported key_source '" (text s (str "'; expected file:PATH or env:VAR" end))))

-- `KeySource::kind`.
unfoldable pub kind_of : KeySource → Result ProxyError KeySourceKind
unfolding kind_by strip_prefix
kind_of k =
    kind_by (strip_prefix k.source (codes "file:")) (strip_prefix k.source (codes "env:")) k.source

-- A key that was read must not be empty.
unfoldable pub nonempty_key : String → List ℕ → Result ProxyError (List ℕ)
unfolding is_empty
nonempty_key why raw = if is_empty raw then err (config (str why end)) else ok raw

-- The key in a variable's value, which may be missing.
unfoldable pub env_key : Text → Option Text → Result ProxyError (List ℕ)
unfolding nonempty_key as_bytes
env_key name none = err (config (str "required env key '" (text name (str "' not found" end))))
env_key name (some raw) = nonempty_key "env key value is empty" (as_bytes raw)

module _ (sys : Os) where
  unfoldable pub load_kind : KeySourceKind → Action ProxyError (List ℕ)
  unfolding nonempty_key env_key
  load_kind (file path) = do
    raw ← from_io (fs_read sys path)
    lift (nonempty_key "key file is empty" raw)
  load_kind (env name) = do value ← getenv sys name; lift (env_key name value)

  -- `KeySource::load_key_bytes`.
  unfoldable pub load_key_bytes : KeySource → Action ProxyError (List ℕ)
  unfolding kind_of load_kind
  load_key_bytes k = do source ← lift (kind_of k); load_kind source

  -- `Config::load`, with the parser of the crate `toml`.
  unfoldable pub load : (Text → Result Text Config) → Text → Action ProxyError Config
  load parse_toml path = do
    raw ← from_io (fs_read_to_string sys path)
    lift (map_err toml (parse_toml raw))
