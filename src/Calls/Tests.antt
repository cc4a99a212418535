-- ===== src/Calls/Tests.antt =====
-- Calls of the program with the sample configuration on the sample system.
use mathlib.Core.Path.{subst, refl}
use rust_tcpao_proxy.Base.{
  false, ◌≡◌, List, [], ◌∷◌, ok, err, codes, Option, none, All, Text, Result, ok-eq, arith,
}
use rust_tcpao_proxy.Error.{IoError, os}
use rust_tcpao_proxy.Forward.{source_read, all}
use rust_tcpao_proxy.Config.{Config}
use rust_tcpao_proxy.Connection.{Visit}
use rust_tcpao_proxy.Connection.Accept.{visits}
use rust_tcpao_proxy.Main.{Cli, ModeArg, Ran, run}
use rust_tcpao_proxy.Calls.{Fits, IsTypedOs, IsTypedPolicy}
use rust_tcpao_proxy.Calls.Program.{IsTypedToml, TasksFit, run-Fits}
use rust_tcpao_proxy.Tcpao.Bytes.{AreBytes, IsText}
use rust_tcpao_proxy.Tcpao.Bounds.{is_text_lem}
use rust_tcpao_proxy.Samples
use rust_tcpao_proxy.Samples.{system, local, exact, any_port, other}

secret-AreBytes : AreBytes (codes "secret")
secret-AreBytes = omega arith

secret-IsText : IsText (codes "secret")
secret-IsText = is_text_lem (codes "secret") refl

some_text : (s u : Text) → ◌≡◌ (Option.some s) (Option.some u) → s ≡ u
some_text s u h = cc

system-IsTypedOs : IsTypedOs system
system-IsTypedOs = record {
  files = λ t path bs e. subst AreBytes (ok-eq e) secret-AreBytes;
  texts = λ t name s e. subst IsText (some_text (codes "secret") s e) secret-IsText;
}

alg-IsText : IsText (codes " HMAC-SHA-1 ")
alg-IsText = is_text_lem (codes " HMAC-SHA-1 ") refl

exact-IsTypedPolicy : IsTypedPolicy exact
exact-IsTypedPolicy = record {
  peer_ip = (refl, omega arith);
  keyid = omega arith;
  mac_alg = alg-IsText;
}

any_port-IsTypedPolicy : IsTypedPolicy any_port
any_port-IsTypedPolicy = record {
  peer_ip = (refl, omega arith);
  keyid = omega arith;
  mac_alg = alg-IsText;
}

other-IsTypedPolicy : IsTypedPolicy other
other-IsTypedPolicy = record {
  peer_ip = (refl, omega arith);
  keyid = omega arith;
  mac_alg = alg-IsText;
}

abbrev parse : Text → Result Text Config
parse raw = ok Samples.config

parse-IsTypedToml : IsTypedToml parse
parse-IsTypedToml raw c e =
    subst (λ x. All IsTypedPolicy x.ao_policy) (ok-eq e)
      (any_port-IsTypedPolicy, (exact-IsTypedPolicy, (other-IsTypedPolicy, tt)))

abbrev cli : Cli
cli = record {
  mode = ModeArg.terminator;
  config = codes "proxy.toml";
  log_format = none;
  dry_run = false;
}

abbrev visit : Visit
visit = record {
  stream = 8;
  peer = Samples.remote;
  oracle = system;
  started = 0;
  arrivals = source_read (ok (codes "abc")) all 1 ∷ source_read (ok []) all 2 ∷ [];
}

abbrev incoming : List (Result IoError Visit)
incoming = ok visit ∷ err (os 24) ∷ []

run-Fits_example :
    All Fits (run system parse cli incoming []).1
    × ((r : Ran) → (run system parse cli incoming []).0 ≡ ok r → TasksFit r)
unfolding visits
run-Fits_example =
    run-Fits incoming system parse cli (system-IsTypedOs, tt) system-IsTypedOs parse-IsTypedToml
