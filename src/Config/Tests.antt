-- ===== src/Config/Tests.antt =====
-- The configuration's checks and the key sources on concrete values.
use rust_tcpao_proxy.Base.{◌≡◌, ◌↔◌, ◌≢◌, refl, [], ◌∷◌, codes, ok, list_eq, none}
use rust_tcpao_proxy.Net.{ip_eq, port_eq}
use rust_tcpao_proxy.Config.{
  Mode, validate, Config, KeySource, KeySourceKind, env, file, kind_of, load_key_bytes,
}
use rust_tcpao_proxy.Config.Valid.{IsValid, validate_iff}
use rust_tcpao_proxy.Config.Source.{Names, Stored, kind_of_iff, load_key_bytes_iff}
use rust_tcpao_proxy.Samples
use rust_tcpao_proxy.Samples.{system, exact, any_port}

abbrev twice : Config
twice = record Samples.config { ao_policy = exact ∷ any_port ∷ exact ∷ [] }

refuses_twice : (validate twice Mode.initiator ≡ ok tt) → ⊥
unfolding validate list_eq ip_eq port_eq
refuses_twice h = cc

refuses_no_section :
    (validate (record Samples.config { terminator = none }) Mode.terminator ≡ ok tt) → ⊥
unfolding validate
refuses_no_section h = cc

reads_file : kind_of (record { source = codes "file:/run/key" }) ≡ ok (file (codes "/run/key"))
unfolding kind_of
reads_file = refl

abbrev padded : KeySource
padded = record { source = codes "env: KEY" }

validate_iff_example :
    (validate Samples.config Mode.terminator ≡ ok tt) ↔ IsValid Samples.config Mode.terminator
validate_iff_example = validate_iff Samples.config Mode.terminator

kind_of_run :
    (kind_of padded ≡ ok (env (codes "KEY"))) ↔ Names (env (codes "KEY")) (codes "env: KEY")
kind_of_run = kind_of_iff padded (env (codes "KEY"))

load_key_bytes_iff_example : ((load_key_bytes system padded []).0 ≡ ok (codes "secret")) ↔ (
    (r : KeySourceKind) × Names r (codes "env: KEY")
    × Stored system [] r (codes "secret")
    × (codes "secret" ≢ []))
load_key_bytes_iff_example = load_key_bytes_iff system [] padded (codes "secret")
