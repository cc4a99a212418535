-- ===== src/Config/Accepts.antt =====
-- `Config::validate` of src/config.rs on the configuration of the samples.
use rust_tcpao_proxy.Base.{◌≡◌, refl, list_eq, ok}
use rust_tcpao_proxy.Config.{Mode, validate}
use rust_tcpao_proxy.Config.Valid.{IsValid, validate_iff}
use rust_tcpao_proxy.Net.{ip_eq, port_eq}
use rust_tcpao_proxy.Samples.{config}

accepts : validate config Mode.initiator ≡ ok tt
unfolding validate list_eq ip_eq port_eq
accepts = refl

pub config-IsValid : IsValid config Mode.initiator
config-IsValid = (validate_iff config Mode.initiator).0 accepts
