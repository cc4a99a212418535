-- ===== src/Config/Summary.antt =====
-- `Config::redacted_summary` of src/config.rs, the line that is logged of a configuration.
use rust_tcpao_proxy.Base.{◌≡◌, Bool, true, false, List, [], ◌∷◌, String, length, map, refl}
use rust_tcpao_proxy.Error.{Message, str, number, end}
use rust_tcpao_proxy.Config.Types.{LogFormat, text, json, Config, AoPolicyConfig}

-- `{:?}` of a `LogFormat`, and the text of a `bool`.
abbrev debug_format : LogFormat → String
debug_format text = "Text"
debug_format json = "Json"

abbrev bool_text : Bool → String
bool_text true = "true"
bool_text false = "false"

unfoldable redacted_summary : Config → Message
redacted_summary c = str "log_format=" (
    str (debug_format c.global.log_format) (
      str ", idle_timeout_secs=" (
        number c.global.idle_timeout_secs (
          str ", tcp_keepalive=" (
            str (bool_text c.global.tcp_keepalive)
              (str ", policies=" (number (length c.ao_policy) end)))))))

length-map : {A B : Type 0} (f : A → B) (xs : List A) → length (map f xs) ≡ length xs
length-map f [] = refl
length-map f (x ∷ xs) = rw (length-map f xs) refl

-- Whatever is done to the policies one by one, such as another key source, does not show.
redacted_summary-map :
    (c : Config) (f : AoPolicyConfig → AoPolicyConfig)
    → redacted_summary (record c { ao_policy = map f c.ao_policy }) ≡ redacted_summary c
unfolding redacted_summary
redacted_summary-map c f = rw (length-map f c.ao_policy) refl
