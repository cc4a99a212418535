-- ===== src/Tcpao/Mac.antt =====
-- `normalize_mac_alg`: the kernel's name of a MAC algorithm and the length of its tag.
pub mod Stable
use rust_tcpao_proxy.Base.{
  ℕ, Bool, false, ◌||◌, List, [], ◌∷◌, Text, codes, Result, ok, err, list_eq, is_empty, trim,
  to_ascii_lowercase, if◌then◌else◌,
}
use rust_tcpao_proxy.Error.{IoError, custom, invalid_input, str, end}

unfoldable pub one_of : Text → List Text → Bool
unfolding list_eq
one_of s [] = false
one_of s (n ∷ ns) = list_eq s n || one_of s ns

abbrev pub sha1_names : List Text
sha1_names = codes "hmac-sha1" ∷ codes "hmac-sha-1" ∷ codes "hmac(sha1)" ∷ []

abbrev pub sha256_names : List Text
sha256_names = codes "hmac-sha256" ∷ codes "hmac-sha-256" ∷ codes "hmac(sha256)" ∷ []

abbrev pub cmac_names : List Text
cmac_names = codes "cmac-aes" ∷ codes "cmac-aes-128" ∷ codes "cmac(aes)" ∷ []

-- The `match` on the name in lower case; any other name is passed on as it was written.
unfoldable pub map_alg : Text → Text → Text × ℕ
unfolding one_of
map_alg trimmed lower =
    if one_of lower sha1_names
    then (codes "hmac(sha1)", 12)
    else if one_of lower sha256_names
    then (codes "hmac(sha256)", 16)
    else if one_of lower cmac_names
    then (codes "cmac(aes)", 12)
    else (trimmed, 12)

unfoldable pub normalize_mac_alg : Text → Result IoError (Text × ℕ)
unfolding map_alg is_empty trim to_ascii_lowercase
normalize_mac_alg value =
    let trimmed = trim value in
    if is_empty trimmed
    then err (custom invalid_input (str "mac_alg must not be empty" end))
    else ok (map_alg trimmed (to_ascii_lowercase trimmed))
