-- ===== src/Asserts.antt =====
-- The assertions of the unit tests in src/config.rs and src/tcpao/linux.rs, as Booleans.
use rust_tcpao_proxy.Base.{
  Bool, true, false, ◌||◌, Option, none, some, [], ◌∷◌, Text, codes, strip_prefix, Result, ok, err,
}
use rust_tcpao_proxy.Error.{
  IoError, os, custom, Message, end, str, text, number, optional_port, ip, addr, show_io,
  show_proxy, ErrorKind, not_found, permission_denied, invalid_input, unsupported, other,
}

abbrev pub is_ok : {E A : Type 0} → Result E A → Bool
is_ok (ok a) = true
is_ok (err e) = false

abbrev pub is_err : {E A : Type 0} → Result E A → Bool
is_err (ok a) = false
is_err (err e) = true

-- `str::contains`.
abbrev begins : Option Text → Bool
begins none = false
begins (some rest) = true

unfoldable contains : Text → Text → Bool
unfolding strip_prefix
contains [] p = begins (strip_prefix [] p)
contains (c ∷ s) p = begins (strip_prefix (c ∷ s) p) || contains s p

-- The same of a message, if one of its fixed pieces has the text.
unfoldable pub says : Text → Message → Bool
unfolding contains
says p end = false
says p (str s m) = contains (codes s) p || says p m
says p (text s m) = says p m
says p (number n m) = says p m
says p (optional_port q m) = says p m
says p (ip a m) = says p m
says p (addr a m) = says p m
says p (show_io e m) = says p m
says p (show_proxy e m) = says p m

abbrev pub is_permission_denied : ErrorKind → Bool
is_permission_denied not_found = false
is_permission_denied permission_denied = true
is_permission_denied invalid_input = false
is_permission_denied unsupported = false
is_permission_denied (other n) = false

-- The text of an `io::Error` that was made with a message.
unfoldable pub io_says : Text → IoError → Bool
unfolding says
io_says p (os code) = false
io_says p (custom k m) = says p m
