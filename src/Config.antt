-- ===== src/Config.antt =====
-- src/config.rs: the configuration, its checks, and where keys come from.
mod Types
mod Keys
mod Checks
pub mod Valid
pub mod Source
pub mod Accepts
mod Tests
mod UnitTests
mod Summary
unfoldable pub use Types.*
unfoldable pub use Keys.{kind_of, load_key_bytes, load}
unfoldable pub use Checks.{check_unique, check_key_sources, validate, Tuple, tuple_of}
