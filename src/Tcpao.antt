-- ===== src/Tcpao.antt =====
-- src/tcpao/linux.rs (the Linux build): TCP-AO keys and their enforcement on sockets.
pub mod Mac
pub mod Storage
pub mod Sockopt
pub mod Key
pub mod Policies
pub mod Session
pub mod Silent
pub mod Armed
pub mod Applies
pub mod Inbound
pub mod Probe
pub mod Installed
pub mod Request
pub mod Agree
pub mod Bytes
pub mod Bounds
mod Tests
mod UnitTests
mod Stubs
