-- ===== src/Lib.antt =====
-- A model of tcpao-proxy, a sidecar that carries a TCP session between two hosts under TCP-AO. The
-- initiator accepts plain connections and opens, for each, a connection to the wire on a socket that
-- carries a TCP-AO key and requires TCP-AO. The terminator listens on the wire with a key for each
-- policy, checks that an accepted connection requires TCP-AO, and opens a plain connection to the
-- application. Both then relay bytes until a stream ends, a timer fires or a call fails.
--
-- Files and the code they model (paths from the root of the repository):
--   Base      lists over native numbers, texts as code points, `Result`
--   Net       std's `IpAddr` and `SocketAddr`; Net/Parse: std's parser of socket addresses
--   Error     src/error.rs, and std's `io::Error` as far as the program looks at it
--   Os        the calls of the program on the system, as an oracle and a trace of calls
--   Config    src/config.rs: Types, Keys (`KeySource`), Checks (`Config::validate`), Summary
--             (`redacted_summary`)
--   Policy    src/tcpao/policy.rs: `select_policy`
--   Tcpao     src/tcpao/linux.rs: Mac (`normalize_mac_alg`), Storage
--             (`socket_addr_to_libc_storage`, `prefix_len_for_ip`), Sockopt (the wrappers of the
--             socket options, the switches of debug builds), Key (`install_key`), Policies
--             (`apply_outbound_policy`, `configure_listener`), Session
--             (`ensure_inbound_session_has_ao`, `probe_tcpao_support`), Stubs (the bodies for
--             systems other than Linux)
--   Keepalive `apply_keepalive` of src/mode_initiator.rs and its copy in src/mode_terminator.rs
--   Forward   src/forward.rs: `pump`, by whole rounds, and in Awaits by each of its awaits, with the
--             clock and with streams that take what is written to them bit by bit
--   Connection the accept loop, the task of a connection and its log line, which both modes share
--   Initiator src/mode_initiator.rs; Terminator: src/mode_terminator.rs; in both, Tasks is
--             `handle_connection` cut where it awaits
--   Process   the loop of `run` and the tasks that it spawns, as a step relation
--   Tunnel    an initiator's and a terminator's `pump` one behind the other, as a step relation:
--             Hop (one direction of one `pump`), Lane (one direction of both), Pipe (what a
--             direction is to be), Stuck, Deadlock and Locks (both in a write to the other, over
--             a connection of limited room)
--   Pairing   the connected socket of an initiator and the listener of a terminator
--   Calls     the arguments of the system calls that all of these make, against their C types
--   Metrics   src/metrics.rs
--   Main      cmd/tcpao-proxy/main.rs: from the command line to the exit status, with the whole mode
--             between, `run` of src/mode_initiator.rs or src/mode_terminator.rs
--   Samples   data for the tests, which stand in a module Tests below each part; UnitTests are the
--             unit tests of src/config.rs, src/tcpao/policy.rs and src/tcpao/linux.rs, with
--             Asserts
-- Theorems about a part stand in modules below it, named for what they are about.
--
-- State and errors. An action takes the trace of the calls made so far, the newest first, and gives
-- a `Result` and the longer trace; `?` and `map_err` are the bind and the mapping of errors. `Os`
-- answers each call from the trace before it, so a theorem over every `Os` holds whatever the kernel,
-- the files and the environment answer, at any time. A release build is an `Os` without debug
-- assertions. The messages of errors are kept as what they are composed of.
--
-- Loops. `pump` takes the list of what `tokio::select!` waited for in each round: a read with its
-- outcome and that of the write behind it, or the timer; with the list used up it is still waiting.
-- A connection's task is its set-up followed by the loop. The accept loop takes the outcomes of
-- `accept`, each with what the task of that connection meets, a `Visit`. Both recurse on the list, so there is no fuel. Times are in nanoseconds.
--
-- Orderings. The tasks run in parallel, on several threads. A step of Process is an accepted
-- connection, a failed `accept`, or one task run from one point where it awaits to the next (before
-- `connect`, after it, and each round of `pump`, which waits for a write behind its read), in any
-- order. A task acts on its own sockets only, so its calls are kept apart from those of others and
-- answered by a system of its own: what the kernel says to one task may depend on all the others in
-- any way. A step of Tunnel is a write or a close at either end, or a
-- wake-up of either `pump` at one of its awaits; a connection takes what is written to it bit by bit, so
-- that both loops may be in a write that does not end, and gives its reader the bytes that were written
-- to it, in order, the end once its writer is done, or an error.
--
-- Integers are native numbers; what the code stores in a fixed width is reduced where it is stored:
-- the byte counters, `CONN_ID` and the metrics modulo 2 ^ 64, `v as i32` modulo 2 ^ 32, and the length
-- of a key modulo 2 ^ 8. Octets and ports of addresses are numbers in their range.
--
-- Not modelled: the text of the log but the line at the end of a connection and the summary of
-- the configuration; the parsers of the crates clap and toml, which their macros generate (what
-- clap makes of the command line is a value, the parser of the file an argument); how `write_all` of
-- tokio writes (it is taken by what it documents: it returns once the stream has taken all bytes, or
-- with an error); what the client and the application read from their connections; that the tasks
-- end early when `main` returns by a failure of `accept` (Process has that); the modes in a build for
-- another system;
-- when descriptors are closed by dropping their owners; the 16 KiB size of the read buffers but
-- in Tunnel; the scripts, images and deployment files.
pub mod Asserts
pub mod Base
pub mod Net
pub mod Error
pub mod Os
pub mod Calls
pub mod Config
pub mod Pairing
pub mod Policy
pub mod Tcpao
pub mod Keepalive
pub mod Forward
pub mod Connection
pub mod Initiator
pub mod Terminator
pub mod Tunnel
pub mod Process
pub mod Metrics
pub mod Main
pub mod Samples
