-- ===== src/Lib.antt =====
-- Omnipresent: several machines that share one keyboard and mouse. Each runs a daemon that captures
-- local input, follows the cursor over a desktop made of all the screens, and sends the input to the
-- machine that the cursor is on.
--
-- The parts, and the files that model them (paths from the repository's root):
--   * Protocol, Protocol/*: crates/omni-protocol/src. Identifiers are their numbers, a fingerprint
--     the list of its bytes, a text the list of its bytes. Protocol/Remap is `ModifierSwap`,
--     Protocol/Clipboard the payloads and their validation for a 64-bit `usize`.
--   * Topology, Topology/*: crates/omni-topology/src. Geometry has `scale_axis` and `scale_delta`,
--     Layout has `VirtualLayout` with `add_machine`, `link`, `neighbor` and `advance`; a `HashMap` is
--     an association list. Store is the in-memory layout store.
--   * Session, Session/*: crates/omni-session/src, `SessionManager` with the recording event sink of
--     events.rs. Session/Replay reads a manager's sessions back from its events.
--   * Security, Security/*: crates/omni-security/src. Policy is `AllowList` and `evaluate`, Authority
--     is `TrustAuthority` over any store that keeps the documented promises of `TrustStore`, Memory
--     the in-memory store, History the calls of the authority over it.
--   * Clipboard, Clipboard/*: crates/omni-clipboard/src/service.rs. The clipboard of the operating
--     system is a parameter, `Port`.
--   * Input, Input/*: crates/omni-input/src. Scroll is scroll.rs, Keymap/* the three keymap.rs,
--     Linux, Linux/* the conversion and injection of events in linux/mod.rs, Bounds the desktop of
--     port.rs. Windows, Windows/* are windows/: Sink injects with `SendInput` and repairs the modifier
--     keys, Source is what its statics keep, Source/Hooks the keyboard hook and the mouse hook. Macos
--     is macos/convert.rs with the conversion of source.rs, Macos/Sink the injection of sink.rs.
--   * Runtime/Trust, Runtime/Trust/*: crates/omni-runtime/src/trust.rs. Writing the file to disk is a
--     parameter. Runtime/Identity: crates/omni-runtime/src/identity.rs, the two files of this machine's
--     certificate and key. Runtime/Config, Runtime/Config/*: crates/omni-runtime/src/config.rs, and
--     how the settings of daemon.rs are kept in its file.
--   * Runtime/Daemon, Runtime/Daemon/*: crates/omni-runtime/src/daemon.rs. The state is `State` with
--     the parts of `Shared` that change. Routing is capture, route and send; Handover is what a
--     peer's messages and the end of its session do; Links is how a session begins and how a peer is
--     placed and relabelled; Batches is `coalesce_motion`; Control is about who has the input after
--     a hand-over, Told about the messages that go with one; History strings these together in any
--     order.
--     Incoming is `handle_incoming` in three steps and `decide_pending`, Dialing is `do_connect` and
--     `resolve_host`, Listing the status lists with the types of ipc.rs, Commands is `dispatch` and
--     `handle_client`, Sending what the task of a peer sends, Peer the loop of `run_peer` over the
--     arms of its `select!`, Copying the broadcast of a copied payload. Channels and the sink are
--     lists of what was put into them.
--   * Runtime/Together, Runtime/Together/*: two of these daemons, each hearing in `run_peer` what the
--     other was told to send.
--   * Protocol/Wire: crates/omni-protocol/src/wire.rs, the messages. Transport, Transport/*:
--     crates/omni-transport/src. Frames is the framing of quic.rs over the bytes of a stream, Loopback
--     is `Transport` over any channel and over the one of channel.rs, Tls the checks of tls.rs.
--   * Client, Cli, Cli/*: crates/omni-cli/src. Client is the exchange of one request that the command
--     line and the window share, Cli the commands with their exit codes, Cli/Update is update.rs.
--   * App, App/*: omni/src-tauri/src. Supervisor is daemon.rs, Ipc and Notices are ipc.rs, Tray is
--     tray.rs. The world of a client is a function from its request to what comes of it.
--   * Prelude, Prelude/*: tests, maps, integers, machine words, texts, and results that may panic.
--   * Examples, Examples/*: the theorems at concrete inputs.
--
-- How they interact: the daemon moves its cursor with `advance` of the topology, reports a crossing
-- to the sessions with `handle_crossing`, and puts a `PeerCommand` into the channel of the peer's
-- task. It rebuilds the layout from its links whenever a session comes or goes. The command line and
-- the window reach the daemon through `exchange`, and their answers are those of `dispatch`.
--
-- Numbers: a signed integer is `ℤ`, and a cast between widths is written out (`as_i32`, `as_u32`).
-- A sum of two `i32`s that the source makes in `i64` is exact. Every loop of the source is over a
-- list, so all functions are structural. Only `recv_all`, which reads a stream to its end, takes fuel:
-- one unit for each message and one for the end, which its theorem shows to be enough.
--
-- A handler of the daemon changes the state under one lock, so it is one step here. What happens
-- between two steps (a task that has not run yet, a message under way) is a later step of the
-- sequence.
--
-- Not modelled: the connections and the configuration of QUIC and TLS and the encoding of messages,
-- which external libraries make; the system calls of capture and injection; the floating-point
-- positions of macOS; what the command line prints, starts and downloads; the windows of the desktop
-- application and its TypeScript; the JSON of IPC and the event stream of a subscription on the
-- daemon's side; where files are kept; log messages; the timers other than the deadline of a session;
-- and the rate limiter, which counts in floating point.
pub mod Prelude
pub mod Protocol
pub mod Topology
pub mod Session
pub mod Security
pub mod Input
pub mod Clipboard
pub mod Transport
pub mod Runtime
pub mod Client
pub mod Cli
pub mod App
pub mod Examples
