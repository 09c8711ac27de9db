-- ===== src/Lib.antt =====
-- The session daemon of forgetty, a terminal that keeps its shells alive while its windows come and
-- go.
--
-- The daemon owns the session: workspaces of tabs, tabs of pane trees, and a registry of panes,
-- each with a pseudo-terminal. Clients call its session manager through a socket, and are sent
-- events. The output of each pane goes into a byte log, a ring in memory with a file on disk, from
-- which a client that attaches is replayed. The layout is saved to a session file, and rebuilt from
-- it at a cold start.
--
-- Files, and the code that they model, with its names:
--   Session/State      crates/forgetty-session/src/{layout,pane,pty_bridge,events}.rs and the struct
--                      SessionManagerInner of manager.rs. Every method locks it once, so an operation
--                      is a function from a state to a state and a result. What the operating system,
--                      the clock and the random numbers answer during a call is a record, Env.
--   Session/Registry   manager.rs: panes entering and leaving the registry, byte logs, drain tasks.
--   Session/Workspaces, Session/Duplicate, Session/Tabs, Session/Panes
--                      manager.rs: the operations of the same names.
--   Session/Tree       the PaneTreeLayout of workspace.rs and the tree helpers of manager.rs.
--   Session/Output     manager.rs: process_pane_bytes, the drain task, subscriptions, signals.
--   Session/Snapshot   workspace.rs and the snapshots of manager.rs.
--   Session/ByteLog    byte_log.rs, with its disk appender task in Session/ByteLog/Disk, where a write
--                      may fail after any number of bytes.
--   Session/Placement  manager.rs: where a split changes the layout, apart from the search for it.
--   Session/Run        the public methods as commands, a step relation and the states they reach.
--   Workspace          crates/forgetty-workspace/src/workspace.rs: what a session file holds.
--   Workspace/Store    crates/forgetty-workspace/src/persistence.rs: the session files in sessions/,
--                      active/ and trash/, and the moves between them.
--   Workspace/Migration, Workspace/Logs
--                      persistence.rs: the migration to these directories, and the pruning of byte
--                      logs by a daemon that starts.
--   Workspace/Startup  crates/forgetty-gtk/src/app.rs and src/main.rs: what a window does with the
--                      session files at its start.
--   Daemon             src/daemon.rs: the cold-start restore.
--   Daemon/Saving      src/daemon.rs: the tasks that save the session, and the exit by a signal.
--   Socket/Framing     crates/forgetty-socket/src/framing.rs: the frames of the output stream.
--   Socket/Protocol    crates/forgetty-socket/src/protocol.rs, on the JSON values of Socket/Json.
--   Socket/Handlers    crates/forgetty-socket/src/handlers.rs: a handler of each method, from a request
--                      and the manager's state to a response and the state after it.
--   Socket/Dispatch    handlers.rs: dispatch. Its child Calls says which call of the manager a method
--                      is for, Served that the handlers make it, and Files which session file is
--                      written.
--   Socket/Server      crates/forgetty-socket/src/server.rs: a connection, line by line, and the exit of the
--                      daemon.
--   Socket/Stream, Socket/Layout
--                      server.rs: the streams of a pane's output and of the layout, with the loops of
--                      crates/forgetty-gtk/src/daemon_client.rs that read them in their Client files.
--   Sync/Endpoint      crates/forgetty-sync/src/endpoint.rs: the pairing window.
--   Sync/Registry, Sync/Calendar
--                      crates/forgetty-sync/src/registry.rs: the paired devices, in memory and on disk,
--                      and the calendar of their timestamps.
--   Sync/Pairing       crates/forgetty-sync/src/pairing.rs: the decision on a connection.
--   Watcher            crates/forgetty-watcher/src/watcher.rs: the polls of the file watchers, on the
--                      events of the library notify.
--   Vt/Selection       crates/forgetty-vt/src/selection.rs: which cells a selection has.
-- Session/Invariant says when a state is well formed; its children, and the other files beside it,
-- are about single operations. Base has the shared lists, maps and sums, and the Tests folders run
-- the code on concrete sessions.
--
-- Representation. A UUID is a number, a path is a text (in the watchers a number and parts of its
-- name), a HashMap is an association list, and an f32 is its bit pattern. The broadcast channel is
-- the list of events sent so far, and requests to the operating system whose failure is only logged
-- are a list as well. What a handler is told by the libraries and the operating system is a record,
-- Host, and an error message is kept as its parts. A directory is an association list of its session
-- files, and how the steps of a file operation end is an argument. A 64-bit counter stops at
-- 2^64 - 1 where the source saturates. Loops recurse on lists and trees; the loop over the years of the calendar has fuel, the number of days, which
-- is enough as every round takes a year's days off; so has the loop that reads frames, one more than
-- the bytes of the stream, which is enough as every round takes a header off.
--
-- Assumptions stand in the statements: that random ids are new to the session, that a process can
-- be spawned where a success is claimed, that the processes run while output is followed, and that
-- the byte counts of a log fit 64 bits.
--
-- Not modelled: how the socket's server accepts connections, the GTK client but for the start of a
-- window and the reading of its streams, the VT library and the text of a selection, the network
-- code, the configuration, and the text of the JSON files. A write to a client succeeds, a
-- set_pinned whose write fails leaves the session file as it was, and what the runtime buffers below the
-- writer of a byte log is not told apart from the file. The calls
-- that one handler makes on the manager, the phases of duplicate_workspace, a method with the drain
-- task that it spawns, and the check and the change of a pairing connection run without another
-- call between them. A receiver that lags by more than the capacity of the channel loses events,
-- which is left out too.
pub mod Base
pub mod Workspace
pub mod Session
pub mod Daemon
pub mod Socket
pub mod Sync
pub mod Watcher
pub mod Vt
