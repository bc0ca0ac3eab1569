-- ===== src/Lib.antt =====
-- A model of server-anytls, a server (and client library) of the AnyTLS protocol in Go: many
-- streams share one TLS connection, records are padded after a scheme, users come from a panel and
-- their traffic is reported to it.
--
-- The parts of the program and the files that model them:
--
--   Wire          internal/pkg/proxy/session/frame.go: the commands, `frame`, the header's bytes.
--   StringMap     internal/pkg/util/string_map.go: `ToBytes`, `StringMapFromBytes`.
--   Number        `strconv.Atoi`, `ParseInt` and integers of 64 bits, as padding.go uses them.
--   Padding       internal/pkg/proxy/padding/padding.go: `NewPaddingFactory`,
--                 `UpdatePaddingScheme`, `AppendRecordPayloadSizes`.
--   Deadline      internal/pkg/proxy/pipe/deadline.go: `PipeDeadline` as a timer and a channel.
--   Pipe          internal/pkg/proxy/pipe/io_pipe.go: the buffer between the receive loop and the
--                 reader of a stream; Pipe/Wakeups has a reader and a writer that run at
--                 the same time, Pipe/Wakeups/Kept their wake-ups, Pipe/Wakeups/Ordered
--                 what their calls report.
--   Session       internal/pkg/proxy/session/session.go and stream.go. Session/State is the state,
--                 Session/Send is `writeConnLocked` and its callers, Session/Streams closes and
--                 frames, Session/Calls is `Run`, `OpenStream` and the methods of a stream, and
--                 Session/Recv is `recvLoop`. Session/Traffic and Session/Framing say what a byte
--                 stream of frames is, for both directions; Session/Delivery and
--                 Session/EndToEnd follow data from a sender to the pipe of the receiver's
--                 stream; Session/Closed is about `Close`, Session/Hooked about the
--                 hook of a session (with Session/Hooked/Commands and Session/Hooked/Loop for
--                 the receive loop), Session/Deadlines about the write deadline of a stream.
--   Client        internal/pkg/proxy/session/client.go: the pool of a client's sessions, what it
--                 hands out (Client/Leases), what its clean-up closes (Client/Cleanup), its end
--                 (Client/Closed).
--   Service       internal/pkg/service/users.go: Service/Users has the users, the connections and
--                 `FetchUsersTask` (Service/Users/Synced is about who may connect after it,
--                 Service/Users/Evicted and Service/Users/Missed about the connections),
--                 Service/Traffic the counters and `ReportTrafficsTask`.
--   Inbound       internal/app/server/inbound_tcp.go: the handshake of a connection, what it
--                 counts, and `CountedConn`; Inbound/Admission is about the handshake,
--                 Inbound/Accounts about what it leaves with Service, Inbound/Lifetime follows
--                 it to the end of its session, and Inbound/Handler has what runs for each stream.
--   Outbound      internal/app/server/outbound.go, utils.go, model.go: `buildOutbound` and the
--                 settings of outbounds (Outbound/Direct and Outbound/Valid say which are taken,
--                 Outbound/Built what the router gets). Outbound/Address has `parseAddr` of
--                 outbound_adapter.go, Outbound/Proxy the functions of outbound_tcp.go.
--   Path          `path/filepath` on Unix, as server.go and state.go use it.
--   StateFile     internal/app/server/state.go: `LoadState`, `SaveState`, `ClearState` over a disk
--                 whose calls may fail.
--   Server        internal/app/server/server.go: Server/Register is `Start` up to the register id,
--                 Server/Start the rest up to the accept loops, Server/Stop is `Close` and the
--                 accept loops. Server/Registered and Server/Restarted are about the id,
--                 Server/Running about a server that runs, Server/Stopped, Server/Ended and
--                 Server/Raced about `Close` at its various moments.
--   Main          cmd/server/main.go: the flags, `forceRefreshGeoData`, the action around `Start`.
--   Watcher       internal/pkg/util/deadline.go: the deadline watcher as a step relation.
--   Routine       internal/pkg/util/routine.go: a periodic task.
--   Prelude       lists, results and Go maps; Env has what comes from outside: MD5, random draws,
--                 the order of `range` over a map, one environment variable.
--
-- How they interact: a connection is admitted by Inbound against the users of Service and gets a
-- server session; its receive loop reads frames and writes payloads into the pipes of its streams, and the
-- end of the loop runs the hook that takes the registration back;
-- streams write data frames through the session, which pads them with a factory of Padding; what
-- the connection reads and writes is added to the user's item in Service/Traffic. The handler of a
-- stream dials through the router of Outbound and reports the result through the session. Main
-- starts the Server, which registers the node under an id that it keeps in the StateFile, builds the
-- router, takes the panel's padding scheme and starts the user service.
--
-- Modelling choices. An operation is a function from a state to a state and a result; a Go error is
-- a value of `Error`, and a panic is a result of its own. A goroutine that blocks is an outcome
-- (`read_waits`, `write_waits`, `stalls`). Locks are left out: each operation runs on its own, and
-- histories of operations are lists (Pipe/History, Service/Traffic/History). Numbers of a fixed
-- width keep their wrap-around as `% 2 ^ w`. A Go map is an association list in the order in which
-- `range` would visit it. A connection's writes follow a plan, `fate`, that says which of them
-- fail; its input is the bytes that the peer sends before the end. Scratch buffers that are only
-- reused storage are left out.
--
-- Fuel: `write_loop` of Pipe gets three rounds, as the second one completes the write or finds the
-- buffer full; `write_chunks` gets as many rounds as there are bytes, since each takes at least one;
-- `recv_rounds` gets one round more than there are bytes, since each takes a header.
--
-- Parameters that stand for code outside the repository: `read_bytes` of Inbound, the buffer of the
-- sing library, which takes the front or fails (`TakesFront`); `others` of Inbound/Lifetime, what other
-- goroutines do to the users and their traffic while a session runs; `hash` of Service/Users, the SHA-256
-- text of a UUID, free of collisions where a theorem says so (`IsCollisionFree`); `submit` of
-- Service/Traffic, the panel's answer; `SkipList` of Client, the ordered map of the stl4go library,
-- with its laws (`IsSkipList`); `Engine` and `Router` of Outbound, the acl-engine library, and
-- `Relay` and `Dialogue`, the functions of sing that copy between connections, which leave a stream
-- in its session where a theorem says so (`KeepsPlaces`); `Codec` of StateFile, JSON, with its round
-- trip; `Outside` of Server, the answers of the panel, of viper and of the system; `GeoLoader` of
-- Main.
--
-- Not modelled: certificates and the dialer, which are calls of the standard library and of the
-- operating system; the parsing of the command line and of the panel's answers by their libraries;
-- the copying between connections. Numbers and types that are printed into error texts are left out
-- of the texts.
mod Prelude
pub mod Env
pub mod Wire
pub mod StringMap
pub mod Number
pub mod Padding
pub mod Deadline
pub mod Pipe
pub mod Session
pub mod Client
pub mod Service
pub mod Path
pub mod StateFile
pub mod Outbound
pub mod Server
pub mod Main
pub mod Watcher
pub mod Routine
pub mod Inbound
pub mod Tests
