-- ===== src/Session.antt =====
-- internal/pkg/proxy/session: a session multiplexes streams over one connection. `State` holds its
-- state, `Send` the way out to the connection, `Streams` the operations, `Recv` the receive loop.
pub mod State
pub mod Send
pub mod Streams
pub mod Closed
pub mod Calls
pub mod Recv
pub mod Traffic
pub mod Framing
pub mod Delivery
pub mod EndToEnd
pub mod Deadlines
pub mod Found
pub mod Hooked
