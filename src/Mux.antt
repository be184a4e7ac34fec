-- ===== src/Mux.antt =====
-- src/chute/mux.py: many byte streams over one WebSocket connection. `Limits` and `Stream` are
-- the parts of one stream, `State` the shared object, the next five its operations, `Events` the
-- event loop that interleaves them.
pub mod Limits
pub mod Log
pub mod Stream
pub mod State
pub mod Teardown
pub mod Receive
pub mod Transmit
pub mod Lifecycle
pub mod Dispatch
pub mod Events
pub mod Buffers
pub mod Flow
