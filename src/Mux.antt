-- ===== src/Mux.antt =====
-- internal/mux: streams that carry requests and responses, over one connection.
pub mod Frame
pub mod Pipe
pub mod Stream
pub mod Server
pub mod Flow
mod EdgeExamples
mod Examples
pub mod Client
pub mod Dispatch
pub mod Requests
