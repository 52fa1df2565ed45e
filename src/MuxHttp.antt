-- ===== src/MuxHttp.antt =====
-- internal/mux_http: the HTTP-and-push multiplexer.
pub mod Buffer
pub mod Frame
pub mod Receive
pub mod Nodes
pub mod Registry
pub mod Subscriptions
mod Examples
mod ServerExamples
pub mod Messages
pub mod Sender
pub mod Client
pub mod Delivery
pub mod Session
pub mod Requests
pub mod Broker
pub mod Registration
