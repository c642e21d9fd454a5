-- ===== src/Backend.antt =====
-- core/channels.rs, core/replicon_server.rs and core/replicon_client.rs: what the library and a
-- messaging backend exchange.
pub mod Channels
pub mod Queues
pub mod Server
pub mod Client
mod Examples
