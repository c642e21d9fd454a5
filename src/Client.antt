-- ===== src/Client.antt =====
-- client.rs and client/: what the client keeps of the ticks and messages it received.
pub mod ConfirmHistory
pub mod ServerMutateTicks
