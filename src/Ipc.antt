-- ===== src/Ipc.antt =====
-- domains/ipc: the socket server, the JSON codec, the command dispatcher and the service.
pub mod Server
pub mod Samples
pub mod Service
pub mod Codec
pub mod Dispatcher
mod Examples
