-- ===== src/Producer.antt =====
-- The producer that the `api` macro generates (zzrpc-derive/src/lib.rs, `impl_produce`).
pub mod Task
pub mod Forwarder
pub mod Loop
pub mod Config
pub mod Aborters
pub mod Requests
pub mod Flight
