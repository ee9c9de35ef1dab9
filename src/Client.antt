-- ===== src/Client.antt =====
-- zzrpc/src/consumer: the futures and streams that the methods of a consumer return.
pub mod Sending
pub mod Channels
pub mod Aborter
pub mod Value
pub mod Stream
pub mod Aborting
pub mod Futures
