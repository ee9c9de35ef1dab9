-- ===== src/Tests.antt =====
-- Tests, and each theorem at a concrete input.
mod Consumer
mod Producer
mod Client
mod Drain
mod Derive
mod System
mod Answers
