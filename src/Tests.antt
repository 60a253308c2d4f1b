-- ===== src/Tests.antt =====
-- A server in memory that behaves as the hypotheses say, and runs of the theorems on it.
pub mod Engine
mod Keys
mod Slots
mod Agreement
mod Messages
mod Wire
mod Machine
mod Transport
mod Client
mod Serving
mod Crypto
mod Accept
