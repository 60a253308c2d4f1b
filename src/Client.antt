-- ===== src/Client.antt =====
-- The client: ClientOP.cpp and MessageClient.cpp over its shared memory, its clock, its RSA key
-- files and a TcpSocket to the server.
pub mod Base
pub mod Keys
pub mod Messages
pub mod Menu
pub mod Rules
pub mod Agreement
pub mod Following
pub mod Verification
pub mod Sending
pub mod Encryption
