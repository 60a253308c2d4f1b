-- ===== src/MessageService.antt =====
-- MessageService.cpp: the requests to send a message. The parts of the handler follow its steps.
pub mod Keys
pub mod Cipher
pub mod Handler
pub mod Calls
pub mod ActiveKey
pub mod Sending
pub mod Reencryption
pub mod Readable
pub mod Forwarding
