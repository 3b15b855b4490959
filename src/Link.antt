-- ===== src/Link.antt =====
-- The encrypted links between nodes: the protocol, the connection, and the sockets' two ends.
pub mod Protocol
pub mod Transmitter
pub mod Receiver
pub mod Connection
pub mod Conversation
pub mod Session
