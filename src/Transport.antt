-- ===== src/Transport.antt =====
-- Package transport: frames on the wire (transport/frame.go) and the owner loop of a connection
-- (transport/connection.go).
pub mod Frame
pub mod Connection
