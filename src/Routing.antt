-- ===== src/Routing.antt =====
-- src/transport/routing_connection.rs with the strategies of src/stack.rs: which groups of peers a
-- configuration builds, and which of them a command goes to.
pub mod Strategy
pub mod Tree
pub mod Printed
pub mod Scan
pub mod Parsed
pub mod RoundTrip
pub mod Shorter
pub mod Termination
pub mod Peers
pub mod Manager
mod Tests
