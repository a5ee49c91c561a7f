-- ===== src/Transport.antt =====
-- src/transport: identifiers, maps of pending requests, connections and their selection.
pub mod IdGenerator
pub mod HopByHop
pub mod Redirect
pub mod Balance
pub mod Underlying
pub mod ConnectionManager
pub mod Answers
pub mod Requests
pub mod Processor
pub mod Selection
pub mod Handler
pub mod Tcp
mod Tests
