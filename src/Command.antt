-- ===== src/Command.antt =====
-- src/command.rs: the commands of the Diameter protocol.
pub mod Flags
pub mod Defs
pub mod Codec
pub mod RoundTrip
pub mod Framing
pub mod Stream
pub mod Termination
pub mod Fields
pub mod Response
pub mod Routes
pub mod Dictionary
pub mod Json
mod Tests
