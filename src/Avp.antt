-- ===== src/Avp.antt =====
-- src/avp.rs: the attribute-value pairs of a Diameter message.
pub mod Codes
pub mod ResultCodes
pub mod Defs
pub mod Codec
pub mod Wire
pub mod Lengths
pub mod RoundTrip
pub mod Bounds
pub mod Grouped
pub mod Termination
pub mod Scalars
pub mod Dictionary
pub mod Json
mod Tests
