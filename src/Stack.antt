-- ===== src/Stack.antt =====
-- src/stack.rs: the addresses that a stack listens on. The strategies of the file stand in Routing.
pub mod Listen
mod Tests
