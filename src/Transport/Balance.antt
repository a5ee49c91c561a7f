-- ===== src/Transport/Balance.antt =====
-- src/transport/connection_list.rs, failover_connect.rs and roundrobin_connection.rs: the peers of
-- a group and the order in which a command is tried on them. A connection is a value of any type
-- `A`; `accepts` stands for the `send` of the connection, whose code belongs to the transports.
pub mod Rotation
pub mod FailOver
pub mod Iterator
pub mod RoundRobin
