-- ===== src/Lib.antt =====
-- A verification library of rest-diameter-bridge, a Diameter (RFC 6733) stack with an HTTP front.
--
-- The program reads the bytes of its peers into commands, which are a header and a list of
-- attribute-value pairs (AVPs), gives the requests that it forwards identifiers of its own,
-- chooses the connections to send them on, and brings the answers back to their requests. The
-- library follows that path.
--
-- Avp models src/avp.rs. Avp/Codes and Avp/ResultCodes hold its numeric enums, Avp/Defs the struct
-- `Avp` with its constructors and scalar views, Avp/Codec `encode`, `decode`, `as_grouped` and the
-- lengths, Avp/Dictionary `AvpType`, `AvpJson`, `AvpMap` and, in Standard, the standard table,
-- Avp/Json `avp_to_name_value` and, in Read, `name_value_to_avp`; the other modules of Json are proofs,
-- and Plain the codecs and the dictionary of the tests.
-- Wire, Lengths, RoundTrip, Bounds, Grouped, Termination and Scalars are proofs about them.
-- Command models src/command.rs: Command/Flags `CommandFlags`, Command/Defs the struct `Command` with
-- its AVPs found by code, Command/Codec `encode`, `decode` and `CommandBuffer`. A definition has
-- the name of its Rust function; `Command::encode` and `Command::decode` are encode_command and
-- decode_command, and the methods of `CommandBuffer` are named for the buffer where a word needs it.
-- Command/Dictionary models `CommandJson` and `CommandMap`, with the standard table in Standard and
-- `sort_avps` in Sort, with its proof in Sort/Names, and Command/Json `from_json_value` and `to_json`; Dictionary/Laws and Override and
-- the modules of Json are proofs.
-- Framing, Stream, RoundTrip, Termination, Fields, Response and Routes are proofs about them.
-- Transport models parts of src/transport: IdGenerator (id_generator.rs), HopByHop
-- (hop_by_hop_id_mapper.rs), Redirect (redirect_host_manager.rs), Answers (answer_manager.rs),
-- Balance (connection_list.rs, failover_connect.rs, roundrobin_connection.rs), ConnectionManager and
-- Requests and Selection (the registry, the sending loops and the choice of connections of
-- connection_manager.rs), Underlying (connection.rs),
-- Processor (command_processor.rs, over the registry, the mapper and the answer manager), Handler
-- (command_handler.rs, which the processor asks for the answers of this node) and Tcp
-- (the two ends of a connection in tcp_transport.rs, which pass the commands that are not their own
-- to the processor). Processor/Pending and Processor/Interleaving follow a request and its answer
-- through the steps of other tasks, Tcp/Handling the turns of
-- `handle_connection` of the client, and Tcp/Phases the loop of its `start`.
-- Routing models the routes of a configuration: Routing/Strategy `LoadBalancerStrategy` of
-- src/stack.rs, with its panic on text that is not ASCII, Routing/Tree `create_connection_from`, Routing/Peers `RoutingConnection` and
-- Routing/Manager `RoutingConnectionManager` of src/transport/routing_connection.rs with the policy
-- and the records of src/config.rs. Printed writes a tree of groups as a configuration; Scan, Parsed,
-- Shorter, RoundTrip, Termination, Peers/Filled and the children of Manager are proofs.
-- Stack/Listen models `ListenAddress` and `ListenParameters` of src/stack.rs.
-- Base holds what they share: tests, lists, bytes, bits, texts, decimal numbers, signed integers, maps
-- and the JSON values of serde_json, whose objects are sorted maps.
--
-- A byte, a word and a length are natural numbers, with the wrap-around written out where the code
-- can reach it; the arithmetic is that of a release build. A `String` is the list of its bytes. A
-- `HashMap` is the function from keys to optional values. State is passed on explicitly: a method
-- with `&mut self` returns the new record, and one behind a lock is one step on its state. A reading
-- of the clock is an argument, in nanoseconds. The outcome of a `send`, of a `Notify` and of a
-- wait with a timeout is a parameter. Base64, the texts of IP addresses and the casts between floats are
-- the fields of `Codecs`, and their documented laws those of `AreCodecs`. The order in which a hash map
-- lists its values is a parameter too.
--
-- Bounds. The loops of `as_grouped` and of `Command::decode` run on fuel, the length of the buffer:
-- each round moves at least eight bytes on. The loop of `read_commands` runs on one more than the
-- number of buffered bytes: a command that was read took at least twenty. A decimal `u32` has at
-- most ten digits, which is the fuel of its printing. The loop inside the iterator's `next` has a round
-- for each connection, and a walk with the iterator needs more fuel than there are leaves.
-- `create_connection_from` runs on one more than the characters of its text: what it passes on is
-- shorter. `avp_to_name_value` runs on one more than the bytes of a payload: a member has a header less.
-- `get_underlying_connections` has a round for each node of the tree and one more.
--
-- Not modelled: the constructors and setters of floats, the printing of AVPs and commands, the text of JSON, YAML
-- files, the random group, the closing of groups, what the group of a route lists at
-- sending, the move of the index of a group by a response, the requests that the TCP client builds from the dictionary, TLS, sockets and tasks, the
-- SCTP transport, the HTTP client and the JSON of the command handler, the HTTP listener, alarms, metrics and most of the
-- configuration. Logging is left out.
pub mod Base
pub mod Avp
pub mod Command
pub mod Transport
pub mod Routing
pub mod Stack
