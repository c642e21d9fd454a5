-- ===== src/Lib.antt =====
-- bevy_replicon: server-authoritative replication for the Bevy engine. The server sends its clients
-- update messages (spawns, insertions, removals, despawns, all ordered) and mutate messages (changes
-- of components, unreliable), each with the tick it belongs to. A client confirms ticks and maps the
-- server's entities to its own; the server keeps, for each client, what the client has acknowledged
-- and which entities it sees. A messaging backend moves the bytes.
--
-- Which file models which part (paths from the repository's root):
--   Tick             src/core/replicon_tick.rs: `RepliconTick`, the wrapping `u32` and its order
--   Client           src/client/: `ConfirmHistory` (confirm_history.rs) and `ServerMutateTicks`
--                    (server_mutate_ticks.rs), the ticks that a client has confirmed
--   Visibility       src/core/replication/replicated_clients/client_visibility.rs
--   Clients          src/core/replication/replicated_clients.rs: `ReplicatedClient`, with the list
--                    of clients and the pool in Clients/Registry
--   EntityMap        src/core/server_entity_map.rs: `ServerEntityMap`
--   Backend          src/core/channels.rs, replicon_server.rs and replicon_client.rs
--   Events           src/core/event/: server_event.rs, the server's buffered events and who gets them,
--                    with Events/Queue for how a client receives them and Events/Sending for how
--                    they are sent or buffered; client_event.rs in Events/FromClients; and
--                    event_registry.rs with src/client/event.rs and src/server/event.rs, the systems
--                    that go through the registered events, in Events/Registry
--   Wire             src/core/entity_serde.rs, and the encodings that the messages stand on
--   Messages         src/server/replication_messages/ (serialized_data.rs, component_changes.rs,
--                    update_message.rs, mutate_message.rs) and
--                    src/core/replication/update_message_flags.rs: what the server sends each client
--   Receive          src/client.rs: how the client applies it; Receive/Items has what an item does to
--                    the client, Receive/Steps the actions and `apply_array`, Receive/Mutations the
--                    buffered mutate messages, Receive/Replication a tick's whole
--   Server           src/server.rs, with src/core/connected_clients.rs, src/server/server_tick.rs and
--                    src/server/client_entity_map.rs; Server/Collect has what `send_replication` does
--                    (with src/server/replication_messages.rs)
--   Rules            src/core/replication/replication_rules.rs and src/server/removal_buffer.rs;
--                    Rules/Reader has its reader of removed components, and
--                    Rules/Archetypes has src/server/replicated_archetypes.rs
--   Markers          src/core/replication/command_markers.rs, with the functions of a component
--                    (replication_registry/component_fns.rs) in Markers/Fns and the registry
--                    (replication_registry.rs) in Markers/Registry
--   Conditions       src/core/common_conditions.rs: the conditions that systems run on
--   Parents          src/parent_sync.rs: the hierarchy of entities, which `ParentSync` replicates
--   Common           shared: tests, lists, bits of a word, maps, lists in descending order, the outcome
--                    of code that may panic
-- A function has the source's name; a method that changes its object returns the new object, with the
-- value it returns, if any, behind it.
--
-- Numbers are natural numbers. The wrap-around of a tick (2 ^ 32), of a mutate index (2 ^ 16), of
-- the position in a mutate message (2 ^ 64) and of a shift in a 64-bit mask is written out; lengths and message counts do not wrap. An entity, a
-- client's id, an engine tick and a duration are numbers, a hash map is an association list and a
-- hash set a list. Code that can panic returns an `Outcome`; where a build with debug assertions and
-- overflow checks differs from one without, a Boolean says which it is. The client's loops over the
-- bytes of a message, and the server's over acknowledgments, use fuel, the number of the bytes that
-- are left, or one more: each item takes a byte at least, so that they end. Only a cursor that is set
-- back needs more: the skipped data of a mutate message takes its position past 2 ^ 64, which panics with
-- overflow checks and wraps without them.
-- The engine's `Tick::is_newer_than`, the serialization of a tick (`bincode`, of a fixed length)
-- and the type of the statistics are parameters, as are the encodings of a varint, a tick, a
-- function id, an acknowledgment and a component (`Wire`, with what is relied on in `IsWire` and
-- `IsReader`), the client's world with the registry's functions (`World`), and the standard
-- library's `partition_point`, `binary_search` and `binary_search_by_key`. Registered events have one
-- type, and the functions that are registered for an event, its reader and the `ListOrderedMultimap`
-- of its queue (`Multimap`, with what is relied on in `IsMultimap`) are parameters too; the loop over
-- the queue has fuel for one round more than it has entries. The data of a component is read first and
-- applied then, where the registry's functions do both. What a failed read leaves of the
-- acknowledgments is a parameter, and so are the engine's answers on which components were added or
-- changed, what is new to a cursor of its removal events, and, for the hierarchy, its `set_if_neq` and
-- its world (`Hierarchy`, with what is relied on in `IsHierarchy`). `iter_names` of the bitflags gives
-- the set flags in the order of declaration.
--
-- Not modelled: the engine's world, its systems and schedules, the type-erased functions of the
-- registries, how a component is encoded, logging, and the backends; the registration of rules and
-- events with the app, and the pools of emptied lists.
pub mod Common
pub mod Tick
pub mod Client
pub mod Visibility
pub mod EntityMap
pub mod Clients
pub mod Backend
pub mod Events
pub mod Wire
pub mod Messages
pub mod Receive
pub mod Server
pub mod Rules
pub mod Markers
pub mod Conditions
pub mod Parents
