-- ===== src/Lib.antt =====
-- Verification of the BLE adapters: what the crates keep, what their operations do to it, and what
-- holds of that.
--
-- The program. crates/jq-link-profile owns the Bluetooth radios. One runtime task, `BleRuntimeTask` in
-- src/task.rs of that crate, takes commands from the router and events from the radios, keeps the
-- sessions of each peer, the open L2CAP channels, the peer directory and the state of the radio start,
-- and hands link and payload events to a bounded mailbox. crates/jq-client drives the router: its bridge
-- (src/bridge.rs) drains that mailbox into a bounded queue of observations and runs one synchronous
-- round of the router at a time; its task (src/client.rs) sends payloads along cached or newly activated
-- routes, publishes the payloads that come in, and keeps a projector (src/projector.rs) whose snapshots
-- have the shape of crates/jq-node-profile, which also has the builders of such a mesh. crates/demo is
-- an example host.
--
-- Which file models what.
--   Prelude, Prelude/*: what the source uses of Rust's library: vectors, `BTreeMap` as a sorted
--     association list, UTF-8 text, byte orders, and the lemmas on them.
--     Prelude/Results is `Result` with `?`, Prelude/Actions the calls that change a state and may fail,
--     Prelude/Collect the loop that fills a map from declarations without duplicates.
--   Core/Endpoints, Core/Events, Core/Routes: identifiers, endpoints, links, events and routes, as data.
--   Link/Gatt: crates/jq-link-profile/src/gatt.rs and `device_id_from_endpoint` of src/session.rs.
--   Link/Sessions: `PeerSessions` and `BleSession` of src/transport.rs, one function per method.
--   Link/Startup: src/startup.rs.
--   Link/Host: the interface to the code outside the repository, a record of operations: the radios of
--     `blew`, L2CAP streams, and the mailboxes, peer directory and claims of `jacquard_host_support`.
--     Every definition of the task takes it as a parameter, so that the theorems hold for any radio.
--   Link/Runtime/State, Ingress, Channels, Dispatch, Peers, Starting, Peripheral, Loop: the task of
--     src/task.rs with src/cast.rs, src/notify.rs, src/session.rs and src/l2cap.rs as far as it calls
--     them. A method takes the task and returns the next one. The task's `world` holds the radios, the
--     queues and the claims; an operation of the host returns its answer and the next world. A method
--     that calls another of the task's methods calls the model of that method.
--   Link/Cast: the unicast half of crates/jq-link-profile/src/cast.rs and
--     `link_observation_from_ble_event`.
--   Nodes/Topology: crates/jq-node-profile/src/topology.rs; Nodes/Equality: its derived `PartialEq`.
--   Nodes/Authoring: the builders and the validation of crates/jq-node-profile/src/authoring.rs.
--   Client/Framing, Client/Multicast: crates/jq-client/src/framing.rs and src/multicast.rs, with the
--     multicast half of crates/jq-link-profile/src/cast.rs.
--   Client/Snapshot, Client/Projector: crates/jq-client/src/projector.rs, its functions and
--     `TopologyProjector`. The projector of `jacquard_host_support` inside it is a record of operations.
--   Client/Routing, Client/Effects: crates/jq-client/src/routing.rs, and src/effects.rs with
--     `MonotonicBleTickSource` of src/bridge.rs.
--   Client/Bridge: crates/jq-client/src/bridge.rs. The router, the transport and the clock share the
--     client's effects, so they are one state `W` with a record of operations, `BridgeHost`. A panic of
--     the source is an error value.
--   Client/Task, Client/Task/Sends: `ClientTask` of crates/jq-client/src/client.rs, its rounds and its
--     sends. The router of `jacquard_router` is `BridgeHost` with the operations of `RouterHost`.
--     The evidence shaping of `jacquard_cast_support` is a parameter wherever it is called.
--   Demo/Frames, Demo/Pump, Demo/Relay with Demo/Attempts, Demo/Views: the frames of
--     crates/demo/src/lib.rs, what `spawn_application_pump` does with a payload, `relay_framed_payload`
--     and `sanitize_topology`.
--   Examples, Examples/*: a concrete radio, and runs on small inputs.
-- A file below one of these proves theorems about it, such as Link/Sessions/Invariant.
--
-- Bounds and fuel. Sequences of the source are lists, and the loops over them recur on the list. The
-- one loop without such a bound, that of `dispatch_unicast_command`, recurs on fuel: the number of
-- registered channels and two. It is enough, since each round but the last two unregisters a channel.
-- Channel numbers, ticks and order stamps saturate at 2^64 - 1, and a round's counts are narrowed to 32
-- bits, as in the source.
--
-- Not modelled: the waits of the event loops (which arm is ready is up to the environment), that an
-- awaited call of a radio or a stream may block (a call is its answer), the tasks that move bytes on
-- an L2CAP socket, the set-up of the backends and the handles around the mailboxes, that of the bridge
-- included, the client's command loop with its threads and its handle `JacquardBleClient`,
-- serialization, and of the demo host its service, streams, invites and state.
mod Prelude
pub mod Core
pub mod Link
pub mod Nodes
pub mod Client
pub mod Demo
pub mod Examples
