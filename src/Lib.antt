-- ===== src/Lib.antt =====
-- BBgrid keeps many clients behind one server: the server runs a control plane
-- of events, and forwards connections over multiplexed tunnels.  This library
-- models the parts that carry the logic:
--
-- * The state store (BBgrid_Server/runtime/statestore.go).  A `StateStore` is
--   the struct StateStoreImpl: eight maps.  `StateStore` has the queries
--   (get_client is GetClient, and so on), StateStore/Apply has Apply with one
--   function per event kind, StateStore/Restore has Snapshot and Restore, and
--   StateStore/Keys the texts that name proxies and tunnels.  Spec gives the
--   abstract tables, Index and Mirror the invariants, Restore/Laws the laws
--   of a restored store.
-- * The reconcile engine (BBgrid_Server/runtime/reconcile.go).  `Reconcile` has
--   reconcileProxies and reconcileRelays as one generic pass over items that
--   have a key, Reconcile/Backoff the waiting time after failures,
--   Reconcile/Laws the counts of a pass, Reconcile/Store what a pass does on the
--   tables of the state store, Reconcile/Engine the loop around the passes, and
--   Reconcile/History what it shows of them.  Reconcile/EventBusProvider is the
--   provider of BBgrid_Server/runtime/provider.go, which publishes events, and
--   Reconcile/Convergence joins it with the store.
-- * The registry of capabilities (BBgrid_Server/runtime/capability.go), in
--   `Capability`, with what is executed after any calls in Capability/Laws.
-- * The multiplexer (common/mux/mux.go).  Mux/Frame has the frame, the write
--   loop and the read loop, Mux/Channel one channel with its window and its
--   Read, Mux/Multiplexer the table of channels with dispatch, Send,
--   OpenChannel, closeChannelLocal and SendWindowUpdate, Mux/WriteLoop one
--   round of the write loop over the whole table.  RoundTrip, Write, Flow,
--   Progress, Read, WriteAccount and WriteOrder have the theorems.
-- * The event bus (BBgrid_Server/runtime/eventbus.go).  `EventBus` has the two
--   halves of Publish, Subscribe, Unsubscribe, worker and the two halves of Close
--   as steps of a run, EventBus/Laws the law of what is handed on.
-- * The tunnel authentication (common/proto/tunnel.go).  `Tunnel` has
--   WriteTunnelAuth, ReadTunnelAuth and IsTunnelConn, Tunnel/Laws the laws.
-- * The event log (common/store/event.go).  `EventLog` has Append, loadEvents,
--   splitLines, Query and Matches, EventLog/Laws the law of a restart.
-- * The storage (common/store/).  ResourceKey has the text of a key
--   (common/proto/event.go), Storage/Meta the resources by type (meta.go),
--   Storage/Snapshots the numbered files with their clean-up (snapshot.go),
--   Storage/Manager the calls that write an event, a resource and, at the
--   interval, a snapshot (manager.go).
-- * The state of the workers (BBgrid_Server/workers/state.go).  Worker/Table is
--   clientTable, Worker/State and Worker/Relays StateWorker with what it hands
--   to the dispatcher and the storage, Worker/Runs any sequence of calls of
--   which none overlaps another, Worker/Laws also two calls that do.
-- * Authentication (BBgrid_Server/auth/auth.go).  Auth/Registry has the clients
--   up to ResetClientStatus, Auth/Approval Delete, SetClientNamespace and
--   Approve, Auth/Queries the readers, Auth/Vouchers the vouchers, Auth/Disk
--   what a write leaves of a file, Auth/Runs and Auth/VoucherRuns any sequence
--   of calls and restarts.  Auth/Enrol is handleRegisterVoucher of
--   BBgrid_Server/http/server.go, which calls both; between two of its calls
--   other requests change the registry.
-- * The core (BBgrid_Server/runtime/core.go).  `Core` has the handlers that
--   NewCore subscribes, which apply an event to the state store, write it to
--   the storage and signal the engine; Core/Laws what they keep.
-- * The session layer (BBgrid_Server/session/server.go).  Session/Protocol is the
--   Session with what it makes of the messages of its client and its Close,
--   Session/Messages these messages and the events, Session/ProxyKey the keys,
--   Session/Server the Server with what it sends to the clients and
--   startTunnelLoop, Session/Tracking the goroutines of the sessions as steps in
--   any order, among them trackSession after its select as one step, and
--   Session/Pending the tunnels that wait for a visitor: registerPending,
--   AcceptTunnel, cleanupExpired and the goroutine of a visitor; Session/Relay is
--   HandleRelay on the same channels.  AcceptTunnel and HandleRelay are one step
--   each: after their lock they touch only the channel taken out of the map.
--   GoText/Atoi is strconv.Atoi.
-- * Types (common/proto/event.go, BBgrid_Server/runtime/types.go): the records
--   that all of them share.
--
-- The parts meet where the code has them meet: an event goes through `apply`
-- into the tables, a pass of the engine reads the same tables through the
-- queries, and the provider is a parameter of the pass, which the one that
-- publishes events fills.
--
-- Conventions.  A Go string is the list of its bytes (Text), a map is an
-- association list (GoMap) of which lookups are the only view, an int is an
-- integer without bound except where the code's result depends on the wrap:
-- int32 and int64 arithmetic of the window and of the backoff is written with
-- `signed`.  A payload of type any is the data type Any, with one constructor
-- for each type the code asserts and one for all others; a JSON number stands
-- as the integer that int(v) makes of it.  The clock is an argument.  A
-- connection, its reads and its writes are streams of bytes, or a parameter
-- with what the code relies on.  One operation runs under the lock of its
-- component, so a run is a list of operations; where an operation releases its
-- lock on the way, its parts are steps of their own.  Sequence numbers count
-- from zero and are taken without the wrap at 2^63.
--
-- Bounds and fuel.  `read_loop` and `write_all` recurse on fuel.  A round of
-- the read loop that goes on takes the eight bytes of a header at least, so one
-- round more than there are bytes of input is enough; a round of the write loop
-- takes one byte at least where a write that does not fail makes progress, so
-- the length of the frame is enough.  Every other loop is structural.
-- Constants (window, frame and queue sizes) have the values of the code.
--
-- Not modelled: timers, the network, TLS and gRPC, logging, the command line
-- and the plugins; of the storage the opening and closing; of the
-- authentication the certificates and the web tokens, which are parameters or
-- absent, and the second registry of workers/auth.go.  A file is given by the
-- values that were encoded into it: encoding to JSON is the library's, and
-- what it gives back of a value is a parameter (`reread` in Storage/Meta).  A
-- round of the write loop is shown without other goroutines that touch the
-- channels meanwhile, but for control frames that arrive while it waits. The
-- adapter that hands out a client with its connection is left out but for its
-- tunnel key.
mod Prelude
pub mod GoMap
pub mod GoText
pub mod Types
pub mod StateStore
pub mod Reconcile
pub mod Capability
pub mod EventBus
pub mod ResourceKey
pub mod EventLog
pub mod Storage
pub mod Core
pub mod Worker
pub mod Auth
pub mod Session
pub mod Tunnel
pub mod Mux
