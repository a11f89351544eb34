-- ===== src/Lib.antt =====
-- The decisions of the DockNeighbor hub daemon (daemon/src): a process on a boat that watches and
-- closes water valves through a LinkTap gateway, polls routers, batches what it knows to a cloud,
-- and updates itself. The daemon keeps its decisions in functions without I/O; these are modelled
-- here, clause by clause, and what they decide is proved over whole runs of calls.
--
-- The parts, and the file of each:
--   Cycle           cycle.rs: the cycle of one valve (`step`), its modes, caps, cutoff and end reasons
--   Ledger          cycle.rs: the UTC day of an instant (`civil_from_days`) and the daily ledger
--   Linktap         linktap.rs: unit conversion and the readings of a gateway's status payload
--   LinktapRuntime  linktap_runtime.rs: `Runtime`, the watched valves; `observe` steps Cycle, keeps
--                   the Ledger and decides reopens that the caller performs
--   GatewayWatch    linktap_runtime.rs: `gateway_watch_step` and `is_flood_shutoff`
--   CloseWatch      close_watch.rs: when an unconfirmed close is retried, told and given up
--   CloseDriver     hub_server.rs: `claim_close`, `settle_close` and `drive_closes`, which run
--                   CloseWatch over the slots that all valves share, one slot a valve
--   Batch           batch.rs: items, the clamp to the wire's limits and the split into posts
--   UpdateGate      update_gate.rs: whether an update may be installed now
--   Probation       update_gate.rs: the probation of an applied update, its marker file, the skip list
--   UpdateCheck     update_check.rs: the reading of a version and the order of two
--   Geofence        geofence.rs: `Geofence`, the anchor watch, security zone and trips of a GPS device;
--                   Geofence.Observe has `observe` in the parts its body has, Geofence.Reply the
--                   reader of a worker's anchor object
--   Spool           hub_server.rs: `pending_shelly` and `pending_reports`, what waits for the uplink;
--                   its reports are the Items of Batch, its alarms the floods of GatewayWatch
--   Checkin         hub_server.rs, routers.rs: `checkin_once`, which sends a keyframe in the posts of
--                   Batch and marks what landed, and the cellular use that the keyframe carries
--   Relay           hub_relay.rs: the loop of `serve_once`, what it gives a socket up for, and the
--                   waits of `run`
--   Access          hub_server.rs, adopt.rs, linktap_discover.rs: keys, roles, the sensors' door
--                   (`h_shelly`) and the setup door (`first_run_only`)
--   Store           hub_config.rs: the hub's one file and its records
--   Api             hub_server.rs: the calls of the management API. Api.Calls has the two doors and the
--                   dispatch, Api.Settings, Api.Routers, Api.Sensors and Api.Valves the actions,
--                   Api.Setup the calls behind the setup door, Api.Floods the shutoff of all valves;
--                   the valves close through CloseDriver and LinktapRuntime. Api.Guards,
--                   Api.RouterGuards, Api.Rules and Api.Claims prove who may change what.
--   RouterHealth    router_health.rs: when a router is reported down, and what an unread one reports
--   Cadence         cadence.rs: retries of the check-in and the heartbeat, and which readings are sent
--   Readings        cadence.rs, hub_server.rs: the gates that a sensor's reading passes to be sent at
--                   once (`ReadingGate`), and `shelly_reading_due`, one gate for each device and value
--   Sources         gps.rs, hub_server.rs: one pass over the GPS source and the wait for a silent one
--   KeySync         key_sync.rs: when the set of member keys is fetched
--   TrayState       tray_state.rs: the tray's icon and alerts
-- Float is the `f64` that the volumes are of, Shared what the modules share, and Examples holds the
-- theorems at concrete inputs.
--
-- How the code is read:
--   An instant is a natural number of milliseconds since the epoch; where the source subtracts two
--   instants as `i64`, the model keeps the case in which the difference is negative, or subtracts
--   down to zero where the source floors it there. A `u32` counter wraps or saturates as the source
--   has it. `f64` is a parameter: its operations (Float64) and, where a proof needs them, the order
--   and rounding that IEEE 754 documents (Float64Laws). A JSON payload is the record of what its
--   accessors return, and how a number is printed is a parameter (Print).
--   A mutation is the state returned; an effect on the network is an item of a list, in order. A
--   `HashMap` is an association list. Locks are taken around each of the operations as in the code,
--   so an interleaving is a sequence of them; a snapshot may be stale, and `settle_close` compares.
--   Loops are recursion on lists; `chunks` has the length of its list for fuel, which is enough
--   since each chunk takes an item, and the decimal printer has the number itself.
--
--   A drain of a spool holds its own lock and awaits the network between the steps of its loop, so a
--   run is a list of moves in which reports may be queued between an attempt and its answer.
--   The printers of decimals have a number of digits for fuel; the marker's gets the number itself,
--   and an octet's four. The functions of `f64` that positions need are a parameter (Geo), and a text
--   that the code walks is its code points or its bytes.
--
--   Setup calls and actions on a router read the file before they take its lock, so the file as it
--   was then is an argument beside the state under the lock; the two differ where calls overlap.
--   An API call takes the hub's state (`Rt`), what clock, disk, network and devices answer during it
--   (`World`) and the request, and gives back the state and the answer. A file is missing, read or
--   damaged; that a written configuration reads back as itself is serde's.
--
-- What is not modelled: log lines, HTTP, sockets and timers; the JSON of requests and the bodies of
-- good answers; the long polls of the API, which only read; the JSON envelope and URLs of batch.rs;
-- SHA-256 and the signature of a key set; the protocols of the router vendors and their polling,
-- discovery, the sentences of an NMEA feed; the TypeScript, Python and shell ports beside the
-- daemon.
pub mod Shared
pub mod Float
pub mod Cycle
pub mod CloseWatch
pub mod Linktap
pub mod Ledger
pub mod LinktapRuntime
pub mod Geofence
pub mod GatewayWatch
pub mod Access
pub mod Batch
pub mod Checkin
pub mod CloseDriver
pub mod UpdateGate
pub mod Probation
pub mod Relay
pub mod RouterHealth
pub mod Spool
pub mod TrayState
pub mod Cadence
pub mod KeySync
pub mod Store
pub mod Api
pub mod UpdateCheck
pub mod Readings
pub mod Sources
pub mod Examples
