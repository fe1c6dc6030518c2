-- ===== src/Lib.antt =====
-- dingzi: a model of the panel of a server monitor, and what it guarantees.
--
-- The program has a panel (internal/server) and an agent on each machine (internal/agent), which
-- speak the frames of internal/proto over a websocket. Agents report samples; the panel keeps the
-- live fleet and its transfer counts in memory, stores history in SQLite, schedules service checks
-- on the agents, evaluates alert rules, delivers notifications, and bridges browser terminals to
-- agents. All state of the panel is behind mutexes, so each operation below is one atomic step and
-- a history is a sequence of operations in any order.
--
-- Where each part is modelled:
--
--   Base        Boolean tests, lists over the native numbers, and Go's map as an association list
--               (Base/Table): lookup, insert, erase, counting, and `range` loops that delete.
--   Calendar    the civil calendar of package time, as far as traffic.go uses it.
--   Traffic     internal/server/traffic.go: cycleStart, rollCycle, delta, addCounter, Accumulate and
--               Billed. Cycle is about the billing boundaries, Counters about the totals.
--   Ring        internal/server/hub.go, type ring: push, snapshot and latest, for samples of any type.
--               Window describes the entries in use, Refine the queue they stand for.
--   Fleet       internal/server/hub.go, type Hub, over Ring and Traffic: Load, Get, GetByUUID, Put,
--               Attach, Detach, Conn, Remove, Push, Samples, View, Snapshot, SetTraffic, Rename and
--               SetHost. Machines have addresses in `cells`, which both maps of the hub share.
--   Terminals   internal/server/terminal.go, type terminalRegistry: reserve, claim, release, track,
--               closeMachine and drop.
--   Sessions    internal/server/auth.go: sessionStore (issue, valid, revoke, sessionDone, close,
--               throttle) and, in Login, handleLogin over it.
--   Web         internal/server/auth.go: sameOrigin, clientIP, authed, requireAuth and handleLogout.
--   Github      internal/server/github.go: newGitHubAuth (Config), issue and take, the requests of
--               userID (Exchange), githubRequest, handleGitHubStart and handleGitHubCallback in the two
--               steps before and after its requests (Callback).
--   Store       internal/server/store.go and store_query.go: the tables of machines and credentials,
--               Register, DeleteMachine, SaveTraffic, affectOne and the loading of machines; Writer is
--               QueueSample and the writer goroutine. Hub.TrafficSnapshot of hub.go is here as well.
--   Server      internal/server/server.go: register, onState, onHostUpdate and persistTraffic over the
--               fleet and the store. Agents is authAgent, bindCredential (credentials.go), handshake
--               and serveAgent (agentws.go); Admin is handlePatchServer and handleDeleteServer (api.go)
--               and handleSaveSettings (settings.go).
--   Control     internal/server/monitors.go and alerts.go: validate, check and the handlers that save
--               and delete monitors (Monitors, Checks), channels (Channels) and rules with their
--               observation (Rules), over the tables of store_migrate.go and their cascades.
--   Alerts      internal/server/alerts.go: the loop of evaluate over its tables, and, in Notify,
--               deliverNext and handleTestChannel.
--   Requests    internal/server/agentconn.go: the table of requests that wait for an answer of an agent
--               (request and resolve), each exit of request a step of its own.
--   Schedule    internal/server/monitors.go, type serviceEngine: acquire, release and schedule;
--               release is two steps, between which other calls may come.
--   Agent       internal/agent: the loop of connections of client.go (run) and runTask of tasks.go with
--               proto.Task.Valid; Reader is readLoop. Accepted joins validate of monitors.go to runTask.
--               Config is config.go up to Save, Identity what a restart keeps of it.
--
-- A component's top file holds its state and operations, named as in the source in snake case; the
-- files below it hold proofs, each named for what it proves, and Tests runs the operations and
-- applies every result at a concrete input.
--
-- Modelling choices. Go's ints and times that the code keeps nonnegative are natural numbers, with
-- subtractions turned into the comparison they stand for; uint64 additions are reduced modulo 2^64.
-- Instants are nanoseconds, or Unix seconds where the source uses those. A map is a list of pairs
-- whose order stands for the order of `range`, which Go leaves open, so a result about all tables
-- covers each order. The clock, minted tokens, rows read from the database and results of the network
-- are arguments. Closing a connection or a channel is recorded in a list. Loops run over lists, so
-- no fuel is needed.
--
-- A handler answers with its status; what it writes to a database that may fail takes a Boolean that
-- says whether the transaction is carried out. Packages of others (url, net, base64, sha256, bcrypt,
-- JSON, uuid, regexp) are parameters, collected in a record where a component uses many.
--
-- Not modelled: HTTP and websocket transport, JSON, bcrypt, SQLite itself, float64 arithmetic
-- (values that the code only copies or compares are of a type parameter), the collectors, the
-- command lines, the web assets, the handlers that only list rows, and of the agent its handshake,
-- its reports, the address it dials and its local terminal. The results about restarts are of
-- EnsureUUID, the Save that follows it and EnsureToken one after the other; Validate, which only
-- rewrites the address, stands between loading and them, and the branch for -configure is left out.
-- Deleting a machine cascades to monitors and rules in Control (drop_server), which Server does not
-- hold.
pub mod Base
pub mod Calendar
pub mod Traffic
pub mod Ring
pub mod Terminals
pub mod Sessions
pub mod Fleet
pub mod Alerts
pub mod Schedule
pub mod Requests
pub mod Web
pub mod Github
pub mod Store
pub mod Server
pub mod Control
pub mod Agent
