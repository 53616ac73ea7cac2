-- ===== src/Lib.antt =====
-- FRP-Panel: a panel that manages frp tunnels on remote nodes, an agent on each node, and the
-- records of their traffic.
--
-- Prelude holds what the modules share: lists, association lists for Go's maps, int64 as an
-- integer that each addition wraps, texts as bytes, and numbers as text with what is read back
-- of them.
--
-- Metrics is internal/metrics/metrics.go: Metrics.Ring the ring of realtime samples, Metrics.Seq
-- the tracker of sequence numbers, Metrics.Minute the aggregate of a minute, Metrics.Float the
-- operations of float64, which are a parameter.
--
-- Protocol.Message has the messages of internal/protocol/protocol.go that the rest uses,
-- Protocol.Sign internal/protocol/sign.go: the signature of a message and the window against
-- replays, with HMAC as a parameter.
--
-- Pipeline is internal/panel/pipeline.go with the statements of internal/panel/store_metrics.go
-- and internal/panel/store.go that it runs: State has the records and the small methods, Account
-- the folding of one report, Flush the writing of the buffers. Ledger and Drain have the sums,
-- Steps what each step does to them, ExactlyOnce the runs, Watermark the durable sequence
-- numbers, Lost a run that loses traffic.
--
-- Limiter is internal/agent/ratelimit.go and the limiter of internal/panel/auth.go:
-- Limiter.Pruned has the sweep, Limiter.Bans the runs of calls. An instant is a number of
-- nanoseconds since 1970.
--
-- Ports is internal/portutil/validate.go (Policy), internal/portutil/portutil.go (Listening,
-- over what the kernel's files hold; Taken has what it answers) and AllowedRanges of
-- internal/frpcfg/frpcfg.go (Ranges, with Ranges.Merged and Ranges.Covered for its proofs).
--
-- Agent.Wal is internal/agent/wal.go over the bytes of the log file; Lines has what the scan of
-- a file gives, Recover what a restart, a crash and a rotation leave. JSON is a parameter with
-- the behaviour that the theorems name.
--
-- Agent.Gate is the replay of the log to a panel and the gate for live samples in
-- internal/agent/server.go, as a step relation of its two goroutines: Sorted has the lists of
-- records, Invariant and Replayed what each step keeps, Order what a session is sent, Missed the
-- samples that it never is, Scan one scan of the log, Finished that a replay ends.
-- Agent.Handshake is handleWS up to the accepted handshake, the reader and the queues of the
-- sessions, with the limiter and the signatures as they are modelled here; Turned has the
-- addresses that are turned away.
--
-- Agent.Tunnels is the counting of the tunnels' bytes in sampleAndBroadcast of
-- internal/agent/server.go: Charged has one sample, Carried a run of them. Agent.Commands is
-- dispatch and checkPort of the same file over Agent.Frps, which is internal/agent/frps.go and
-- internal/agent/frpsapi.go; Updates counts the updates that start.
--
-- Agent.Firewall is internal/agent/firewall.go and internal/agent/nftlimit.go: RuleLine and
-- Table read what ufw prints, Ufw says what ufw is taken to do, Opened, Closed and Synced what a
-- synchronisation leaves. A command is a function on a state of the host.
--
-- Procmetrics is internal/procmetrics: Parse reads the files of /proc, Collector takes the
-- differences between samples, Counted has what a run of them reports.
--
-- Frpcfg.Names has ProxyName and ParseProxyName of internal/frpcfg/frpcfg.go.
--
-- Mappings is the store of mappings in internal/panel/store.go (Store) over the tables of
-- internal/panel/migrations/0001_init.sql, and validateMapping of
-- internal/panel/handlers_mappings.go (Validate); Integrity has the keys and the owners of
-- targets, Lock the versions. Mappings.Handlers has the handlers of the same file, with SyncAll
-- as an argument: Settled what a request leaves, OwnPort the edit of a mapping that runs.
--
-- Panel has other parts of internal/panel. Latency has the latencies of internal/panel/app.go,
-- the texts that key them and what clears a node; Cleared that no other node is touched. Hub is
-- the queues and the broadcasts of internal/panel/hub.go; Bounded what a browser that is slow
-- still gets. Link has of internal/panel/nodeconn.go the replies to requests (Answered), what a
-- handshake teaches and the reconciliation (Reconciled, Wanted), with desiredProxies of
-- internal/panel/app.go and its query. Errors has the codes of internal/panel/errs.go and the
-- statuses of internal/panel/resp.go.
--
-- Panel.Session is the session of the administrator: internal/panel/auth.go and
-- internal/panel/handlers_auth.go (Handlers) over the table of users (Table), with the limiter
-- as it is modelled here, and JWT and bcrypt as parameters. Rows has what a change leaves in the
-- table, Revoked the tokens that a new password ends, Lasting those that stay, Locked the
-- addresses that are locked out.
--
-- Panel.Nodes ties the panel together: internal/panel/nodemgr.go and the handlers of
-- internal/panel/handlers_nodes.go that change nodes (Handlers), over the table of nodes
-- (Table), the connections, the frpc processes (Frpc.Processes), the pipeline (Pipeline.State)
-- and the latencies. Links has the connections, whatever the order of the calls, Deleted what is
-- left of a node.
--
-- Panel.Sync is SyncNode and SyncAll of internal/panel/nodemgr.go with EnsureNode of
-- internal/panel/frpcmgr.go: the configurations of frpc. Rounds has one round of the loop,
-- Served puts it behind the handlers of Mappings.Handlers.
--
-- Panel.Settings is the settings: their readers in internal/panel/app.go and
-- handleUpdateSettings of internal/panel/handlers_misc.go; Stages has what each part of a
-- request does, ReadBack what the readers give afterwards.
--
-- Selfupdate is internal/selfupdate/selfupdate.go and its caller in internal/agent/server.go;
-- Verified has what an update leaves in place of the binary. The HTTP server and SHA-256 are
-- arguments.
--
-- Frpc is part of internal/panel/frpcmgr.go: AdminPort the ports of the processes, Backoff the
-- waits before a restart (with those of internal/panel/nodeconn.go), Throttle the folding of
-- repeated log lines, Processes which processes run: Tracked has the calls that do not overlap,
-- Orphan two that do. A wait is in seconds, every other time in nanoseconds.
--
-- Each method that holds a lock throughout is one step. Reports and flushes are whole steps too,
-- so an interleaving inside of them is not modelled; EnsureNode, which takes its lock twice, is
-- two steps. Time, the calendar of Shanghai, random texts and the answers of the database are
-- arguments. Loops are recursion on their list; only a replay in Agent.Gate.Scan is given the
-- number of its steps, of which Finished says how many are enough. Not modelled are the SQL
-- rollups, the HTTP routing, the handlers that only read, the backups, the configuration files,
-- certificates and receipts, and the errors of the operating system: these are calls of other
-- code, or text, with little state of their own.
mod Prelude
pub mod Metrics
pub mod Protocol
pub mod Limiter
pub mod Ports
pub mod Agent
pub mod Mappings
pub mod Frpc
pub mod Frpcfg
pub mod Panel
pub mod Procmetrics
pub mod Pipeline
pub mod Selfupdate
