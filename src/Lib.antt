-- ===== src/Lib.antt =====
-- local.vibe: the daemon that gives local development servers names under a TLD of their own.
--
-- The daemon keeps a table of routes by name, starts and stops the processes of managed routes, proxies
-- requests by host name, answers an HTTP API, resolves the TLD's names itself where the system cannot, and
-- sends OAuth callbacks on to the route that began the flow. The parts below are those that decide; what
-- only moves bytes (sockets, proxying, pages, certificates, the command line) is not modelled.
--
-- The parts, and how they correspond to the code:
-- - Base: Boolean tests on the native numbers, results with errors, lists, texts as lists of bytes (with the
--   functions of Go's strings package that the code calls), sorting, maps as association lists, decimals.
-- - Config: DaemonConfig of internal/config/config.go, as far as the parts below read it.
-- - Names: validName of internal/daemon/api.go, parseRouteName and worktreeParent of
--   internal/daemon/worktree.go, Slugify of internal/gitwt/gitwt.go, SanitizeName of
--   internal/peer/pairing.go. Regular expressions are written out as functions.
-- - Dns: internal/dns/server.go. A query is a list of bytes; parseQuestion, questionEnd, buildLocalResponse,
--   servfail and handle are functions on it. The label walks are on fuel, one more than the message has bytes:
--   each step passes at least one byte. The upstream resolver is an argument of handle.
-- - Routes: internal/daemon/routes.go. The table is an association list with its two hooks as flags; Add and
--   Remove return the hook calls that they make. A write through a route's pointer is `update`.
-- - Timers: internal/daemon/managed_timers.go and managed_exit.go. The state has the table with its hooks set,
--   the pending TTL and idle timers with the time at which each fires, and the process manager of Procs. The
--   body of a timer is a function of the time and of any state, since it may run late or after a change.
-- - Procs: internal/daemon/process.go, and from daemon.go safeKillPID, killPort, buildPortConflictRecovery,
--   from api.go preflightPort. The operating system is a record of functions.
-- - Ports: who may use which port: vibePortClaim, reservePortsClaim, checkVibePortCollisions and
--   validateReservePorts of api.go, validateOAuthBridgeConfig of oauth_bridge.go, findFreePort of daemon.go.
-- - Guard: internal/daemon/origin.go, and apiHandler and isDaemonAPIPath of api.go: which requests to the
--   API reach which handler. url.Parse and net.SplitHostPort are arguments.
-- - Bridge: internal/daemon/oauth_bridge.go and the state tagging of oauth_worktree.go. URLs are parsed and
--   printed by arguments; a query has one value for each key.
-- - Handlers: handleUpdate, handleStop, handleDeregister and handleRepair of internal/daemon/api.go, on the
--   server of Timers with the bridge's listeners and the saved routes.
-- - Recover: internal/daemon/autostart.go, recoverManagedRoute with startManagedNow, and adoptOrphan of
--   autostart_unix.go, on the daemon of Handlers.
-- - Store: internal/daemon/persistence.go, with routes.json as its entries by name.
-- - Register: handleRegister of internal/daemon/api.go, from the decoded request to the answer: the checks, the new
--   route in the table, the ports and the launch of an app, and what is undone when one of these fails.
-- - Starting: handleStart of internal/daemon/api.go, by composing SyncConfig, Procs and Recover; Starting.Adopt is
--   handleAdoptWorktree, by composing Worktrees, Register and Recover.
-- - SyncConfig: syncRouteFromVibeJSON of internal/daemon/sync_config.go; the file is an argument, read and
--   decoded, and so is whether a save succeeds.
-- - Worktrees: ListLinked and mayHaveLinkedWorktrees of internal/gitwt/gitwt.go, discoverUnregisteredWorktrees and
--   dirIsGoneWorktree of internal/daemon/worktree.go. What git prints and the file system are arguments.
-- - Peers: the peer fields of the daemon and who may reach its listener on the local network: storePeer of
--   internal/daemon/peer_pair.go, peerHandler of peer_listener.go, handlePeerRemove of peer_api.go. Peers.Pairing
--   is the rest of peer_pair.go and peer_api.go with NewInviteCode, Proof and VerifyProof of internal/peer/pairing.go;
--   the hash, the random number and the reply of the other machine are arguments. Peers.Sync is peer_sync.go
--   and handlePeerRoutes; a poll is its start, what was fetched, and its end.
-- - Routing: routeRequest, handleProxyError and managedStrangerOnPort of internal/daemon/daemon.go: where a browser's
--   request is sent, by composing Routes, Recover and Peers. Routing.Remote is peerServeRoute of peer_listener.go.
-- - BookmarkProxy: removeDomainAttr and stripCookieDomain of internal/daemon/proxy_bookmark.go, isWebSocketUpgrade of
--   proxy_upgrade.go.
--
-- Each operation of the table, the process manager and the store holds a lock in the code and is one step here.
-- handlePeerPair takes the lock of the peers three times; what other requests do in between is an argument.
-- Texts are bytes and case is that of ASCII. Times are nanoseconds and natural numbers, as are ports and
-- counts of minutes; ports outside 1 to 65535 are kept, since the code checks them itself.
--
-- Not modelled: the transport, the watchers' goroutines and log files of processes (internal/daemon/process_*.go),
-- TLS and the identity files of peers (internal/peer/identity.go, tlsconf.go), certificates (internal/cert),
-- the pages and their templates (internal/daemon/dashboard.go and others), the command line (cmd), and the
-- platform files, which call the operating system.
pub mod Base
pub mod Dns
pub mod Names
pub mod Routes
pub mod Procs
pub mod Timers
pub mod Guard
pub mod Config
pub mod Ports
pub mod Bridge
pub mod Store
pub mod Handlers
pub mod Recover
pub mod Peers
pub mod Register
pub mod Worktrees
pub mod SyncConfig
pub mod Routing
pub mod Starting
pub mod BookmarkProxy
