-- ===== src/Lib.antt =====
-- NexusLink: a reverse tunnel. A client behind a firewall keeps a control connection to the server,
-- registers tunnels on it, and carries the traffic of the public ports of the server to local
-- services. This library models the Go code of the server, of the packages that both sides share,
-- and of the client.
--
-- Shared modules. Base has the names of the libraries, Boolean tests, lists over native numbers,
-- Go's maps as association lists (Dict), tables of rows (Tables, Rows, Members), texts (Text) and
-- fixed-width words (Word). Wire has big-endian numbers and a connection as the bytes that are
-- still to come, with the error that ends them.
--
-- Protocol (pkg/protocol/message.go). Message: WriteMessage, ReadMessage and ParseMessage;
-- Envelope: the datagrams of a UDP tunnel. encoding/json is a parameter.
--
-- Auth (pkg/auth/auth.go). Sign: Sign, Verify, SignFramed, VerifyFramed and ReadFramed, over a
-- parameter for HMAC-SHA256 of which only the length of its result is assumed. The clock is an
-- argument, in seconds.
--
-- Guard (pkg/security/connguard.go). State: ConnGuard and every one of its methods; parsing of
-- addresses and membership in a range are parameters. All methods run under one lock, so each is
-- one step.
--
-- Tunnel (cmd/server/main.go). Forward: the two loops of forwardWithAuth, by recursion on what
-- their reads return. Rendezvous: handleTCPUserConnection and acceptDataConnections, which meet in
-- the map of pending connections, as steps that come in any order.
--
-- Udp (cmd/server/main.go, handleUDPConnections, sendUDPToClient, handleUDPDataChannel,
-- getOrCreateSession and cleanupUDPSessions). Channel: the fields that these goroutines share and
-- what each does in one round; run_events runs any sequence of rounds. A session number is a
-- uint64; statements about new sessions assume that numbers are left.
--
-- Store (pkg/store/store.go). Tables: the rows; Clients, Tunnels, Users and Keys: the operations,
-- on lists of rows, each with a fault of the driver as an argument. sha256 is a parameter. Counters
-- are plain numbers, below the int64 range.
--
-- Server (cmd/server/main.go). State: Server and Proxy; Identity: the login of a connection,
-- managed clients and their keys, using Store; Removal: their removal; Tunnels: handleNewProxy,
-- CloseProxy and the end of a connection, with the answers of the operating system as arguments;
-- Traffic: counters, in int64 patterns, and the alert; Startup: what main does with the clients and
-- keys of the configuration; Session: handleClient, handleControlMessages and handleSyncProxies,
-- for any number of connections whose steps come in any order, using Guard; Listing: what the panel
-- is shown. Messages that are written to control connections are left out, and so are log lines.
--
-- Web (pkg/web/server.go and pkg/web/security.go). State: the panel; Settings: the limits of its
-- settings; Login: handleLogin, handleLogout and authMiddleware; Maintenance: cleanupSessions, the
-- password change, unlocking and the lists of the log; Itoa: itoa; Access: the identities of the
-- open API and the clients that they reach, using Store.
--
-- Api (pkg/web/server.go, the handlers of /api/v1). State: the panel and the server as one state,
-- requests and answers; Clients, Keys, Proxies, Tunnel and Users: the handlers, using Store, Server
-- and Web. A decoded request is an argument, and so is, for each call of the database, whether it
-- fails. What is sent to a webhook or to a client is returned. KeySpec is the abstract set of API
-- keys.
--
-- Client (cmd/client/main.go). Registration: the registration of tunnels, handleCloseProxy and
-- shutdownProxies, on the table of tunnels; Backends: the sessions of a UDP tunnel and their
-- sockets; Forward: handleNewConn and forwardWithAuth; Report: reportTraffic, on int64 patterns.
--
-- Relay. Outbound: the datagrams that a server of Udp writes, as a client of Client.Backends takes
-- them; this puts the two ends of a UDP tunnel together. Stream does the same for a TCP connection,
-- and Sync for the list of tunnels that a client asks for after its login.
--
-- Config (pkg/config/config.go and main of cmd/client/main.go). Load: the two loaders and the
-- defaults; Startup: environment and flags.
--
-- Each component has a module Tests with concrete runs. Not modelled: dialling, TLS and the reading
-- loop of the client, the heartbeat, the decoding of YAML and JSON, compression, webhooks, static
-- files and all other input and output.
pub mod Base
pub mod Wire
pub mod Protocol
pub mod Auth
pub mod Guard
pub mod Tunnel
pub mod Udp
pub mod Store
pub mod Server
pub mod Web
pub mod Api
pub mod Client
pub mod Relay
pub mod Config
