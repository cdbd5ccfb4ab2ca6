-- ===== src/Lib.antt =====
-- The edge gateway terminates TLS, routes requests by host and path to backends on the machine itself,
-- and blocks the addresses of clients that misuse its protocols. This library models its decision code
-- and proves what makes it right.
--
-- Text is a list of bytes, an instant is a number of nanoseconds, and a hash map is an association list
-- in which each key stands once. A call that changes shared state is a function from state to state.
--
-- How the parts meet: at the start the configuration file is checked (config/mod.rs), which builds the
-- three route tables, the policy of the hosts and the settings of everything else, and the blocks of the
-- last run are restored (security/ip_blocking_persistence.rs). A TLS connection gets a certificate by its
-- server name (tls). Then a listener takes the host of a request (routing/mod.rs), asks the policy whether
-- the host belongs to the SNI name of the connection, asks the blocking state whether the client is
-- blocked (security/ip_blocking.rs), and looks the path up in the route table
-- (http_proxy/routes.rs), whose routes hold a checked upstream (http_proxy/config.rs). A request that
-- breaks its protocol is a violation of its client. A request to an HTTP backend passes on its cleaned
-- headers (http_proxy/headers.rs), and a WebSocket connection hands on whole messages
-- (gateway/websocket_message.rs).
--
-- Prelude     lists, results, equality tests, text and maps that the other files share.
-- Net         `IpAddr` and the parsers of the standard library, as documented.
-- Http        the crate `http` as two interfaces: header maps, and URIs. Http/Listed and Http/Sample are
--             instances, on which the witnesses run; Http/Removal removes several headers at once.
-- Routing     src/routing/mod.rs: `normalize_dns_host`, `normalize_authority`, `resolve_request_host` and
--             `RoutingPolicy`.
-- Proxy       src/http_proxy: Proxy/Config is `FileUpstreamConfig::validate` of config.rs, Proxy/Path is
--             `validate_http_path`, Proxy/Routes and Proxy/Routes/Build are `HttpRouteTable` of routes.rs,
--             Proxy/Headers is headers.rs, Proxy/Pool the idle connections of pool.rs.
-- Grpc        src/grpc/routes.rs: `GrpcRouteTable` with the checks of a path and of a backend.
-- Backends    src/routes/table.rs: the check of a WebSocket route's path and the parser of its backend;
--             Backends/Table is the route table itself.
-- Security    src/security: Security/Client is client_address.rs, Security/Settings is
--             ip_blocking_config.rs, Security/Network is network.rs; Security/Blocking is the state of
--             ip_blocking.rs, with `record_client_protocol_violation` in Violation, `persist_pending` in
--             Persist, the rounds of `run_manager` in Manager, and all of them as one step relation in
--             Reach. Security/Persistence is the content of the state file of ip_blocking_persistence.rs,
--             with Cycle for a snapshot of the runtime that the next run loads, and
--             Security/Cloudflare are the lists of cloudflare.rs.
-- Config      src/config/mod.rs: a file for each of its sections, and Config/File for
--             `FileConfig::validate`, which checks them together. Config/Sample is a file of every section.
-- Tls         src/tls: Tls/Store is store.rs, with the discovery of the files, the index by name and the
--             check of a replacement, and the choice of resolver.rs.
-- Messages    src/gateway/websocket_message.rs: `MessageSequence` and `BoundedMessages`.
-- Acme        src/acme/http01.rs: the challenges and `handle_request`.
--
-- The loop of `HttpRouteTable::resolve` runs on fuel, one more than the length of the path: each round
-- cuts the candidate shorter, so that the fuel is never used up. All other loops are structural.
--
-- Threads: each critical section of ip_blocking.rs is one step. A violation is the step of its whole
-- call, and the part behind the lock of the pending table is also a step of its own, with any arguments,
-- since other threads may run between its two locks. The persistence task is two steps, its snapshot and
-- its commit. Locks that a crashed thread left unusable, clock readings and failing writes are arguments.
-- A counter is read and written at once.
--
-- Not modelled: sockets, the handshakes of TLS and HTTP, ACME orders, the relaying of bodies and of
-- WebSocket frames, the opening of upstream connections and the waits for them, the gRPC proxy, the download of the Cloudflare
-- networks, and logging, whose code is input and output around other crates. The deserialization of the
-- configuration file, the parsers of PEM and X.509, the format of the state file and the calls of the
-- file system are parameters. The wait of `run_manager` and its summary, and the swap of the certificate
-- index under its lock, are left out.
mod Prelude
pub mod Net
pub mod Http
pub mod Routing
pub mod Proxy
pub mod Grpc
pub mod Backends
pub mod Security
pub mod Config
pub mod Tls
pub mod Messages
pub mod Acme
