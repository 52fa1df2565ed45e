-- ===== src/Lib.antt =====
-- accel-proxy: a proxy that carries HTTP and TCP traffic between access, relay and egress nodes
-- over tunnels, and pushes requests and streams to edge nodes over multiplexed connections.
--
-- The parts, and the files that model them (paths of the repository on the right):
--   Common, Common/*         shared tests, lists, integers, maps and the sort written out in place
--   Wire, Wire/*             big-endian words, io.ReadFull and io.Writer
--   Mux/Frame                internal/mux/muxproto/frame.go: WriteTo, ReadFrame
--   Mux/Pipe                 internal/mux/muxproto/pipe.go: StreamPipe
--   Mux/Stream               internal/mux/muxproto/stream.go: Stream, windowTracker,
--                            WindowUpdateReader
--   Mux/Flow                 the body of a request end to end: SendBodyWithFlowControl, OnData,
--                            WindowUpdateReader and OnWindowUpdate, with its end, a reset and the
--                            removal of the stream, as a step relation
--   Mux/Server               internal/mux/server/session.go: EdgeSession
--   Mux/Client, Mux/Dispatch internal/mux/client/session.go and http_request_stream.go:
--                            EdgeClientSession, dispatchLoop
--   Mux/Requests             internal/mux/server/server.go: Server, handleEdge, the handler of
--                            /dispatch/
--   MuxHttp/Frame            internal/mux_http/muxproto/frame.go: the frame of the other multiplexer
--   MuxHttp/Buffer           internal/mux_http/server/streambuf.go: StreamBuffer
--   MuxHttp/Registry         internal/mux_http/server/registry.go: StreamRegistry
--   MuxHttp/Subscriptions    internal/mux_http/server/registry.go: SubscriptionTable
--   MuxHttp/Nodes            internal/mux_http/server/registry.go: NodeRegistry
--   MuxHttp/Receive          internal/mux_http/client/buffer.go: RecvBuffer
--   MuxHttp/Messages         internal/mux_http/muxproto/frame.go: frame types and messages
--   MuxHttp/Sender           internal/mux_http/server/session.go: streamSendState, startSender
--   MuxHttp/Session          internal/mux_http/server/session.go: EdgeSession, readLoop
--   MuxHttp/Broker           internal/mux_http/server/push.go: PushBroker, onAck, trimAll
--   MuxHttp/Registration     internal/mux_http/server/push.go: HandleEdgeConn, Push
--   MuxHttp/Requests         internal/mux_http/server/httpproxy.go: HTTPProxyBroker
--   MuxHttp/Client           internal/mux_http/client/session.go: EdgeClientSession
--   MuxHttp/Delivery         one push stream end to end: the origin's buffer, the sender, the edge,
--                            its consumer, acknowledgements and reconnection, as a step relation, as long as
--                            the registrations of the edge find the entry of the stream
--   Config, Config/*         internal/config/config.go: the types, validation, the order of hops
--   Tunnel/HopPool           internal/tunnel/hop_pool.go and dialer.go: HopPool, the selectors,
--                            DialWithFallback
--   Tunnel/Handshake         internal/tunnel/protocol.go, auth.go and server.go: the handshake
--   Tunnel/Transport         internal/tunnel/transport.go: Transport
--   Node/Relay, Node/Egress, Node/Access
--                            internal/node/relay.go, egress.go and access.go
--   Proxy                    internal/proxy/l7.go: mutateRequest, the end of handleHTTP
--
-- A frame is read from and written to a connection (Wire); a session (Mux/Server) gives the frames
-- of a stream to it (Mux/Stream), which moves payloads through its pipes (Mux/Pipe). The server
-- (Mux/Requests) picks the session that a request goes to, and the edge at the other end of the
-- connection (Mux/Client, Mux/Dispatch) gives each frame to its request or its push stream. A dialer
-- (Tunnel/HopPool) asks its pool for hops, which the configuration (Config) lists. A stream of the
-- push multiplexer is found in the registry (MuxHttp/Registry) and kept in a buffer
-- (MuxHttp/Buffer); the broker (MuxHttp/Broker) has a session for each edge (MuxHttp/Session), which
-- sends the streams that the edge has subscribed to (MuxHttp/Sender) and hands HTTP responses to
-- the requests that wait (MuxHttp/Requests). A tunnel begins with a handshake (Tunnel/Handshake) and
-- goes from an access node over relays to an egress node (Node).
--
-- How the model stands to the code: a method is a function from the state to the state and its
-- results, under the lock that it takes; a wait on a condition variable or a channel is a result of
-- its own, and what happens meanwhile is the next call. Goroutines that run side by side are steps
-- of a relation, or calls in a sequence, in any order. A pointer that is shared is a reference into
-- a store. Go maps are association lists, and nothing stated depends on the order of a `range`.
-- Integers of 32 bits, and the `uint64` counter of the round-robin selector, wrap as written. Byte
-- offsets and windows, which are `int64` in the code, are unbounded numbers: that they stay below 2^63
-- is assumed. `int` values of the configuration are integers.
--
-- Parameters: net/http's header functions (Proxy.Http), encoding/json (Mux.Stream.Json,
-- Mux.Server.Messages, Mux.Client.Messages, MuxHttp.Messages.Codec), the HMAC of a handshake,
-- whether a write to a connection succeeds, floating point (Tunnel.HopPool.Float), and what a dial
-- and handshake answers (the argument `tries`).
--
-- Fuel: the `write_loop`s and `append_loop` have one round for each byte, and each round moves one byte
-- at least; `search_loop` has one for each place of the range, which each round shrinks; `digits`
-- has one for each unit of the number, which each round divides by ten.
--
-- Not modelled: reading configuration files, sockets, WebSocket and TLS, HTTP handlers and
-- clients, timers (pings and probes), logging, copying the bodies of requests and
-- responses over HTTP, relaying between sockets in the proxies, and the commands.
pub mod Common
pub mod Wire
pub mod Mux
pub mod Config
pub mod MuxHttp
pub mod Tunnel
pub mod Node
pub mod Proxy
