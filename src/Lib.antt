-- ===== src/Lib.antt =====
-- A model of ezsockets, a library for websocket servers and clients.
--
-- A connection is a `Socket`: a task that writes to the websocket (the sink actor), one that reads
-- it (the stream actor) and one that pings the partner (the heartbeat). A server has one actor
-- task, which takes new connections, the ends of sessions, calls and shutdown requests from four
-- channels; each session it accepts is an actor task of its own. A client is one actor task, which
-- owns the socket and connects anew when it is lost. The parts exchange messages through channels;
-- a message carries a signal, shared with its sender, that says what became of it.
--
-- Files, and the code that they model:
--   Base, Error: shared names, and the error types of src/lib.rs.
--   Socket/CloseCode, Message, Signal: the data of src/socket.rs and `MessageSignal`, a cell in a store
--     that the message and its sender point to. A drop is a call of its own.
--   Socket/Sink, Stream, Heartbeat: `SinkActor::run`, `StreamActor::run` and `socket_heartbeat` of
--     src/socket.rs. What each `select!` yields is a list of events.
--   Socket/Closing: `Socket::await_sink_close`, and the task of `Socket::new` that feeds it.
--   Socket/Tasks: all tasks of `Socket::new` among their channels, a step relation.
--   Tungstenite: src/tungstenite_common.rs.
--   Handle: `text`, `binary` and `close` of `Session` (src/session.rs) and `Client` (src/client.rs).
--   Session: `SessionActor::run` of src/session.rs; Session/Closing is the task of `Session::create` and
--     `await_close`, Session/Calls `call` and `call_with`, which servers and clients have too.
--     Session/System is the actor among its handles and channels, in any interleaving.
--   Server: a round of `ServerActor::run` and `watch_for_shutdown` of src/server.rs; Server/System is
--     the actor among its channels and session tasks, a step relation over every interleaving, and
--     Server/Sessions the task of one session, Server/Callers `graceful_shutdown`. Server/Service is the
--     service that it offers, with a bag of sessions and no channels.
--   Client, Client/Connect, Client/Actor: `ClientConfig`, `client_connect` and `ClientActor` of
--     src/client.rs. Client/System is the task of `connect_with` among the client's handles, in any
--     interleaving.
--   Text, Upgrade: the handshake of src/server_runners/axum_tungstenite.rs, with what it uses of the
--     standard library's texts.
--   Request: the builder methods of `ClientConfig` and `connect_http_request` of src/client.rs, and the
--     requests that the server runners rebuild.
--   Wasm: the conversions of src/client_connectors/client_connector_wasm.rs.
--   Connectors: `connect` of both files of src/client_connectors/.
--   Runner: the acceptor and the accept loop of src/server_runners/tungstenite.rs and `Server::accept`.
--   Axum: src/server_runners/axum.rs, and the task that `on_upgrade` of axum_tungstenite.rs spawns.
--   Chat: the server of examples/chat-server/src/main.rs, an extension over Server/System, and in
--     Chat/Lines and Chat/Member its sessions, extensions over Session.
--   Counter: the session of examples/counter-server/src/main.rs, an extension over Session.
--   Echo: the handlers of examples/echo-server and examples/echo-server-graceful-shutdown, extensions
--     over Session.
--   Typing: the handlers of examples/simple-client/src/main.rs, an extension over Client/Actor.
--   Wire: a sink actor, the websocket between, a stream actor and a session, put together.
--   Broadcast: the server, the sessions and the route of examples/chat-server-axum/src/main.rs.
-- A child module such as Server/Drain holds theorems, a module Examples concrete runs.
--
-- Loops run over the events so far, by recursion on their list, so that no fuel is needed; a
-- result `none` says that the loop waits for the next event. Numbers are unbounded naturals, with
-- the wrap of a usize written out where the code adds to one; the counter of attempts is not
-- wrapped, as it grows once per attempt. The step that takes a connection asks for room in a
-- usize. Durations and times are nanoseconds. The search of the chats for a free id tries all ids
-- that a u8 or a u16 has, and gives none if all are taken, where the code panics or searches on.
--
-- Third-party code is an argument: the channels (a function that tells whether the message was
-- taken), the websocket's sink, the connector (a list of what it answers), the clock, the URL, the
-- hash and the base64 encoding, the checks of a header value, and the user's extensions, whose
-- handlers are pure functions of their state that return a new state and a result.
--
-- Not modelled: the wiring of channels and tasks in `Server::create` and `connect`, the proxy of the
-- browser's websocket and the setters of axum_tungstenite.rs, which hand on to third-party code,
-- tracing, what the `main` functions of the examples read and print, the chat clients, whose
-- handlers only print, and the tests.
pub mod Base
pub mod Error
pub mod Socket
pub mod Tungstenite
pub mod Handle
pub mod Session
pub mod Server
pub mod Client
pub mod Text
pub mod Upgrade
pub mod Request
pub mod Wasm
pub mod Runner
pub mod Axum
pub mod Chat
pub mod Counter
pub mod Broadcast
pub mod Connectors
pub mod Typing
pub mod Wire
pub mod Echo
