-- ===== src/Lib.antt =====
-- PulseChat: the WebSocket gateway, its database, the chat server, and the web client.
--
-- The program. Browsers speak JSON over WebSockets to the gateway (gateway/src/server.ts). For each
-- browser the gateway holds a TCP connection to the chat server, over which both speak binary
-- frames (gateway/src/pcap.ts; src/core/protocol.cpp in the server), and it keeps users, rooms and messages in a database that is one
-- JSON file (gateway/src/db.ts). A second TCP connection asks the chat server for metrics. What the
-- clients see is sent as JSON events: frames, presence, histories, metrics and telemetry. The hook
-- of the web client (frontend/src/hooks/usePulseChat.ts) keeps what came of them, and the components
-- (frontend/src/App.tsx, frontend/src/components/) show it and hand the user's actions to the hook.
--
-- The files.
--   Base        shared names, Boolean tests, lists over native numbers; `slice_last n` is the
--               `slice(-n)` of the source, which is the whole list for n = 0.
--   Text        JavaScript strings as lists of UTF-16 code units, with `trim`, `toLowerCase`,
--               `===`, `startsWith` and `includes`. Lower case is exact below U+0100; any other
--               unit stands for itself. White space is complete.
--   Utf8        the encoder and the decoder behind `Buffer`, lone surrogates and ill-formed bytes
--               included.
--   Dict        `Map` and plain objects keyed by texts: the order of keys of each, and the names
--               that an object inherits from `Object.prototype` (`read` finds `inherited`).
--   Pcap        `encodeFrame` (`encode_frame`) and `PCAPParser` (`push`, `clear`); `parse_frame` is
--               one round of the loop of `push`. Pcap/Codes: `MessageType`. Pcap/Steps: rounds.
--               Pcap/Stream: chunks. Pcap/RoundTrip: messages.
--   Db          `PulseDatabase`: Db/Users, Db/Rooms and Db/Messages have a function for each
--               method, named after it; children state what it does. Db/Evolution: what all keep.
--   Gateway     the sessions, the presence map and what is sent (`outbox`). Gateway/Actions: the
--               `message` handler, a function for each case of its `switch`. Gateway/Sockets: the
--               other handlers of a client. Gateway/Metrics: the poller. Gateway/Rooms:
--               `getEnrichedRooms`. Gateway/Step: all events in any order. Gateway/Privacy, Access,
--               Valid, Presence and Roster: what the handlers guarantee.
--   Server      the chat server (src/core/, src/reactor/). Server/Wire: protocol.cpp. Server/Buffer:
--               `ByteBuffer`, with Buffer/Refinement and Buffer/Frames. Server/IdMap: the unordered
--               containers. Server/Rooms: `RoomManager`; Rooms/Consistent and Rooms/Naming: its
--               tables. Server/Connection: `ReactorConnection`; Connection/Flush: what it sends.
--               Server/Reactor: the handlers of `ReactorServer`; Reactor/Messages: what frames do, and
--               Reactor/Reading how they come. Reactor/Close: closing ends. Reactor/Kept: what all
--               handlers keep, and Reactor/Sound what that is. Reactor/Drain: reading ends.
--               Reactor/Delivery: who hears what.
--   Client      the hook `usePulseChat` (frontend/src/hooks/usePulseChat.ts, frontend/src/types.ts).
--               Client/Messages: `appendMessage` and the histories. Client/Frames: `onmessage`.
--               Client/Commands: what the user does. Client/Connection: the socket, its timers and
--               `localStorage`. Client/Patterns: the regular expressions. Client/Step: all events
--               in any order, and what holds of them: Step/Kept and Step/Foreign for what leaves an
--               item of `localStorage` alone, Step/Reconnection for the timers, Step/Accounts for the
--               messages of an account. Client/Rejoin: the hook and the gateway.
--   Ui          the components. Ui itself: App.tsx, Header.tsx and the timer of Toast.tsx (Toasts).
--               Ui/Feed and Ui/Composer: ChatArea.tsx, its messages and its input line;
--               Feed/Delivered and Feed/Heard take a message from the gateway to the feed.
--               Ui/Sidebar and Ui/Peers: Sidebar.tsx, its forms and its lists; Sidebar/Lockout and
--               Sidebar/Reentry put them together with the hook and the gateway.
--               Ui/Registration: RegistrationModal.tsx; Registration/Token: where its token comes
--               from, and main.tsx. Ui/Panel: ObservabilityPanel.tsx.
--
-- Bounds and fuel. The loop of `push` has the buffer's length for its fuel: each round but the last
-- takes a byte off, and Pcap/Steps shows that more fuel changes nothing. A string has fewer than
-- 2^30 units, so the 32 bits of a frame's length are enough for what the encoder writes. In the chat
-- server `handle_close` has the number of connections for its fuel, which is enough since each closing
-- takes one away, and the loop over the frames of a connection one turn more than its bytes; when that
-- fuel is gone it says `starved`, and Reactor/Drain/Reads shows that it never does. A loop that goes on
-- with a connection that was freed says `dangling`. Sizes are below 2^64.
--
-- What stands for the outside. A handler takes one reading of the clocks and of the random number
-- (`World`), and whether the file can be written; the parser takes the times of its frames. JSON
-- texts are not modelled: a message comes parsed, or not at all if the text is no JSON, with its
-- fields texts or missing; the numbers of the metrics are the texts that JSON has for them; and
-- `parse`, an argument, reads the metrics. A WebSocket or TCP socket appears as the calls that are
-- made on it. Logging, the HTTP health page, the environment variables and the texts of socket
-- errors are left out. The hook takes the gateway's events as they are sent, each rendered before the
-- next comes, with the effects that write to `localStorage` run after each; `valid` is an argument,
-- the URLs that a WebSocket takes.
--
-- In the chat server the kernel's answers to `::send` (`Host`), the bytes that `::recv` gives, the
-- descriptors that `::accept` gives, the clock, and the text of the counters are arguments. The order of
-- its unordered containers is that of insertion. Its calls follow each other: the reactor has one
-- thread, and the lock of `RoomManager` does the same. What the kernel has taken from a connection is
-- kept beside it (`sent`), which the code does not do.
--
-- The components. What a component shows is a value, with the texts, the flags and the colours that
-- depend on the state; a handler takes the state of the component, and the client where it calls the
-- hook. `localStorage` holds typed items in place of JSON texts, and `current[key] = value` does
-- nothing for `__proto__`. A caret is a number of units, or missing; `replace` reads `$` in a name as
-- JavaScript does. The whole numbers of the panel are natural numbers, and `toFixed` of a fraction is
-- an argument (`Fixed`). The answer of Google, and what `URLSearchParams` finds in an address, are
-- arguments. The dimensions of the window that Google is opened in are left out.
--
-- Not modelled. Markup and style, and the sounds of frontend/src/utils/audio.ts, which only call the
-- browser; of the chat server the start, the dispatcher over epoll (src/reactor/epoll_dispatcher.cpp),
-- the counters (src/core/metrics.cpp), whose rates are floating point, and the older server
-- (src/classic/); the terminal client (src/client/); the scripts that drive the servers (tools/), and
-- the configuration.
pub mod Base
pub mod Text
pub mod Utf8
pub mod Pcap
pub mod Dict
pub mod Db
pub mod Gateway
pub mod Server
pub mod Client
pub mod Ui
