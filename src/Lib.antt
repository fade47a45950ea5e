-- ===== src/Lib.antt =====
-- Verification of TrapChat's JavaScript: the job worker (services/worker) and the web client
-- (apps/trapchat/src): its connection, media transfer, encryption and peer connections, the hooks
-- that keep the state of its page, and what the page does with rooms and messages.
--
-- The worker takes jobs over HTTP into a queue; its manager takes them off one at a time, runs them,
-- and puts those that fail back with a backoff or among the dead letters. The client talks to the
-- gateway over a WebSocket, keeps what cannot be sent, and reconnects. Files go over it in sealed
-- chunks; the keys they are sealed with are rotated. The page joins rooms over the client, seals what
-- is typed and sends it to a peer or over the client, and shows what comes, once the room has its key.
--
-- Worker/Queue       services/worker/src/queue.js: the items and the dead letters as lists, the
--                    latest last; the clock and `randomUUID` are arguments
-- Worker/Manager     services/worker/src/manager.js: `#poll` is cut where it waits, and each
--                    operation is one run of it; Events has the histories of such runs
-- Worker/RateLimit, Worker/Auth, Worker/Results, Worker/Server
--                    services/worker/src/index.js: `checkRateLimit`, `checkAuth`, `trackResult` and
--                    the handler of requests over one state; Bounded has the eviction they share;
--                    Worker/Shutdown has the process around them
-- Worker/Jobs, Worker/Rooms
--                    services/worker/src/worker.js: the two cases of `processJob`, cutting a file up and
--                    cleaning rooms, with the gateway as a record of its answers
-- Socket             apps/trapchat/src/socket/client.js: State has the client as a record, Client one function per
--                    method and handler, Listeners its registry; `sent` and `emitted` are what it sent and said
-- Media              apps/trapchat/src/lib/media.js: Send cuts a file into chunks; Assembler puts the
--                    chunks together, with its transfers on a heap (Transfer has one of them); Mime and
--                    FileName check what a sender claims
-- Crypto             apps/trapchat/src/lib/crypto.js: Cipher has the encryption over a record of what
--                    the browser gives, Rotator the rotation of keys as runs between its awaits
-- Webrtc             apps/trapchat/src/lib/webrtc.js: Peer has one connection with its candidates, Tracks its media, Mesh
--                    the map of connections
-- Hooks              apps/trapchat/src/hooks, a module per hook: Rooms (messages and unread counts),
--                    RoomKeys (`setupRoomKey`) and Links (the fragment of a share link) are of
--                    useRoomManager.js; Typing has the timers of useTypingIndicator.js by the times
--                    at which they are due; KeyRotation and MediaTransfer use the rotator and the
--                    assembler above; WebrtcMesh has the election of who offers; CallManager the
--                    local stream of a call
-- App                apps/trapchat/src/App.jsx: Inbox has the branches of its listener for presence,
--                    chat and receipts, cut where a key is derived and where a message is decrypted; Chat
--                    what a message that comes becomes; Outbox `sendMessage`; Session `handleJoinRoom` and `leaveRoom` over the
--                    client, with the active room that the listeners were made with; Status the status line;
--                    Names the names that it makes up; Remaining the time left of ChatView.jsx
-- Prelude            lists, options, tests and maps in the order of insertion (JsMap)
-- Examples, Worker/Jobs/Examples, Worker/Server/Examples
--                    runs of the theorems at concrete inputs
--
-- What the language and the platform give is a parameter: the digest, `new URL`, `dns.lookup`,
-- base64, UTF-8, JSON, WebCrypto, random ids, the clock and the jitter. A parameter's documented
-- behaviour is a hypothesis where a theorem needs it (a digest without collisions, a coding that
-- decodes).
--
-- Loops: the eviction of dead letters and the search of `dequeue` are structural; `split` runs on
-- the number of bytes as fuel, `clean_batches` on the number of rooms, and `drain` on the tries left;
-- the loop of `sendMedia` on the rounds that are left; each has a theorem that this is
-- enough. Numbers are unbounded; times are in milliseconds and delays are whole.
--
-- Not modelled: logging of the worker; the events of a socket that a newer
-- `connect` has replaced; the clipboard, QR codes, notifications, canvases and the views; the
-- callbacks for progress, and Blob; the gateway (Go) and the relay (Rust). React is modelled by what
-- its states hold: an update of a state is a function of the state before it.
pub mod Prelude
pub mod Worker
pub mod Socket
pub mod Media
pub mod Crypto
pub mod Webrtc
pub mod Hooks
pub mod App
pub mod Examples
