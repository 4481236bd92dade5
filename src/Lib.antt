-- ===== src/Lib.antt =====
-- A verification library for LiveShare Lite, an extension of VS Code with which several people
-- edit one document. Paths below are from the repository's root.
--
-- The program's parts. `src/extension/sessionManager.ts` owns the replica of the text and a
-- transport. An edit in the editor goes through `src/extension/documentAdapter.ts`, which turns it
-- into operations of the replica, and on to the transport; operations and snapshots from others go
-- into the replica, whose text is then rendered into the document. The replica is
-- `src/crdt/textCrdt.ts` around a compiled Rust module. A transport implements
-- `src/transport/types.ts`; that for peers, `src/transport/p2pMeshTransport.ts`, keeps a queue for
-- each peer and sends large snapshots in chunks. `src/extension/localRustServer.ts` runs a local
-- server and reads its output by lines.
--
-- Which file models what:
--   Crdt               the types of src/crdt/types.ts and src/crdt/textCrdt.ts
--   Crdt/Replica       TextCrdt.insert and delete; the compiled module is the parameter WasmModule
--   Transport/Interface, Transport/DataMessages
--                      src/transport/types.ts and the types of src/transport/p2pDataMessages.ts
--   Transport/Rtc      what node-datachannel and the runtime provide, as a parameter
--   Transport/Chunks   the cutting of snapshots, handleSnapshotChunk, cleanupSnapshotChunks
--   Transport/Peer     sendDataMessage, flushPeerQueue, trySendDataMessage and the flush timer
--   Transport/Mesh     sendDataMessage by name, broadcastDataMessage, sendOperation, requestSnapshot
--   Transport/Snapshots        sendSnapshot: one message, or chunks
--   Transport/Signals  applySignal and flushRemoteCandidates
--   Transport/Signaling        P2PMeshTransport as a whole: its fields, sendSignaling and sendSignal
--   Transport/Signaling/Opening    connect, close, ensureMeshPeer, attachDataChannel, closeMeshPeer
--   Transport/Signaling/Handling   the messages of the signaling socket, handleSignalingMessage
--   Transport/Signaling/Channels   handleDataMessage and the callbacks of channels and connections
--   Transport/Signaling/Events     all that may happen to such a transport, as events
--   Transport/Signaling/Adapter    the transport as a session sees it
--   Transport/Guards   isP2PDataMessage, on JSON values
--   Transport/Guards/Signaling     the guards of src/shared/signalingMessages.ts and
--                      src/shared/messages.ts, and isLikelyRelayServerMessage
--   Transport/Relay    RelayTransport
--   Transport/Sockets  what the library ws provides, as a parameter
--   Crdt/Serializer    src/crdt/serializer.ts; JSON is the parameter JsonRuntime
--   Extension/LineListener     attachLineListener of src/extension/localRustServer.ts
--   Extension/LocalServer      the choice of a server's command, and its fields
--   Extension/LocalServer/Announcement   the port in a line: the regular expression of start
--   Extension/LocalServer/Starting, Extension/LocalServer/Stopping
--                      start and stop: their promises, timers and listeners, as events
--   Extension/DocumentAdapter  changesToOperations and applyTextChanges
--   Extension/Session  the fields of SessionManager and its private helpers for sending
--   Extension/Session/Handlers (with Joining and Editing)
--                      the handlers of transport events, local edits, rendering, leaving, connecting
--   Extension/Session/Events   all of these as events, and sequences of them
--   Extension/Session/Opening, Extension/Settings
--                      startSession and joinSession, and the settings that they read
--   Extension/ServerCommands   startLocalRustServer and forceShutdown
--   Extension/StatusBar        setState of src/extension/statusBar.ts
--   Common             shared types, tests, lists, integers, sorting, dictionaries and JSON values
--   Tests              runs at concrete inputs, with stand-ins for the parameters
--
-- How it is modelled. Text is a list of UTF-16 code units. An operation takes a state and returns
-- the next; an error is a value (`Outcome`, `Run`, `Option`). The transport of a session is a
-- record of operations with a state of its own, so that what is proved of a session holds over any
-- transport. An asynchronous handler is cut where it awaits a render: the rest of it is a
-- `Continuation` that is kept with the render in the queue, and other events may come between.
-- The peers' flush timer, the reconnection timer and the timers of a server's start and stop are
-- flags, and their ends are events. What a library does to its own objects is an event that puts any
-- value in their place. A call of a transport's handlers is an entry of a list of reports.
--
-- Fuel. Only `drain` of Extension/LineListener has fuel, the buffer's length and one more; each
-- round takes a code unit out, so the loop ends for want of a line break. All other loops are over
-- lists.
--
-- What the theorems take for granted, as records of laws: that a replica that is current edits its
-- text as a list (`EditsText`; current means that no element has a counter above its own, which
-- need not hold after remote operations, and only texts without surrogates are meant, as
-- the replica counts characters), that a transport has accepted what it says it has (`Accepts`,
-- which the relay transport fills), that a channel takes in order what it does not buffer, and may
-- or may not have taken what it buffers (`TakesMessages`), that an open socket sends in order
-- (`IsOrdered`), that a connection that throws no error keeps the candidates that it is given
-- (`TakesSignals`), that decoding UTF-8 begins anew where a character begins (`DecodesUtf8`), that
-- a dialog gives back no answer that its test refuses (`IsValidating`), that a channel is not open
-- yet where it is created (`OpensLater`), that comparing two names the other way round gives
-- the opposite (`IsSymmetric`), and that JSON reads what it has written (`IsFaithful`).
--
-- Not modelled: drawing, dialogs and logging of the editor; an edit of the document that
-- throws instead of answering false; sockets; the printing and parsing of JSON, and base64; the
-- callbacks of a peer's connection and channel after the peer was closed; what happens to a
-- peer-to-peer transport while its session awaits in a handler; the debug output and the demo of
-- `SessionManager`; the loading of the compiled replica; the Rust crates.
mod Common
mod Tests
pub mod Crdt
pub mod Transport
pub mod Extension
