-- ===== src/Transport/Relay.antt =====
-- src/transport/relayTransport.ts and src/shared/messages.ts: the transport over a relay server.
pub mod Delivery
use nettprogg_vsc.Common.{
  String, List, [], ◌∷◌, ◌++◌, Bool, true, false, not, Option, none, some, ◌≡◌, if◌then◌else◌, map,
  filter, str_eq,
}
use nettprogg_vsc.Crdt.{CrdtOperation, TextCrdtSnapshot}
use nettprogg_vsc.Transport.Sockets.{SocketLibrary}
use nettprogg_vsc.Transport.Interface.{
  PeerInfo, JoinedEvent, CollaborationTransport, Report, on_joined, on_presence, on_operation,
  on_error, on_close,
}

-- messages.ts, `ClientMessage`
pub data ClientMessage : Type 0 where
  join : String → String → ClientMessage
  operation : String → String → CrdtOperation → ClientMessage

-- messages.ts, `ServerMessage`
pub record JoinedMessage : Type 0 where
  pub room_id : String
  pub client_id : String
  pub peers : List PeerInfo
  pub op_log : List CrdtOperation

pub data ServerMessage : Type 0 where
  joined : JoinedMessage → ServerMessage
  operation : String → String → CrdtOperation → ServerMessage
  presence : String → List PeerInfo → ServerMessage
  error : String → ServerMessage

module _ (ws : SocketLibrary ClientMessage) where
  -- The fields of `RelayTransport` and its options, and the sockets on which `close` was called
  pub record RelayTransport : Type 0 where
    pub server_url : String
    pub room_id : String
    pub client_id : String
    pub socket : Option ws.Socket
    pub disposed : Bool
    pub closed_sockets : List ws.Socket

  -- The constructor
  pub create : String → String → String → RelayTransport
  create server_url room_id client_id = record {
    server_url = server_url;
    room_id = room_id;
    client_id = client_id;
    socket = none;
    disposed = false;
    closed_sockets = [];
  }

  -- `connect`
  unfoldable pub connect : RelayTransport → RelayTransport
  connect t = record t { disposed = false; socket = some (ws.open_socket t.server_url) }

  -- `this.socket?.close()`: what it adds to the sockets that were closed
  abbrev pub close_on : Option ws.Socket → List ws.Socket
  close_on none = []
  close_on (some socket) = ws.close_socket socket ∷ []

  -- `close`; the socket is closed and forgotten.
  pub close : RelayTransport → RelayTransport
  close t = record t {
    disposed = true;
    socket = none;
    closed_sockets = t.closed_sockets ++ close_on t.socket;
  }

  -- `sendRaw`, by the socket
  abbrev pub send_on : Option ws.Socket → ClientMessage → RelayTransport → Bool × RelayTransport
  send_on none message t = (false, t)
  send_on (some socket) message t =
      if ws.is_open socket
      then (true, record t { socket = some (ws.send_message socket message) })
      else (false, t)

  unfoldable pub send_raw : ClientMessage → RelayTransport → Bool × RelayTransport
  send_raw message t = send_on t.socket message t

  -- `sendOperation`
  unfoldable pub send_operation : CrdtOperation → RelayTransport → Bool × RelayTransport
  unfolding send_raw
  send_operation op t = send_raw (ClientMessage.operation t.room_id t.client_id op) t

  -- The socket's events `open` and `close`
  pub socket_opened : RelayTransport → RelayTransport
  unfolding send_raw
  socket_opened t = (send_raw (join t.room_id t.client_id) t).1

  pub socket_closed : RelayTransport → Option Report
  socket_closed t = if not t.disposed then some on_close else none

  -- `handleMessage`
  pub handle_message : ServerMessage → RelayTransport → Report
  handle_message (error message) t = on_error message
  handle_message (presence room_id peers) t = on_presence peers
  handle_message (joined message) t = on_joined (record {
    room_id = message.room_id;
    client_id = message.client_id;
    peers = message.peers;
    existing_peer_ids =
        filter (λ id. not (str_eq id t.client_id)) (map (λ p. p.client_id) message.peers);
    op_log = message.op_log;
  })
  handle_message (operation room_id client_id op) t =
      on_operation (record { op = op; source_client_id = some client_id })

  -- The transport as a session sees it. `SessionManager.createTransport` makes it, and it has
  -- neither `requestSnapshot` nor `sendSnapshot`.
  abbrev pub relay_transport : CollaborationTransport
  relay_transport = record {
    State = RelayTransport;
    connect = λ mode server_url room_id client_id. connect (create server_url room_id client_id);
    close = close;
    send_operation = λ t op except. send_operation op t;
    request_snapshot = λ t provider. (false, t);
    send_snapshot = λ t client_id snapshot. (false, t);
  }
