-- ===== src/Transport/Guards/Signaling/Separation.antt =====
-- src/shared/signalingMessages.ts and src/shared/messages.ts: the messages of the two kinds of server as
-- JSON values, and how the peer-to-peer transport tells them apart.
use nettprogg_vsc.Common.{
  String, Text, List, [], ◌∷◌, Bool, true, false, ◌||◌, if◌then◌else◌, str_eq, ◌≡◌, refl, arith,
}
use nettprogg_vsc.Common.Int.{pos}
use nettprogg_vsc.Crdt.{CrdtOperation}
use nettprogg_vsc.Common.Json.{
  Json, integer, text, array, object, Items, none_left, item, Fields, no_field, field,
}
use nettprogg_vsc.Transport.Guards.Signaling.{
  is_description_type, is_signaling_signal_payload, is_signaling_client_message, is_client_message,
  Verdict, of_relay, invalid, valid, judge,
}
use nettprogg_vsc.Transport.Interface.{PeerInfo}
use nettprogg_vsc.Transport.Relay.{ClientMessage, ServerMessage}
use nettprogg_vsc.Transport.Signals.{Signal, description, candidate}
use nettprogg_vsc.Transport.Signaling.{
  SignalingClientMessage, SignalingServerMessage, joined, peer_joined, peer_left,
}

abbrev of_peer : PeerInfo → Json
of_peer p = object (
    field "clientId" (text p.client_id)
      (field "connectedAt" (integer (pos p.connected_at)) no_field))

abbrev of_peers : List PeerInfo → Items
of_peers [] = none_left
of_peers (p ∷ ps) = item (of_peer p) (of_peers ps)

-- The five texts of `DescriptionType`
abbrev pub is_known : String → Bool
is_known kind =
    str_eq kind "offer"
    || (str_eq kind "answer"
        || (str_eq kind "pranswer" || (str_eq kind "rollback" || str_eq kind "unspec")))

abbrev pub has_known_kind : Signal → Bool
has_known_kind (description sdp kind) = is_known kind
has_known_kind (candidate c) = true

-- A message of either kind of server
pub data ServerSends : Type 0 where
  signaling : SignalingServerMessage → ServerSends
  relay : ServerMessage → ServerSends

abbrev pub expected_verdict : ServerSends → Verdict
expected_verdict (signaling (SignalingServerMessage.signal room_id id target payload)) =
    if has_known_kind payload then valid else invalid
expected_verdict (signaling _) = valid
expected_verdict (relay (ServerMessage.joined m)) = of_relay
expected_verdict (relay (ServerMessage.error message)) = valid
expected_verdict (relay _) = invalid

-- A message of either kind of client
pub data ClientSends : Type 0 where
  to_signaling : SignalingClientMessage → ClientSends
  to_relay : ClientMessage → ClientSends

-- What `isSignalingClientMessage` and `isClientMessage` should answer
abbrev pub expected_answers : ClientSends → Bool × Bool
expected_answers (to_signaling (SignalingClientMessage.join room_id client_id)) = (true, true)
expected_answers (to_signaling (SignalingClientMessage.signal room_id client_id target payload)) =
    (has_known_kind payload, false)
expected_answers (to_relay (ClientMessage.join room_id client_id)) = (true, true)
expected_answers (to_relay (ClientMessage.operation room_id client_id op)) = (false, true)

-- The texts of descriptions and candidates, and the objects of operations, are what the arguments make
-- of them.
module _ (shown : Text → String) (of_operation : CrdtOperation → Fields) where
  pub of_signal : Signal → Json
  of_signal (description sdp kind) = object (
      field "type" (text "description")
        (field "descriptionType" (text kind) (field "sdp" (text (shown sdp)) no_field)))
  of_signal (candidate c) = object (
      field "type" (text "candidate")
        (field "candidate" (text (shown c.candidate)) (field "mid" (text c.mid) no_field)))

  abbrev of_signal_message : String → String → String → Signal → Json
  of_signal_message room_id client_id target payload = object (
      field "type" (text "signal") (
        field "roomId" (text room_id) (
          field "clientId" (text client_id)
            (field "targetClientId" (text target) (field "signal" (of_signal payload) no_field)))))

  abbrev of_join : String → String → Json
  of_join room_id client_id = object (
      field "type" (text "join")
        (field "roomId" (text room_id) (field "clientId" (text client_id) no_field)))

  abbrev of_error : String → Json
  of_error message = object (field "type" (text "error") (field "message" (text message) no_field))

  pub of_signaling_client : SignalingClientMessage → Json
  unfolding of_signal
  of_signaling_client (SignalingClientMessage.join room_id client_id) = of_join room_id client_id
  of_signaling_client (SignalingClientMessage.signal room_id client_id target payload) =
      of_signal_message room_id client_id target payload

  pub of_signaling_server : SignalingServerMessage → Json
  unfolding of_signal
  of_signaling_server (joined room_id client_id infos) = object (
      field "type" (text "joined") (
        field "roomId" (text room_id)
          (field "clientId" (text client_id) (field "peers" (array (of_peers infos)) no_field))))
  of_signaling_server (peer_joined room_id info infos) = object (
      field "type" (text "peerJoined") (
        field "roomId" (text room_id)
          (field "peer" (of_peer info) (field "peers" (array (of_peers infos)) no_field))))
  of_signaling_server (peer_left room_id id infos) = object (
      field "type" (text "peerLeft") (
        field "roomId" (text room_id)
          (field "clientId" (text id) (field "peers" (array (of_peers infos)) no_field))))
  of_signaling_server (SignalingServerMessage.signal room_id id target payload) =
      of_signal_message room_id id target payload
  of_signaling_server (SignalingServerMessage.error message) = of_error message

  abbrev of_operations : List CrdtOperation → Items
  of_operations [] = none_left
  of_operations (op ∷ ops) = item (object (of_operation op)) (of_operations ops)

  abbrev of_operation_message : String → String → CrdtOperation → Json
  of_operation_message room_id client_id op = object (
      field "type" (text "operation") (
        field "roomId" (text room_id)
          (field "clientId" (text client_id) (field "op" (object (of_operation op)) no_field))))

  pub of_relay_client : ClientMessage → Json
  of_relay_client (ClientMessage.join room_id client_id) = of_join room_id client_id
  of_relay_client (ClientMessage.operation room_id client_id op) =
      of_operation_message room_id client_id op

  pub of_relay_server : ServerMessage → Json
  of_relay_server (ServerMessage.joined m) = object (
      field "type" (text "joined") (
        field "roomId" (text m.room_id) (
          field "clientId" (text m.client_id) (
            field "peers" (array (of_peers m.peers))
              (field "opLog" (array (of_operations m.op_log)) no_field)))))
  of_relay_server (ServerMessage.operation room_id client_id op) =
      of_operation_message room_id client_id op
  of_relay_server (ServerMessage.presence room_id infos) = object (
      field "type" (text "presence")
        (field "roomId" (text room_id) (field "peers" (array (of_peers infos)) no_field)))
  of_relay_server (ServerMessage.error message) = of_error message

  is_signaling_signal_payload_lem :
      (payload : Signal) → is_signaling_signal_payload (of_signal payload) ≡ has_known_kind payload
  unfolding is_signaling_signal_payload is_description_type of_signal
  is_signaling_signal_payload_lem (description sdp kind) = refl
  is_signaling_signal_payload_lem (candidate c) = refl

  pub of_server : ServerSends → Json
  unfolding of_signaling_server of_relay_server
  of_server (signaling m) = of_signaling_server m
  of_server (relay m) = of_relay_server m

  judge_signal :
      (room_id id target : String) (payload : Signal)
      → judge (of_signal_message room_id id target payload)
        ≡ (if has_known_kind payload then valid else invalid)
  unfolding judge is_signaling_client_message
  judge_signal room_id id target payload =
      rw (is_signaling_signal_payload_lem payload) (ground arith)

  -- What a transport in peer-to-peer mode makes of a message of a server: it takes every message of a
  -- signaling server, except a signal with an unknown kind of description, which is invalid; it knows
  -- a relay by its `joined`, holds its operations and presences for invalid, and takes its errors,
  -- which look like a signaling server's.
  pub judge-of_server : (m : ServerSends) → judge (of_server m) ≡ expected_verdict m
  unfolding judge of_server
  judge-of_server (signaling (joined room_id client_id infos)) = refl
  judge-of_server (signaling (peer_joined room_id info infos)) = refl
  judge-of_server (signaling (peer_left room_id id infos)) = refl
  judge-of_server (signaling (SignalingServerMessage.error message)) = refl
  judge-of_server (signaling (SignalingServerMessage.signal room_id id target payload)) =
      judge_signal room_id id target payload
  judge-of_server (relay (ServerMessage.joined m)) = refl
  judge-of_server (relay (ServerMessage.operation room_id client_id op)) = refl
  judge-of_server (relay (ServerMessage.presence room_id infos)) = refl
  judge-of_server (relay (ServerMessage.error message)) = refl

  pub of_client : ClientSends → Json
  unfolding of_signaling_client of_relay_client
  of_client (to_signaling m) = of_signaling_client m
  of_client (to_relay m) = of_relay_client m

  -- The guard of each kind of client message takes what such a client sends, except a signal with an
  -- unknown kind of description. A `join` passes both guards, and no other message passes the guard
  -- of the other kind.
  pub guards-of_client :
      (m : ClientSends)
      → (is_signaling_client_message (of_client m) ≡ (expected_answers m).0)
        × (is_client_message (of_client m) ≡ (expected_answers m).1)
  unfolding is_signaling_client_message is_client_message of_client
  guards-of_client (to_signaling (SignalingClientMessage.join room_id client_id)) = (refl, refl)
  guards-of_client (to_signaling (SignalingClientMessage.signal room_id client_id target payload)) =
      (is_signaling_signal_payload_lem payload, refl)
  guards-of_client (to_relay (ClientMessage.join room_id client_id)) = (refl, refl)
  guards-of_client (to_relay (ClientMessage.operation room_id client_id op)) = (refl, refl)
