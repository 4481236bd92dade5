-- ===== src/Tests/SignalingRuns.antt =====
-- Runs of the peer-to-peer transport's signaling and of the guards of messages.
use nettprogg_vsc.Common.{
  Text, Option, String, List, [], ◌∷◌, true, false, not, ◌&&◌, none, some, str_eq, ◌≡◌, refl,
}
use nettprogg_vsc.Common.Json.{Json, no_field}
use nettprogg_vsc.Crdt.{CrdtOperation, TextCrdtSnapshot}
use nettprogg_vsc.Crdt.Serializer.{
  JsonRuntime, IsFaithful, of_operation, serialize_operation, parse_operation,
  parse_operation-serialize_operation,
}
use nettprogg_vsc.Transport.DataMessages.{P2PDataMessage}
use nettprogg_vsc.Transport.Guards.Signaling.{is_signaling_client_message, is_client_message, judge}
use nettprogg_vsc.Transport.Guards.Signaling.Separation.{
  ServerSends, ClientSends, of_server, of_client, expected_verdict, judge-of_server,
  guards-of_client,
}
use nettprogg_vsc.Transport.Interface.{PeerInfo}
use nettprogg_vsc.Transport.Signals.{description}
use nettprogg_vsc.Transport.Signaling.{
  SignalingClientMessage, SignalingServerMessage, P2PMeshTransportOptions, create, joined,
}
use nettprogg_vsc.Transport.Signaling.Opening.{Transport, ensure_mesh_peer}
use nettprogg_vsc.Transport.Signaling.Opening.Framing.{has}
use nettprogg_vsc.Transport.Signaling.Opening.Initiating.{has_channel, has_channel-ensure_mesh_peer}
use nettprogg_vsc.Transport.Signaling.Handling
use nettprogg_vsc.Transport.Signaling.Handling.{handle_signaling_message}
use nettprogg_vsc.Transport.Signaling.Handling.Growing.{listed}
use nettprogg_vsc.Transport.Signaling.Handling.Members.{Follows, handle_signaling_message-Follows}
use nettprogg_vsc.Transport.Signaling.Channels
use nettprogg_vsc.Transport.Signaling.Channels.{handle_data_message}
use nettprogg_vsc.Transport.Signaling.Channels.Sources.{Reports, handle_data_message-Reports}
use nettprogg_vsc.Transport.Signaling.Events.{
  Event, connecting, closing, socket_receives, channel_opens, channel_receives, step, run,
}
use nettprogg_vsc.Transport.Signaling.Events.Consistency.{IsWellKeyed, run-IsWellKeyed}
use nettprogg_vsc.Transport.Signaling.Events.Disposal.{has-closed}
use nettprogg_vsc.Tests.Doubles.{
  list_rtc, shut_rtc, shut_rtc-OpensLater, signaling_socket, first_compare,
  first_compare-IsSymmetric, deletion, text_module,
}

abbrev info : String → PeerInfo
info id = record { client_id = id; connected_at = 0 }

abbrev options : String → P2PMeshTransportOptions
options id = record {
  signaling_url = "ws://127.0.0.1:7072";
  room_id = "r";
  client_id = id;
  ice_servers = [];
}

abbrev infos : List PeerInfo
infos = info "a" ∷ info "b" ∷ info "c" ∷ []

abbrev joining : SignalingServerMessage
joining = joined "r" "a" infos

abbrev new : Transport list_rtc signaling_socket
new = record {
  options = options "a";
  signaling_socket = none;
  disposed = false;
  room_peers = [];
  mesh_peers = [];
  snapshot_chunks = [];
  reports = [];
  closed_peers = [];
}

handle_signaling_message-Follows_example :
    Follows list_rtc signaling_socket first_compare "failed" joining new
      (handle_signaling_message list_rtc signaling_socket first_compare "failed" 5 joining new)
handle_signaling_message-Follows_example =
    handle_signaling_message-Follows list_rtc signaling_socket first_compare "failed" 5 joining new
      (λ k found there. absurd (cc))

abbrev events : List (Event list_rtc signaling_socket)
events =
    connecting
    ∷ socket_receives 5 (Handling.valid joining)
    ∷ channel_opens "b"
    ∷ channel_receives 6 "b" (Channels.valid (P2PDataMessage.snapshot_request "c"))
    ∷ []

-- A session that refuses every snapshot
abbrev failing : Channels.Errors
failing = record { undecodable = "failed"; refusal = λ s. some "refused" }

run-IsWellKeyed_example : IsWellKeyed list_rtc signaling_socket (
    run list_rtc signaling_socket first_compare
      (λ s. [])
      (λ t. t)
      (λ t. none)
      "failed"
      failing
      events
      (create list_rtc signaling_socket (options "a")))
run-IsWellKeyed_example =
    run-IsWellKeyed list_rtc signaling_socket first_compare (λ s. []) (λ t. t) (λ t. none) "failed"
      failing events (options "a")

-- A snapshot in one chunk, which the session refuses
abbrev decoded : Text → Option TextCrdtSnapshot
decoded text = some (text_module.snapshot text)

abbrev chunk : P2PDataMessage
chunk =
    P2PDataMessage.snapshot_chunk "c"
      (record { snapshot_id = "s"; index = 0; total = 1; chunk = 7 ∷ [] })

handle_data_message-Reports_example :
    Reports list_rtc signaling_socket decoded failing "b" new (
      handle_data_message list_rtc signaling_socket decoded failing 6 "b"
        (Channels.valid chunk)
        new)
handle_data_message-Reports_example =
    handle_data_message-Reports list_rtc signaling_socket decoded failing "b" 6
      (Channels.valid chunk) new

abbrev fresh_at : String → Transport shut_rtc signaling_socket
fresh_at id = record {
  options = options id;
  signaling_socket = none;
  disposed = false;
  room_peers = [];
  mesh_peers = [];
  snapshot_chunks = [];
  reports = [];
  closed_peers = [];
}

has_channel-ensure_mesh_peer_example :
    has_channel shut_rtc signaling_socket first_compare "b"
      (ensure_mesh_peer shut_rtc signaling_socket first_compare (info "b") (fresh_at "a"))
    ≡ not (
        has_channel shut_rtc signaling_socket first_compare "a"
          (ensure_mesh_peer shut_rtc signaling_socket first_compare (info "a") (fresh_at "b")))
has_channel-ensure_mesh_peer_example =
    has_channel-ensure_mesh_peer shut_rtc signaling_socket first_compare first_compare
      shut_rtc-OpensLater first_compare-IsSymmetric (info "a") (info "b") (fresh_at "a")
      (fresh_at "b") refl refl refl refl (λ e. cc) refl

has-closed_example :
    has list_rtc signaling_socket "c" (
      step list_rtc signaling_socket first_compare
        (λ s. [])
        (λ t. t)
        (λ t. none)
        "failed"
        failing
        (socket_receives 5 (Handling.valid joining))
        (step list_rtc signaling_socket first_compare
          (λ s. [])
          (λ t. t)
          (λ t. none)
          "failed"
          failing
          closing
          new))
    ≡ (listed "c" infos && not (str_eq "c" "a"))
has-closed_example =
    has-closed list_rtc signaling_socket first_compare (λ s. []) (λ t. t) (λ t. none) "failed"
      failing 5 "r" "a" "c" infos new

abbrev offer : ServerSends
offer =
    ServerSends.signaling
      (SignalingServerMessage.signal "r" "b" "a" (description (118 ∷ []) "offer"))

judge-of_server_example :
    judge (of_server (λ t. "v") (λ op. no_field) offer) ≡ expected_verdict offer
judge-of_server_example = judge-of_server (λ t. "v") (λ op. no_field) offer

abbrev rolling : ClientSends
rolling =
    ClientSends.to_signaling
      (SignalingClientMessage.signal "r" "a" "b" (description (118 ∷ []) "rollback"))

guards-of_client_example :
    (is_signaling_client_message (of_client (λ t. "v") (λ op. no_field) rolling) ≡ true)
    × (is_client_message (of_client (λ t. "v") (λ op. no_field) rolling) ≡ false)
guards-of_client_example = guards-of_client (λ t. "v") (λ op. no_field) rolling

abbrev removal : CrdtOperation
removal = CrdtOperation.delete deletion

abbrev values : JsonRuntime
values = record { JsonText = Json; stringify = λ v. v; parse = λ v. some v }

abbrev values-IsFaithful : IsFaithful values
values-IsFaithful = record { parse-stringify = λ v plain. refl }

parse_operation-serialize_operation_example :
    parse_operation (λ t. "v") values (serialize_operation (λ t. "v") values removal)
    ≡ some (of_operation (λ t. "v") removal)
parse_operation-serialize_operation_example =
    parse_operation-serialize_operation (λ t. "v") values values-IsFaithful removal
