-- ===== src/Tests/TransportRuns.antt =====
-- Runs of the chunks and of a peer's queue.
use nettprogg_vsc.Common.{
  cond, ◌++◌, Text, List, [], ◌∷◌, true, false, some, none, ◌≡◌, refl, arith, ◌<◌,
}
use nettprogg_vsc.Common.Dict.{lookup}
use nettprogg_vsc.Transport.Chunks.{chunk_key, chunk_count}
use nettprogg_vsc.Transport.Chunks.Delivery.{receive_all, receive_all_lem}
use nettprogg_vsc.Transport.DataMessages.{P2PDataMessage}
use nettprogg_vsc.Transport.Peer.{
  MeshPeer, exceeds, try_on, try_found, try_send_data_message, settle_send, send_open, send_to_peer,
}
use nettprogg_vsc.Transport.Peer.Queue.{stream}
use nettprogg_vsc.Transport.Peer.Buffering.{send_to_peer_buffered}
use nettprogg_vsc.Transport.Peer.Progress.{
  Progresses, send_to_peer-Progresses, IsRefused, send_to_peer_refusal,
}
use nettprogg_vsc.Crdt.{CrdtOperation}
use nettprogg_vsc.Transport.Relay.{RelayTransport, create, connect, send_operation}
use nettprogg_vsc.Transport.Relay.Delivery.{accepted_on, send_operation-accepted}
use nettprogg_vsc.Transport.Peer.{RemoteCandidate}
use nettprogg_vsc.Transport.Signals.{
  description, candidate, add_all, flush_remote_candidates, apply_signal, apply_signals,
}
use nettprogg_vsc.Transport.Signals.Ordering.{
  succeeds, candidates_of, IsFlushed, known, apply_signals-known,
}
use nettprogg_vsc.Transport.Mesh.{Peers, broadcast_data_message}
use nettprogg_vsc.Transport.Mesh.Broadcast.{broadcast_data_message_lem}
use nettprogg_vsc.Crdt.{TextCrdtSnapshot}
use nettprogg_vsc.Common.{◌↔◌}
use nettprogg_vsc.Common.Json.{no_field}
use nettprogg_vsc.Transport.Guards.{is_p2p_data_message}
use nettprogg_vsc.Transport.Guards.Acceptance.{to_json, HasIndex, is_p2p_data_message_iff}
use nettprogg_vsc.Common.Repeats.{Repeats}
use nettprogg_vsc.Tests.Doubles.{
  buffering_rtc, buffering_rtc-TakesMessages, list_rtc-TakesSignals, list_rtc, list_socket,
  list_socket-IsOrdered, deletion,
}

abbrev encoded : Text
encoded = 7 ∷ 8 ∷ 9 ∷ []

positive : 0 < 2
positive = omega arith

-- Three code units in chunks of two: the second chunk comes first.
receive_all_lem_example :
    ((receive_all 2 encoded positive "b" "s" ((5, 1) ∷ (6, 0) ∷ []) []).1 ≡ encoded ∷ [])
    × (lookup
          (chunk_key "b" "s")
          (receive_all 2 encoded positive "b" "s" ((5, 1) ∷ (6, 0) ∷ []) []).0
        ≡ none)
unfolding chunk_count
receive_all_lem_example =
    receive_all_lem 2 encoded positive "b" "s" (5, 1) ((6, 0) ∷ []) [] refl
      (omega arith, (omega arith, tt)) ((λ e. omega (arith, e), tt), (tt, tt)) (omega arith, tt)
      refl

abbrev greeting : P2PDataMessage
greeting = P2PDataMessage.hello "a"

abbrev request : P2PDataMessage
request = P2PDataMessage.snapshot_request "a"

-- A peer on an open channel, with messages that wait
abbrev peer : List P2PDataMessage → MeshPeer list_rtc
peer queued = record {
  client_id = "b";
  connected_at = 0;
  peer_connection = ([], false);
  data_channel = some [];
  channel_open = true;
  flush_timer = false;
  queued_messages = queued;
  pending_candidates = [];
  too_large = 0;
}

-- A peer on an open channel that buffers what it takes, with a message that waits
abbrev buffering_peer : MeshPeer buffering_rtc
buffering_peer = record {
  client_id = "b";
  connected_at = 0;
  peer_connection = ([], false);
  data_channel = some [];
  channel_open = true;
  flush_timer = false;
  queued_messages = request ∷ [];
  pending_candidates = [];
  too_large = 0;
}

abbrev idle_peer : MeshPeer buffering_rtc
idle_peer = record buffering_peer { queued_messages = [] }

send_to_peer_buffered_example :
    let r = send_to_peer buffering_rtc idle_peer greeting in
    (r.0 ≡ true)
    × (stream buffering_rtc buffering_rtc-TakesMessages r.1.data_channel r.1.queued_messages
        ≡ (1 ∷ []) ∷ (1 ∷ []) ∷ [])
unfolding exceeds
send_to_peer_buffered_example =
    send_to_peer_buffered buffering_rtc buffering_rtc-TakesMessages idle_peer [] greeting refl refl
      refl refl refl refl

send_to_peer-Progresses_example :
    Progresses list_rtc (send_to_peer list_rtc (peer (request ∷ [])) greeting).1
send_to_peer-Progresses_example =
    send_to_peer-Progresses list_rtc (peer (request ∷ [])) greeting refl

send_to_peer_refusal_example :
    IsRefused list_rtc (peer []) request (send_to_peer list_rtc (peer []) request)
unfolding send_to_peer send_open settle_send try_send_data_message try_found try_on exceeds
send_to_peer_refusal_example = send_to_peer_refusal list_rtc (peer []) request refl

-- A relay transport whose socket is open
abbrev relay : RelayTransport list_socket
relay = connect list_socket (create list_socket "ws://localhost" "r" "a")

abbrev removal : CrdtOperation
removal = CrdtOperation.delete deletion

send_operation-accepted_example :
    let r = send_operation list_socket removal relay in
    accepted_on list_socket list_socket-IsOrdered r.1.socket
    ≡ cond r.0
        (accepted_on list_socket list_socket-IsOrdered relay.socket ++ removal ∷ [])
        (accepted_on list_socket list_socket-IsOrdered relay.socket)
send_operation-accepted_example =
    send_operation-accepted list_socket list_socket-IsOrdered relay removal

-- The description comes between two candidates.
abbrev early : RemoteCandidate
early = record { candidate = 1 ∷ []; mid = "0" }

abbrev late : RemoteCandidate
late = record { candidate = 2 ∷ []; mid = "0" }

apply_signals-known_example :
    let peer' =
      apply_signals list_rtc
        (candidate early ∷ description [] "offer" ∷ candidate late ∷ [])
        (peer []) in
    (known list_rtc list_rtc-TakesSignals peer' ≡ early ∷ late ∷ [])
    × IsFlushed list_rtc list_rtc-TakesSignals peer'
unfolding candidates_of succeeds apply_signal flush_remote_candidates add_all
apply_signals-known_example =
    apply_signals-known list_rtc list_rtc-TakesSignals
      (candidate early ∷ description [] "offer" ∷ candidate late ∷ []) (peer []) (λ h. refl) refl

-- Two peers; the message came from the second.
abbrev mesh : Peers list_rtc
mesh = ("b", peer []) ∷ ("c", peer []) ∷ []

broadcast_data_message_lem_example :
    lookup "b" (broadcast_data_message list_rtc (λ a b. false) greeting (some "c") mesh).1
    ≡ some (send_to_peer list_rtc (peer []) greeting).1
broadcast_data_message_lem_example =
    broadcast_data_message_lem list_rtc greeting (λ a b. false) (some "c") mesh "b"
      (refl, (refl, tt))

-- A snapshot whose JSON text is short
abbrev state : TextCrdtSnapshot
state = record {
  replica_id = "a";
  counter = 0;
  elements = [];
  seen_op_ids = [];
  pending_inserts = [];
  pending_deletes = [];
}

is_p2p_data_message_iff_example :
    (is_p2p_data_message (to_json (λ t. "x") (λ o. no_field) (λ s. no_field) greeting) ≡ true)
    ↔ HasIndex (λ t. "x") (λ o. no_field) (λ s. no_field) greeting
is_p2p_data_message_iff_example =
    is_p2p_data_message_iff (λ t. "x") (λ o. no_field) (λ s. no_field) greeting
