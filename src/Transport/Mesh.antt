-- ===== src/Transport/Mesh.antt =====
-- src/transport/p2pMeshTransport.ts: messages to one peer of the mesh and to all of them.
pub mod Broadcast
pub mod Keys
use nettprogg_vsc.Common.{
  String, List, [], ◌∷◌, Bool, true, false, not, ◌||◌, Option, none, some, if◌then◌else◌, str_eq,
  map, filter,
}
use nettprogg_vsc.Common.Dict.{Dict, lookup, insert, keys, values}
use nettprogg_vsc.Common.Sort.{sort}
use nettprogg_vsc.Crdt.{CrdtOperation}
use nettprogg_vsc.Transport.Rtc.{Rtc}
use nettprogg_vsc.Transport.DataMessages.{P2PDataMessage, operation, snapshot_request}
use nettprogg_vsc.Transport.Peer.{MeshPeer, send_to_peer}

-- `peerId !== exceptClientId`
abbrev pub is_excepted : Option String → String → Bool
is_excepted none id = false
is_excepted (some except) id = str_eq id except

module _ (rtc : Rtc) where
  abbrev pub Peers : Type 0
  Peers = Dict (MeshPeer rtc)

  abbrev send_found : Option (MeshPeer rtc) → String → P2PDataMessage → Peers → Bool × Peers
  send_found none id message peers = (false, peers)
  send_found (some peer) id message peers =
      let r = send_to_peer rtc peer message in (r.0, insert id r.1 peers)

  -- `sendDataMessage`: the peer is changed where it stands in the map.
  pub send_data_message : String → P2PDataMessage → Peers → Bool × Peers
  send_data_message id message peers = send_found (lookup id peers) id message peers

  -- The loop of `broadcastDataMessage`, with what `sent` is so far
  pub broadcast_loop : List String → P2PDataMessage → Option String → Bool → Peers → Bool × Peers
  unfolding send_data_message
  broadcast_loop [] message except sent peers = (sent, peers)
  broadcast_loop (id ∷ ids) message except sent peers =
      if is_excepted except id
      then broadcast_loop ids message except sent peers
      else (let r = send_data_message id message peers in
          broadcast_loop ids message except (r.0 || sent) r.1)

  -- `localeCompare(a, b) > 0`
  module _ (locale_after : String → String → Bool) where
    -- `broadcastDataMessage`
    pub broadcast_data_message : P2PDataMessage → Option String → Peers → Bool × Peers
    unfolding broadcast_loop
    broadcast_data_message message except peers =
        broadcast_loop (sort locale_after (keys peers)) message except false peers

    -- `sendOperation`, of a client with the given id
    pub send_operation : String → CrdtOperation → Option String → Peers → Bool × Peers
    unfolding broadcast_data_message
    send_operation client_id op except peers =
        broadcast_data_message (operation client_id op) except peers

    -- `connectedPeerIds`
    pub connected_peer_ids : Peers → List String
    connected_peer_ids peers =
        sort locale_after (map (λ p. p.client_id) (filter (λ p. p.channel_open) (values peers)))

    abbrev ask_first : List String → P2PDataMessage → Peers → Bool × Peers
    ask_first [] message peers = (false, peers)
    ask_first (id ∷ ids) message peers = send_data_message id message peers

    -- `requestSnapshot`, of a client with the given id
    pub request_snapshot : String → Option String → Peers → Bool × Peers
    unfolding send_data_message connected_peer_ids
    request_snapshot client_id none peers =
        ask_first (connected_peer_ids peers) (snapshot_request client_id) peers
    request_snapshot client_id (some id) peers =
        if str_eq id ""
        then ask_first (connected_peer_ids peers) (snapshot_request client_id) peers
        else send_data_message id (snapshot_request client_id) peers
