-- ===== src/Extension/Session/Spreading.antt =====
-- src/extension/sessionManager.ts over src/transport/p2pMeshTransport.ts: an edit in a peer-to-peer
-- session reaches every peer.
use Prim.Native.Nat.{Ordering}
use nettprogg_vsc.Common.{String, Text, List, [], ◌∷◌, none, some, ◌≡◌, map}
use nettprogg_vsc.Common.Dict.{lookup}
use nettprogg_vsc.Crdt.{CrdtOperation, TextCrdtSnapshot}
use nettprogg_vsc.Crdt.Replica.{WasmModule}
use nettprogg_vsc.Transport.DataMessages.{operation}
use nettprogg_vsc.Transport.Interface.{CollaborationTransport}
use nettprogg_vsc.Transport.Mesh.Keys.{IsKeyed}
use nettprogg_vsc.Transport.Peer.{MeshPeer}
use nettprogg_vsc.Transport.Rtc.{Rtc, TakesMessages}
use nettprogg_vsc.Transport.Snapshots.Sending.{HasGot}
use nettprogg_vsc.Transport.Sockets.{SocketLibrary}
use nettprogg_vsc.Transport.Signaling.{SignalingClientMessage}
use nettprogg_vsc.Transport.Signaling.Opening.{Transport}
use nettprogg_vsc.Transport.Signaling.Adapter.{p2p_transport}
use nettprogg_vsc.Extension.Session.{SessionConfig, Manager, send_operation}

module _ (wasm : WasmModule) (rtc : Rtc) (law : TakesMessages rtc)
    (ws : SocketLibrary SignalingClientMessage) (compare : String → String → Ordering)
    (to_json : TextCrdtSnapshot → Text) (base64 : Text → Text)
    (snapshot_id : Transport rtc ws → String) (ice_servers : List String) where
  abbrev pub net : CollaborationTransport
  net = p2p_transport rtc ws compare to_json base64 snapshot_id ice_servers

  abbrev M : Type 0
  M = Manager wasm net

  -- A session with a transport whose mesh is keyed by names
  pub record Meshed (m : M) (s : SessionConfig) (t : Transport rtc ws) : Type 0 where
    pub in_session : m.session ≡ some s
    pub has_transport : m.transport ≡ some t
    pub keyed : IsKeyed rtc t.mesh_peers

  -- The transport after an operation was sent
  abbrev sent_on : CrdtOperation → Transport rtc ws → Transport rtc ws
  sent_on op t = (net.send_operation t op none).1

  -- The transport after some operations were sent
  sent_all_on : List CrdtOperation → Transport rtc ws → Transport rtc ws
  sent_all_on [] t = t
  sent_all_on (op ∷ ops) t = sent_all_on ops (sent_on op t)

  -- The session's transport has a peer of that name, whose stream has got the operations.
  abbrev pub Reaches :
      String → MeshPeer rtc → String → List CrdtOperation → SessionConfig → M → Type 0
  Reaches client_id peer k ops s m =
      (u : Transport rtc ws) × Meshed m s u
      × HasGot rtc law peer (map (operation client_id) ops) (lookup k u.mesh_peers)
