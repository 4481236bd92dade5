-- ===== src/Transport/Signaling/Adapter.antt =====
-- src/transport/p2pMeshTransport.ts as a `CollaborationTransport`; `SessionManager.createTransport`
-- makes it.
use Prim.Native.Nat.{Ordering}
use nettprogg_vsc.Common.{String, Text, List, Bool}
use nettprogg_vsc.Crdt.{TextCrdtSnapshot}
use nettprogg_vsc.Transport.Interface.{CollaborationTransport}
use nettprogg_vsc.Transport.Mesh.{Peers, send_operation, request_snapshot}
use nettprogg_vsc.Transport.Rtc.{Rtc}
use nettprogg_vsc.Transport.Snapshots.{send_snapshot}
use nettprogg_vsc.Transport.Sockets.{SocketLibrary}
use nettprogg_vsc.Transport.Signaling.{SignalingClientMessage, is_after, create}
use nettprogg_vsc.Transport.Signaling.Opening.{Transport, connect, close}

-- `snapshot_id` is what the clock and the random numbers make of an identifier, and `ice_servers` the
-- servers that are configured.
module _ (rtc : Rtc) (ws : SocketLibrary SignalingClientMessage)
    (compare : String → String → Ordering) (to_json : TextCrdtSnapshot → Text)
    (base64 : Text → Text) (snapshot_id : Transport rtc ws → String)
    (ice_servers : List String) where
  abbrev put_mesh : Bool × Peers rtc → Transport rtc ws → Bool × Transport rtc ws
  put_mesh r t = (r.0, record t { mesh_peers = r.1 })

  -- The transport as a session sees it
  abbrev pub p2p_transport : CollaborationTransport
  p2p_transport = record {
    State = Transport rtc ws;
    connect = λ mode url room_id client_id. connect rtc ws (
        create rtc ws (record {
          signaling_url = url;
          room_id = room_id;
          client_id = client_id;
          ice_servers = ice_servers;
        }));
    close = close rtc ws;
    send_operation = λ t op except.
        put_mesh (send_operation rtc (is_after compare) t.options.client_id op except t.mesh_peers)
          t;
    request_snapshot = λ t provider.
        put_mesh (request_snapshot rtc (is_after compare) t.options.client_id provider t.mesh_peers)
          t;
    send_snapshot = λ t client_id state.
        put_mesh
          (send_snapshot rtc to_json base64 t.options.client_id client_id state (snapshot_id t)
            t.mesh_peers)
          t;
  }
