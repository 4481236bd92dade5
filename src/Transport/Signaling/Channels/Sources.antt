-- ===== src/Transport/Signaling/Channels/Sources.antt =====
-- src/transport/p2pMeshTransport.ts, `handleDataMessage`: whom the session is told a message is from.
use nettprogg_vsc.Common.{
  ℕ, String, Text, List, [], ◌∷◌, ◌++◌, append_assoc, Bool-cases, Option-cases, Option, none, some,
  str_eq, ◌≡◌, refl, append-nil, All, inl, inr, ◌⊎◌,
}
use nettprogg_vsc.Crdt.{TextCrdtSnapshot}
use nettprogg_vsc.Transport.Chunks.{handle_snapshot_chunk}
use nettprogg_vsc.Transport.DataMessages.{
  P2PDataMessage, hello, operation, snapshot_request, snapshot, snapshot_chunk,
}
use nettprogg_vsc.Transport.Interface.{
  Report, on_joined, on_presence, on_operation, on_snapshot_request, on_snapshot,
  on_peer_channel_open, on_close, on_error,
}
use nettprogg_vsc.Transport.Rtc.{Rtc}
use nettprogg_vsc.Transport.Sockets.{SocketLibrary}
use nettprogg_vsc.Transport.Signaling.{SignalingClientMessage}
use nettprogg_vsc.Transport.Signaling.Opening.{Transport}
use nettprogg_vsc.Transport.Signaling.Channels.{
  Errors, Inbound, unparsed, invalid, valid, report_snapshot, report_complete, take_chunk,
  handle_message, handle_data_message,
}

-- The report is an error, or an event that names the peer as its source.
abbrev pub IsFrom : String → Report → Type 0
IsFrom id (on_operation event) = event.source_client_id ≡ some id
IsFrom id (on_snapshot event) = event.source_client_id ≡ some id
IsFrom id (on_snapshot_request source) = source ≡ id
IsFrom id (on_error text) = Unit
IsFrom id (on_joined event) = ⊥
IsFrom id (on_presence peers) = ⊥
IsFrom id (on_peer_channel_open peer) = ⊥
IsFrom id on_close = ⊥

module _ (rtc : Rtc) (ws : SocketLibrary SignalingClientMessage)
    (decode : Text → Option TextCrdtSnapshot) (errors : Errors) (id : String) where
  -- The session is told nothing, or one thing, or a snapshot and the error with which it refused it.
  abbrev pub IsOneAnswer : List Report → Type 0
  IsOneAnswer news =
      (news ≡ [])
      ⊎ (((r : Report) × (news ≡ r ∷ []))
          ⊎ ((state : TextCrdtSnapshot) × (text : String) × (errors.refusal state ≡ some text)
              × (news
                  ≡ on_snapshot (record { snapshot = state; source_client_id = some id })
                    ∷ on_error text
                    ∷ [])))

  -- What came was reported, if at all, as from the peer, and the mesh and the room are as before.
  pub record Reports (t u : Transport rtc ws) : Type 0 where
    pub news : List Report
    pub added : u.reports ≡ t.reports ++ news
    pub from_peer : All (IsFrom id) news
    pub one_answer : IsOneAnswer news
    pub mesh_same : u.mesh_peers ≡ t.mesh_peers
    pub room_same : u.room_peers ≡ t.room_peers

  silent :
      (t u : Transport rtc ws)
      → u.reports ≡ t.reports
      → u.mesh_peers ≡ t.mesh_peers
      → u.room_peers ≡ t.room_peers
      → Reports t u
  silent t u r m p = record {
    news = [];
    added = rw (append-nil, r);
    from_peer = tt;
    one_answer = inl refl;
    mesh_same = m;
    room_same = p;
  }

  one :
      (r : Report) (t u : Transport rtc ws)
      → IsFrom id r
      → u.reports ≡ t.reports ++ r ∷ []
      → u.mesh_peers ≡ t.mesh_peers
      → u.room_peers ≡ t.room_peers
      → Reports t u
  one r t u h e m p = record {
    news = r ∷ [];
    added = e;
    from_peer = (h, tt);
    one_answer = inr (inl (r, refl));
    mesh_same = m;
    room_same = p;
  }

  report_complete-Reports :
      (o : Option Text) (t u : Transport rtc ws)
      → u.reports ≡ t.reports
      → u.mesh_peers ≡ t.mesh_peers
      → u.room_peers ≡ t.room_peers
      → Reports t (report_complete rtc ws decode errors o id u)
  report_complete-Reports none t u r m p = silent t u r m p
  report_complete-Reports (some encoded) t u r m p = decoded (decode encoded)
    where
      decoded :
          (o : Option TextCrdtSnapshot) → Reports t (report_snapshot rtc ws decode errors o id u)
      decoded none = one (on_error errors.undecodable) t _ tt (rw r) m p
      decoded (some state) = elim (Option-cases (errors.refusal state)) [
        | inl taken ↦ rw taken (
            one (on_snapshot (record { snapshot = state; source_client_id = some id })) t _ refl
              (rw r) m p)
        | inr (text, refused) ↦ rw refused (record {
          news =
              on_snapshot (record { snapshot = state; source_client_id = some id })
              ∷ on_error text
              ∷ [];
          added = rw (r, append_assoc);
          from_peer = (refl, (tt, tt));
          one_answer = inr (inr (state, text, refused, refl));
          mesh_same = m;
          room_same = p;
        })
      ]

  handle_message-Reports :
      (now : ℕ) (message : P2PDataMessage) (t : Transport rtc ws)
      → Reports t (handle_message rtc ws decode errors now id message t)
  unfolding handle_message take_chunk
  handle_message-Reports now (hello client_id) t = elim (Bool-cases (str_eq client_id id)) [
    | inl same ↦ rw same (silent t t refl refl refl)
    | inr other ↦ rw other (one (on_error _) t _ tt refl refl refl)
  ]
  handle_message-Reports now (operation client_id op) t =
      one (on_operation _) t _ refl refl refl refl
  handle_message-Reports now (snapshot_request client_id) t =
      one (on_snapshot_request id) t _ refl refl refl refl
  handle_message-Reports now (snapshot client_id state) t =
      one (on_snapshot _) t _ refl refl refl refl
  handle_message-Reports now (snapshot_chunk client_id chunk) t =
      let r = handle_snapshot_chunk now id chunk t.snapshot_chunks in
      report_complete-Reports r.1 t (record t { snapshot_chunks = r.0 }) refl refl refl

  -- Whatever comes over the channel to a peer, the session is told at most one thing: an error, or
  -- an operation, a snapshot or a request with that peer as its source, whatever client the message
  -- itself names; only where it refuses a snapshot that came in chunks is it told that error as well.
  -- The mesh and the room do not change.
  pub handle_data_message-Reports :
      (now : ℕ) (inbound : Inbound) (t : Transport rtc ws)
      → Reports t (handle_data_message rtc ws decode errors now id inbound t)
  unfolding handle_data_message
  handle_data_message-Reports now (unparsed text) t = one (on_error text) t _ tt refl refl refl
  handle_data_message-Reports now invalid t = one (on_error _) t _ tt refl refl refl
  handle_data_message-Reports now (valid message) t = handle_message-Reports now message t
