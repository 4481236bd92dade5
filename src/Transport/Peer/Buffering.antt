-- ===== src/Transport/Peer/Buffering.antt =====
-- src/transport/p2pMeshTransport.ts, `sendDataMessage`: a message that the channel buffers.
use nettprogg_vsc.Common.{
  [], ◌∷◌, ◌++◌, true, false, ◌&&◌, some, sym, ◌≡◌, refl, ap, ◌∙◌, append_assoc,
}
use nettprogg_vsc.Transport.Rtc.{Rtc, TakesMessages}
use nettprogg_vsc.Transport.DataMessages.{P2PDataMessage}
use nettprogg_vsc.Transport.Peer.{
  MeshPeer, channel_is_open, exceeds, is_ready, try_on, try_found, try_send_data_message, send_open,
  send_to_peer, settle_send,
}
use nettprogg_vsc.Transport.Peer.Queue.{stream, payloads}

module _ (rtc : Rtc) (law : TakesMessages rtc) where
  -- A message that is sent to a ready peer for which nothing waits, which is not above the limit, and
  -- which its channel takes while `sendMessage` returns false, as for a message that was buffered:
  -- sending answers true, and the other side gets the message twice.
  pub send_to_peer_buffered :
      (peer : MeshPeer rtc) (channel : rtc.Channel) (message : P2PDataMessage)
      → peer.data_channel ≡ some channel
      → is_ready rtc peer ≡ true
      → peer.queued_messages ≡ []
      → exceeds rtc (rtc.max_message_size channel) message ≡ false
      → (rtc.send_message channel (rtc.stringify message)).0 ≡ false
      → law.history (rtc.send_message channel (rtc.stringify message)).1
        ≡ law.history channel ++ rtc.stringify message ∷ []
      → let r = send_to_peer rtc peer message in
        (r.0 ≡ true)
        × (stream rtc law r.1.data_channel r.1.queued_messages
            ≡ law.history channel ++ rtc.stringify message ∷ rtc.stringify message ∷ [])
  unfolding send_to_peer send_open settle_send try_send_data_message try_found try_on stream
      payloads
  send_to_peer_buffered peer channel message there ready empty small buffered taken =
      let payload = rtc.stringify message in
      let ready_on : (peer.channel_open && rtc.is_open channel) ≡ true =
        ap (λ o. peer.channel_open && channel_is_open rtc o) (sym there) ∙ ready in
      rw
        (
          ready,
          empty,
          there,
          ready_on,
          small,
          buffered,
          law.max_message_size-send channel payload,
          small,
          taken,
          append_assoc,
        )
        (refl, refl)
