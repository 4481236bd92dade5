-- ===== src/Transport/Rtc.antt =====
-- What the peer-to-peer transport takes from outside: the library node-datachannel, and the
-- runtime's JSON and Buffer.
use nettprogg_vsc.Common.{ℕ, String, Text, List, [], ◌∷◌, ◌++◌, Bool, true, false, Option, ◌≡◌, ◌⊎◌}
use nettprogg_vsc.Transport.DataMessages.{P2PDataMessage}

-- `DataChannel` and `PeerConnection`. A call that mutates returns the new object; `none` is a
-- thrown error.
pub record Rtc : Type 1 where
  pub Channel : Type 0
  pub Connection : Type 0
  pub is_open : Channel → Bool
  pub max_message_size : Channel → ℕ
  pub buffered_amount : Channel → ℕ
  pub send_message : Channel → Text → Bool × Channel
  pub close_channel : Channel → Channel
  pub close_connection : Connection → Connection
  pub connect_peer : String → List String → Connection
  pub create_data_channel : Connection → String → Channel
  pub set_remote_description : Connection → Text → String → Option Connection
  pub has_remote_description : Connection → Bool
  pub add_remote_candidate : Connection → Text → String → Option Connection
  -- `JSON.stringify` of a message, and `Buffer.byteLength` of the result
  pub stringify : P2PDataMessage → Text
  pub byte_length : Text → ℕ

-- What is relied on: a channel takes a message for which `sendMessage` returns true, behind those
-- that it has taken, and passes them on in that order. Where it returns false, the message was
-- buffered; whether the channel then has it is left open. The limit does not change by sending.
pub record TakesMessages (rtc : Rtc) : Type 0 where
  pub history : rtc.Channel → List Text
  pub history-sent :
      (channel : rtc.Channel) (payload : Text)
      → (rtc.send_message channel payload).0 ≡ true
      → history (rtc.send_message channel payload).1 ≡ history channel ++ payload ∷ []
  pub history-buffered :
      (channel : rtc.Channel) (payload : Text)
      → (rtc.send_message channel payload).0 ≡ false
      → (history (rtc.send_message channel payload).1 ≡ history channel ++ payload ∷ [])
        ⊎ (history (rtc.send_message channel payload).1 ≡ history channel)
  pub max_message_size-send :
      (channel : rtc.Channel) (payload : Text)
      → rtc.max_message_size (rtc.send_message channel payload).1 ≡ rtc.max_message_size channel
