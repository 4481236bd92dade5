-- ===== src/Transport/Guards/Signaling.antt =====
-- src/shared/signalingMessages.ts: the guards of the signaling messages; src/shared/messages.ts: that of
-- the relay's; src/transport/p2pMeshTransport.ts: how a message of the signaling socket is judged.
pub mod Separation
use nettprogg_vsc.Common.{String, Bool, true, false, not, ◌&&◌, ◌||◌, if◌then◌else◌}
use nettprogg_vsc.Common.Json.{Json, is_array, get, is_object, is_string, is_text, is_truthy}

-- `isDescriptionType`
pub is_description_type : Json → Bool
is_description_type v =
    is_text "offer" v
    || (is_text "answer" v
        || (is_text "pranswer" v || (is_text "rollback" v || is_text "unspec" v)))

-- `isSignalingSignalPayload`
pub is_signaling_signal_payload : Json → Bool
unfolding is_description_type
is_signaling_signal_payload v =
    if not (is_object v)
    then false
    else if is_text "description" (get "type" v)
    then is_string (get "sdp" v) && is_description_type (get "descriptionType" v)
    else if is_text "candidate" (get "type" v)
    then is_string (get "candidate" v) && is_string (get "mid" v)
    else false

-- `isSignalingClientMessage`
pub is_signaling_client_message : Json → Bool
unfolding is_signaling_signal_payload
is_signaling_client_message v =
    if not (is_object v)
    then false
    else if is_text "join" (get "type" v)
    then is_string (get "roomId" v) && is_string (get "clientId" v)
    else if is_text "signal" (get "type" v)
    then is_string (get "roomId" v)
      && (is_string (get "clientId" v)
          && (is_string (get "targetClientId" v) && is_signaling_signal_payload (get "signal" v)))
    else false

-- `isSignalingServerMessage`
pub is_signaling_server_message : Json → Bool
unfolding is_signaling_client_message
is_signaling_server_message v =
    if not (is_object v)
    then false
    else if is_text "joined" (get "type" v)
    then is_string (get "roomId" v) && (is_string (get "clientId" v) && is_array (get "peers" v))
    else if is_text "peerJoined" (get "type" v)
    then is_string (get "roomId" v) && (is_truthy (get "peer" v) && is_array (get "peers" v))
    else if is_text "peerLeft" (get "type" v)
    then is_string (get "roomId" v) && (is_string (get "clientId" v) && is_array (get "peers" v))
    else if is_text "signal" (get "type" v)
    then is_signaling_client_message v
    else if is_text "error" (get "type" v)
    then is_string (get "message" v)
    else false

-- `isLikelyRelayServerMessage`
pub is_likely_relay_server_message : Json → Bool
is_likely_relay_server_message v =
    if not (is_object v) then false else is_text "joined" (get "type" v) && is_array (get "opLog" v)

-- messages.ts, `isClientMessage`
pub is_client_message : Json → Bool
is_client_message v =
    if not (is_object v)
    then false
    else if is_text "join" (get "type" v)
    then is_string (get "roomId" v) && is_string (get "clientId" v)
    else if is_text "operation" (get "type" v)
    then is_string (get "roomId" v) && (is_string (get "clientId" v) && is_truthy (get "op" v))
    else false

-- What the signaling socket's message event makes of a value
pub data Verdict : Type 0 where
  of_relay invalid valid : Verdict

pub judge : Json → Verdict
unfolding is_signaling_server_message is_likely_relay_server_message
judge v =
    if is_likely_relay_server_message v
    then of_relay
    else if not (is_signaling_server_message v)
    then invalid
    else valid
