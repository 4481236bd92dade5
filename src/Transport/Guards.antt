-- ===== src/Transport/Guards.antt =====
-- src/transport/p2pDataMessages.ts, `isP2PDataMessage`: what a peer accepts as a message. JSON values
-- stand for what `JSON.parse` gives.
pub mod Acceptance
pub mod Signaling
use nettprogg_vsc.Common.{
  ℕ, String, List, [], ◌∷◌, Bool, true, false, not, ◌&&◌, ◌||◌, if◌then◌else◌, str_eq, ◌==◌,
}
use nettprogg_vsc.Common.Json.{
  Json, integer, get, is_object, is_string, is_text, is_integer, is_truthy,
}
use nettprogg_vsc.Common.Int.{ℤ, pos, ltb_ℤ, leb_ℤ}

-- `Number(a) >= 0`, `Number(b) > 0` and `Number(a) < Number(b)`, of which the source has made sure
-- that they are integers
abbrev pub is_within : Json → Json → Bool
is_within (integer a) (integer b) = leb_ℤ (pos 0) a && (ltb_ℤ (pos 0) b && ltb_ℤ a b)
is_within _ _ = false

-- The test of a `snapshot-chunk`
pub is_chunk : Json → Bool
is_chunk m =
    is_string (get "clientId" m)
    && (is_string (get "snapshotId" m)
        && (is_integer (get "index" m)
            && (is_integer (get "total" m)
                && (is_within (get "index" m) (get "total" m) && is_string (get "chunk" m)))))

-- `isP2PDataMessage`
pub is_p2p_data_message : Json → Bool
unfolding is_chunk
is_p2p_data_message m =
    if not (is_object m)
    then false
    else if is_text "hello" (get "type" m) || is_text "snapshot-request" (get "type" m)
    then is_string (get "clientId" m)
    else if is_text "operation" (get "type" m)
    then is_string (get "clientId" m) && is_truthy (get "op" m)
    else if is_text "snapshot" (get "type" m)
    then is_string (get "clientId" m) && is_truthy (get "snapshot" m)
    else if is_text "snapshot-chunk" (get "type" m)
    then is_chunk m
    else false
