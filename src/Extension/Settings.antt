-- ===== src/Extension/Settings.antt =====
-- src/extension/sessionManager.ts: the settings that a session takes from the editor's configuration,
-- `configuredTransportMode`, `configuredIceServers` and the URLs of `promptConnectionUrl`.
use Prim.Native.Char.{Char, code}
use Prim.Native.String.append
use nettprogg_vsc.Common.{
  String, List, [], ◌∷◌, Bool, true, false, not, ◌&&◌, ◌||◌, ◌==◌, if◌then◌else◌, str_eq,
  str_append, Char-path, ◌⊎◌, inl, inr, Bool-cases, ◌≡◌, sym, ◌∙◌, arith, ◌↔◌, eq_iff,
}
use nettprogg_vsc.Common.Json.{Json, text, array, Items, none_left, item}
use nettprogg_vsc.Transport.Interface.{TransportMode, relay, p2p}

-- The section `liveshareLite` of the configuration, defaults put in by the editor
pub record Settings : Type 0 where
  pub transport_mode : String
  pub signaling_url : String
  pub server_url : String
  pub ice_servers : Json

-- `configuredTransportMode`
pub configured_transport_mode : Settings → TransportMode
configured_transport_mode settings = if str_eq settings.transport_mode "p2p" then p2p else relay

-- The mode is peer-to-peer exactly if the setting says so.
pub configured_transport_mode_iff :
    (settings : Settings)
    → (configured_transport_mode settings ≡ p2p) ↔ (settings.transport_mode ≡ "p2p")
unfolding configured_transport_mode
configured_transport_mode_iff settings = ground (arith, eq_iff settings.transport_mode "p2p")

-- `defaultUrl` of `promptConnectionUrl`
pub default_url : Settings → TransportMode → String
default_url settings p2p = settings.signaling_url
default_url settings relay = settings.server_url

-- `value.startsWith(prefix)`
pub starts_with : String → String → Bool
starts_with String.[] s = true
starts_with (String.◌∷◌ c p) String.[] = false
starts_with (String.◌∷◌ c p) (String.◌∷◌ d s) = code c == code d && starts_with p s

-- The text is the prefix and something behind it.
abbrev pub BeginsWith : String → String → Type 0
BeginsWith prefix s = (rest : String) × (s ≡ str_append prefix rest)

cons-BeginsWith :
    (c d : Char) (p s : String)
    → c ≡ d
    → BeginsWith p s
    → BeginsWith (String.◌∷◌ c p) (String.◌∷◌ d s)
cons-BeginsWith c d p s same (rest, e) =
    (rest, (λ i. String.◌∷◌ (sym same i) (e i)) ∙ sym (append.cons c p rest))

starts_with-BeginsWith : (p s : String) → starts_with p s ≡ true → BeginsWith p s
unfolding starts_with
starts_with-BeginsWith String.[] s e = (s, sym (append.nil s))
starts_with-BeginsWith (String.◌∷◌ c p) String.[] e = absurd (cc)
starts_with-BeginsWith (String.◌∷◌ c p) (String.◌∷◌ d s) e =
    cons-BeginsWith c d p s (Char-path c d (ground arith))
      (starts_with-BeginsWith p s (ground arith))

-- `validateInput` of `promptConnectionUrl` has no complaint.
unfoldable pub accepts_url : String → Bool
unfolding starts_with
accepts_url value = starts_with "ws://" value || starts_with "wss://" value

-- A URL that the dialog lets through is one of a web socket.
pub accepts_url-BeginsWith :
    (url : String) → accepts_url url ≡ true → BeginsWith "ws://" url ⊎ BeginsWith "wss://" url
unfolding accepts_url
accepts_url-BeginsWith url e = elim (Bool-cases (starts_with "ws://" url)) [
  | inl plain ↦ inl (starts_with-BeginsWith "ws://" url plain)
  | inr other ↦ inr (starts_with-BeginsWith "wss://" url (ground arith))
]

abbrev pub fallback : List String
fallback = "stun:stun.l.google.com:19302" ∷ []

-- `value.filter((entry) => typeof entry === "string" && entry.length > 0)`
pub text_entries : Items → List String
text_entries none_left = []
text_entries (item (text s) rest) =
    if not (str_eq s "") then s ∷ text_entries rest else text_entries rest
text_entries (item _ rest) = text_entries rest

-- `servers.length > 0 ? servers : fallback`
abbrev or_fallback : List String → List String
or_fallback [] = fallback
or_fallback (s ∷ servers) = s ∷ servers

-- `configuredIceServers`
pub configured_ice_servers : Settings → List String
unfolding text_entries
configured_ice_servers settings = elim settings.ice_servers [
  | array items ↦ or_fallback (text_entries items)
  | _ ↦ fallback
]
