-- ===== src/Transport/Sockets.antt =====
-- What the transports take of the library ws: sockets for messages of one type, which are sent as
-- JSON text.
use nettprogg_vsc.Common.{String, List, [], ◌∷◌, ◌++◌, Bool, true, ◌≡◌}

pub record SocketLibrary (Message : Type 0) : Type 1 where
  pub Socket : Type 0
  pub open_socket : String → Socket
  pub is_open : Socket → Bool
  pub send_message : Socket → Message → Socket
  pub close_socket : Socket → Socket

-- What the program relies on: an open socket takes what it is given, in order, and sending does not
-- close it.
pub record IsOrdered {Message : Type 0} (ws : SocketLibrary Message) : Type 0 where
  pub sent : ws.Socket → List Message
  pub sent-send :
      (socket : ws.Socket) (message : Message)
      → ws.is_open socket ≡ true
      → sent (ws.send_message socket message) ≡ sent socket ++ message ∷ []
  pub is_open-send :
      (socket : ws.Socket) (message : Message)
      → ws.is_open socket ≡ true
      → ws.is_open (ws.send_message socket message) ≡ true
