-- ===== src/Tests/Doubles.antt =====
-- Stand-ins for the compiled CRDT, for a transport and for node-datachannel.
use nettprogg_vsc.Common.{
  ℕ, inl, sym, ap, ◌≡◌, arith, ◌+◌, Text, List, [], ◌∷◌, ◌++◌, Bool, true, false, Option, none,
  some, refl, cond, length, take, drop,
}
use nettprogg_vsc.Common.Int.{pos_part}
use nettprogg_vsc.Crdt.{
  ElementId, ParentId, InsertOp, DeleteOp, CrdtOperation, ApplyStatus, ApplyResult,
}
use nettprogg_vsc.Crdt.Replica.{WasmModule, EditsText}
use nettprogg_vsc.Transport.Interface.{CollaborationTransport, Accepts}
use nettprogg_vsc.Transport.DataMessages.{P2PDataMessage}
use nettprogg_vsc.Transport.Sockets.{SocketLibrary, IsOrdered}
use Prim.Native.Nat.{Ordering, compare}
use Prim.Native.String.{String}
use Prim.Native.Char.{code}
use nettprogg_vsc.Transport.Relay.{ClientMessage}
use nettprogg_vsc.Transport.Signaling.{SignalingClientMessage}
use nettprogg_vsc.Transport.Signaling.Opening.Initiating.{OpensLater, IsSymmetric, flip}
use nettprogg_vsc.Transport.Peer.{RemoteCandidate}
use nettprogg_vsc.Transport.Signals.Ordering.{TakesSignals}
use nettprogg_vsc.Transport.Rtc.{Rtc, TakesMessages}

abbrev pub some_id : ElementId
some_id = record { counter = 1; replica_id = "a" }

abbrev pub insertion : Text → InsertOp
insertion text = record { op_id = some_id; parent_id = ParentId.root; value = text }

abbrev pub deletion : DeleteOp
deletion = record { op_id = some_id; target_id = some_id }

-- A replica that is its text; it refuses deletions from others.
abbrev pub apply_to : Text → CrdtOperation → Option (ApplyResult × Text)
apply_to text (CrdtOperation.insert op) =
    some (record { status = ApplyStatus.applied; op_id = "1:a"; drained = 0 }, op.value ++ text)
apply_to text (CrdtOperation.delete op) = none

abbrev pub text_module : WasmModule
text_module = record {
  Instance = Text;
  create = λ id. [];
  from_snapshot = λ s id. some [];
  insert = λ i index text. some (
    CrdtOperation.insert (insertion text) ∷ [],
    take (pos_part index) i ++ (text ++ drop (pos_part index) i),
  );
  delete = λ i index count. some (
    CrdtOperation.delete deletion ∷ [],
    take (pos_part index) i ++ drop (pos_part index + pos_part count) i,
  );
  apply_operation = apply_to;
  has_seen = λ i op. false;
  snapshot = λ i. record {
    replica_id = "a";
    counter = 1;
    elements = record { id = some_id; value = i; parent_id = ParentId.root; deleted = false } ∷ [];
    seen_op_ids = [];
    pending_inserts = [];
    pending_deletes = [];
  };
  to_string = λ i. i;
}

abbrev pub text_module-EditsText : EditsText text_module
text_module-EditsText = record {
  insert_edits = λ i index text c p q le. (insertion text ∷ [], _, refl, (refl, (omega arith, tt)));
  delete_edits = λ i index count c p le. (deletion ∷ [], _, refl, (refl, (omega arith, tt)));
}

-- A transport that keeps what it accepts, and gives one answer always.
abbrev pub one_answer : Bool → CollaborationTransport
one_answer answer = record {
  State = List CrdtOperation;
  connect = λ mode url room id. [];
  close = λ t. t;
  send_operation = λ t op except. (answer, cond answer (t ++ op ∷ []) t);
  request_snapshot = λ t provider. (answer, t);
  send_snapshot = λ t id s. (answer, t);
}

abbrev pub one_answer-Accepts : (answer : Bool) → Accepts (one_answer answer)
one_answer-Accepts answer = record { accepted = λ t. t; accepted-send = λ t op except. refl }

-- A channel that is a list of the messages sent, and a connection that is a list of the candidates
-- added and says whether it has a description. Messages are of three bytes at most; only
-- `hello` is as short.
abbrev pub json : P2PDataMessage → Text
json (P2PDataMessage.hello id) = 1 ∷ []
json _ = 1 ∷ 2 ∷ 3 ∷ 4 ∷ []

abbrev pub list_rtc : Rtc
list_rtc = record {
  Channel = List Text;
  Connection = List RemoteCandidate × Bool;
  is_open = λ c. true;
  max_message_size = λ c. 3;
  buffered_amount = λ c. 0;
  send_message = λ c payload. (true, c ++ payload ∷ []);
  close_channel = λ c. c;
  close_connection = λ connection. connection;
  connect_peer = λ id urls. ([], false);
  create_data_channel = λ c label. [];
  set_remote_description = λ c sdp kind. some (c.0, true);
  has_remote_description = λ c. c.1;
  add_remote_candidate =
      λ c text mid. some (c.0 ++ record { candidate = text; mid = mid } ∷ [], c.1);
  stringify = json;
  byte_length = length;
}

abbrev pub list_rtc-TakesMessages : TakesMessages list_rtc
list_rtc-TakesMessages = record {
  history = λ c. c;
  history-sent = λ c payload e. refl;
  history-buffered = λ c payload e. inl refl;
  max_message_size-send = λ c payload. refl;
}

-- The candidates of a connection, or those of another where there is none
abbrev candidates_in :
    List RemoteCandidate × Bool → Option (List RemoteCandidate × Bool) → List RemoteCandidate
candidates_in connection none = connection.0
candidates_in connection (some next) = next.0

abbrev pub list_rtc-TakesSignals : TakesSignals list_rtc
list_rtc-TakesSignals = record {
  candidates = λ c. c.0;
  add-candidates = λ connection next c e. sym (ap (candidates_in connection) e);
  set-candidates = λ connection next sdp kind e. sym (ap (candidates_in connection) e);
}

-- A channel that takes every message and says each time that it was buffered
abbrev pub buffering_rtc : Rtc
buffering_rtc = record list_rtc { send_message = λ c payload. (false, c ++ payload ∷ []) }

abbrev pub buffering_rtc-TakesMessages : TakesMessages buffering_rtc
buffering_rtc-TakesMessages = record {
  history = λ c. c;
  history-sent = λ c payload e. refl;
  history-buffered = λ c payload e. inl refl;
  max_message_size-send = λ c payload. refl;
}

-- A socket that is the list of the messages sent, open from the start
abbrev pub list_socket : SocketLibrary ClientMessage
list_socket = record {
  Socket = List ClientMessage;
  open_socket = λ url. [];
  is_open = λ s. true;
  send_message = λ s message. s ++ message ∷ [];
  close_socket = λ s. s;
}

abbrev pub list_socket-IsOrdered : IsOrdered list_socket
list_socket-IsOrdered = record {
  sent = λ s. s;
  sent-send = λ s message opened. refl;
  is_open-send = λ s message opened. refl;
}

abbrev pub signaling_socket : SocketLibrary SignalingClientMessage
signaling_socket = record {
  Socket = List SignalingClientMessage;
  open_socket = λ url. [];
  is_open = λ s. true;
  send_message = λ s message. s ++ message ∷ [];
  close_socket = λ s. s;
}

-- Channels as above, open once something was sent on them
abbrev has_sent : List Text → Bool
has_sent [] = false
has_sent (payload ∷ rest) = true

abbrev pub shut_rtc : Rtc
shut_rtc = record list_rtc { is_open = has_sent }

abbrev pub shut_rtc-OpensLater : OpensLater shut_rtc
shut_rtc-OpensLater = record { is_open-create = λ connection label. refl }

-- A comparison of texts by their first characters
abbrev pub first_compare : String → String → Ordering
first_compare String.[] String.[] = Ordering.eq
first_compare String.[] (String.◌∷◌ d t) = Ordering.lt
first_compare (String.◌∷◌ c s) String.[] = Ordering.gt
first_compare (String.◌∷◌ c s) (String.◌∷◌ d t) = compare (code c) (code d)

flip-compare : (m n : ℕ) → compare n m ≡ flip (compare m n)
flip-compare m n = ground arith

pub first_compare-IsSymmetric : IsSymmetric first_compare
first_compare-IsSymmetric = record { flipped = flipped }
  where
    flipped : (a b : String) → first_compare b a ≡ flip (first_compare a b)
    flipped String.[] String.[] = refl
    flipped String.[] (String.◌∷◌ d t) = refl
    flipped (String.◌∷◌ c s) String.[] = refl
    flipped (String.◌∷◌ c s) (String.◌∷◌ d t) = flip-compare (code c) (code d)
