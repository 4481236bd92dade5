-- ===== src/Extension/Session/Diverging.antt =====
-- src/extension/sessionManager.ts, `handleLocalDocumentChange`: a replica that does not follow.
use nettprogg_vsc.Crdt.Replica.{WasmModule}
use nettprogg_vsc.Transport.Interface.{CollaborationTransport}
use nettprogg_vsc.Extension.Session.{Manager}

module _ (wasm : WasmModule) (net : CollaborationTransport) where
  abbrev M : Type 0
  M = Manager wasm net
