-- ===== src/Crdt.antt =====
-- src/crdt: the types of the replicated text (types.ts) and of the shim around the compiled CRDT
-- (textCrdt.ts).
pub mod Replica
pub mod Serializer
use nettprogg_vsc.Common.{ℕ, String, Text, List, Bool, ◌&&◌, ◌==◌, str_eq}

-- types.ts, `ElementId`
pub record ElementId : Type 0 where
  pub counter : ℕ
  pub replica_id : String

-- types.ts, `ParentId`: the root, or the element left of the new one
pub data ParentId : Type 0 where
  root : ParentId
  element : ElementId → ParentId

-- types.ts, `InsertOp` and `DeleteOp`
pub record InsertOp : Type 0 where
  pub op_id : ElementId
  pub parent_id : ParentId
  pub value : Text

pub record DeleteOp : Type 0 where
  pub op_id : ElementId
  pub target_id : ElementId

-- types.ts, `CrdtOperation`
pub data CrdtOperation : Type 0 where
  insert : InsertOp → CrdtOperation
  delete : DeleteOp → CrdtOperation

-- types.ts, `isRootId`
pub is_root_id : ParentId → Bool
is_root_id root = Bool.true
is_root_id (element id) = Bool.false

-- types.ts, `sameElementId`
pub same_element_id : ElementId → ElementId → Bool
same_element_id left right =
    left.counter == right.counter && str_eq left.replica_id right.replica_id

-- textCrdt.ts, `ApplyResult`
pub data ApplyStatus : Type 0 where
  applied duplicate queued : ApplyStatus

pub record ApplyResult : Type 0 where
  pub status : ApplyStatus
  pub op_id : String
  pub drained : ℕ

-- textCrdt.ts, `CharSnapshot` and `TextCrdtSnapshot`
pub record CharSnapshot : Type 0 where
  pub id : ElementId
  pub value : Text
  pub parent_id : ParentId
  pub deleted : Bool

pub record TextCrdtSnapshot : Type 0 where
  pub replica_id : String
  pub counter : ℕ
  pub elements : List CharSnapshot
  pub seen_op_ids : List String
  pub pending_inserts : List InsertOp
  pub pending_deletes : List DeleteOp
