-- ===== src/Crdt/Serializer.antt =====
-- src/crdt/serializer.ts: an operation as JSON text, and the guard of what is read.
use nettprogg_vsc.Common.{
  String, Text, Bool, false, not, ◌&&◌, Option, none, some, if◌then◌else◌, ◌≡◌, refl,
}
use nettprogg_vsc.Common.Int.{pos}
use nettprogg_vsc.Common.Json.{
  Json, undefined, null, boolean, integer, fraction, text, array, object, Items, none_left, item,
  Fields, no_field, field, get, has_key, is_object, is_string, is_text, is_truthy,
}
use nettprogg_vsc.Crdt.{ElementId, ParentId, CrdtOperation}

-- `isOperation`
pub is_operation : Json → Bool
is_operation v =
    if not (is_object v)
    then false
    else if is_text "insert" (get "type" v)
    then is_truthy (get "opId" v) && (has_key "parentId" v && is_string (get "value" v))
    else if is_text "delete" (get "type" v)
    then is_truthy (get "opId" v) && has_key "targetId" v
    else false

-- The runtime's `JSON`, with the texts that it writes and reads; `none` is a thrown error.
pub record JsonRuntime : Type 1 where
  pub JsonText : Type 0
  pub stringify : Json → JsonText
  pub parse : JsonText → Option Json

-- No part of the value is `undefined`.
mutual
  pub IsPlain : Json → Type 0
  IsPlain undefined = ⊥
  IsPlain null = Unit
  IsPlain (boolean b) = Unit
  IsPlain (integer n) = Unit
  IsPlain (fraction s) = Unit
  IsPlain (text s) = Unit
  IsPlain (array items) = ArePlain items
  IsPlain (object fields) = HasPlain fields

  pub ArePlain : Items → Type 0
  ArePlain none_left = Unit
  ArePlain (item v rest) = IsPlain v × ArePlain rest

  pub HasPlain : Fields → Type 0
  HasPlain no_field = Unit
  HasPlain (field name v rest) = IsPlain v × HasPlain rest

-- What the program relies on: a value with no `undefined` is read as it was written.
pub record IsFaithful (json : JsonRuntime) : Type 0 where
  pub parse-stringify : (v : Json) → IsPlain v → json.parse (json.stringify v) ≡ some v

abbrev pub of_id : ElementId → Json
of_id id =
    object
      (field "counter" (integer (pos id.counter)) (field "replicaId" (text id.replica_id) no_field))

abbrev pub of_parent : ParentId → Json
of_parent ParentId.root = text "ROOT"
of_parent (ParentId.element id) = of_id id

-- The objects that are operations; `shown` is the text of an inserted value.
module _ (shown : Text → String) where
  pub of_operation : CrdtOperation → Json
  of_operation (CrdtOperation.insert op) = object (
      field "type" (text "insert") (
        field "opId" (of_id op.op_id) (
          field "parentId" (of_parent op.parent_id)
            (field "value" (text (shown op.value)) no_field))))
  of_operation (CrdtOperation.delete op) = object (
      field "type" (text "delete")
        (field "opId" (of_id op.op_id) (field "targetId" (of_id op.target_id) no_field)))

  module _ (json : JsonRuntime) where
    -- `serializeOperation`
    pub serialize_operation : CrdtOperation → json.JsonText
    unfolding of_operation
    serialize_operation op = json.stringify (of_operation op)

    abbrev checked : Option Json → Option Json
    checked none = none
    checked (some v) = if not (is_operation v) then none else some v

    -- `parseOperation`; `none` is a thrown error.
    pub parse_operation : json.JsonText → Option Json
    unfolding is_operation
    parse_operation input = checked (json.parse input)

    of_parent-IsPlain : (parent : ParentId) → IsPlain (of_parent parent)
    unfolding IsPlain HasPlain
    of_parent-IsPlain ParentId.root = tt
    of_parent-IsPlain (ParentId.element id) = (tt, (tt, tt))

    of_operation-IsPlain : (op : CrdtOperation) → IsPlain (of_operation op)
    unfolding of_operation IsPlain HasPlain
    of_operation-IsPlain (CrdtOperation.insert op) =
        (tt, ((tt, (tt, tt)), (of_parent-IsPlain op.parent_id, (tt, tt))))
    of_operation-IsPlain (CrdtOperation.delete op) = (tt, ((tt, (tt, tt)), ((tt, (tt, tt)), tt)))

    checked-of_operation :
        (op : CrdtOperation) → checked (some (of_operation op)) ≡ some (of_operation op)
    unfolding is_operation of_operation
    checked-of_operation (CrdtOperation.insert op) = refl
    checked-of_operation (CrdtOperation.delete op) = refl

    -- An operation that is serialized is read as the same value.
    pub parse_operation-serialize_operation :
        (law : IsFaithful json) (op : CrdtOperation)
        → parse_operation (serialize_operation op) ≡ some (of_operation op)
    unfolding parse_operation serialize_operation
    parse_operation-serialize_operation law op =
        rw (law.parse-stringify (of_operation op) (of_operation-IsPlain op))
          (checked-of_operation op)
