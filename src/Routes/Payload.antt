-- ===== src/Routes/Payload.antt =====
-- What the handlers share: responses, the payload of a stored workflow, and the re-queue that
-- attaches the artifacts of a submitted transaction.
use eutxo_l2_interop.Base.{
  ℕ, String, Bool, true, not, [], Option, none, some, ◌==◌, if◌then◌else◌, str_eq, or_else,
  is_empty, trim,
}
use eutxo_l2_interop.Store.{
  Sys, Level, JsonObj, object, Value, str, null, Workflow, WorkflowStatus, update_where,
}
use eutxo_l2_interop.Queue.Steps.{append_event, is_replayed, replayed_step}
use eutxo_l2_interop.Queue.Retry.{requeued_data}

-- `accepted` is the answer 202.
pub data Response : Type 0 where
  api_error : (status : ℕ) (error_code : String) → Response
  accepted : (workflow_id : ℕ) (status : WorkflowStatus) (idempotency_replay : Bool) → Response

-- `JSON.parse(payloadJson || "{}")`; handlers store objects only.
abbrev pub payload_of : Workflow → JsonObj
payload_of w = elim w.payload_json [ object obj ↦ obj | _ ↦ [] ]

abbrev pub or_null_value : Option String → Value
or_null_value none = null
or_null_value (some t) = str t

-- `payload.key !== text`.
abbrev pub differs : Option Value → String → Bool
differs none t = true
differs (some (str s)) t = not (str_eq s t)
differs (some _) t = true

-- `preimage?.trim() || null`.
abbrev pub trimmed_or_null : Option String → Option String
trimmed_or_null none = none
trimmed_or_null (some t) = if is_empty (trim t) then none else some (trim t)

abbrev pub value_or_null : Option Value → Value
value_or_null v = or_else v null

-- `next ?? existing ?? null`.
abbrev pub kept : Option String → Option Value → Value
kept none old = value_or_null old
kept (some t) old = str t

unfoldable pub attached_data : JsonObj → Workflow → Workflow
unfolding requeued_data
attached_data payload w = record (requeued_data w) { payload_json = object payload }

-- A running workflow of HtlcSubmit gets the payload alone.
unfoldable pub attached_running_data : JsonObj → Workflow → Workflow
attached_running_data payload w = record w { payload_json = object payload }

-- The transaction that stores the new payload, queues the workflow and its last two steps again
-- and says so.
unfoldable pub attach_and_requeue : ℕ → JsonObj → String → JsonObj → Sys → Sys
unfolding attached_data update_where append_event
attach_and_requeue id payload message meta s =
    append_event id Level.info message (some meta) (record s {
      workflows = update_where (λ w. w.id == id) (attached_data payload) s.workflows;
      steps = update_where (is_replayed id) replayed_step s.steps;
    })

unfoldable pub attach_only : ℕ → JsonObj → String → JsonObj → Sys → Sys
unfolding attached_running_data update_where append_event
attach_only id payload message meta s = append_event id Level.info message (some meta) (record s {
  workflows = update_where (λ w. w.id == id) (attached_running_data payload) s.workflows;
})
