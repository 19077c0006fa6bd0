-- ===== src/Queue/Steps.antt =====
-- Events and step transitions of lib/workflows.ts. Rows are never deleted, so an event's workflow
-- is there.
use eutxo_l2_interop.Base.{
  ℕ, ◌+◌, String, Bool, ◌&&◌, ◌||◌, [], ◌∷◌, ◌++◌, Option, none, some, ◌==◌, if◌then◌else◌, find,
  is_empty,
}
use eutxo_l2_interop.Store.{
  Sys, Level, JsonObj, WorkflowStep, WorkflowStatus, StepName, same_step, is_running, is_succeeded,
  is_failed, update_where,
}

unfoldable pub append_event : ℕ → Level → String → Option JsonObj → Sys → Sys
append_event workflow_id level message meta s = record s {
  events =
      s.events
      ++ (record { workflow_id = workflow_id; level = level; message = message; meta_json = meta }
          ∷ []);
}

abbrev pub is_step : ℕ → StepName → WorkflowStep → Bool
is_step workflow_id name st = st.workflow_id == workflow_id && same_step st.name name

-- `errorDetail || null`.
abbrev pub or_null : Option String → Option String
or_null none = none
or_null (some t) = if is_empty t then none else some t

-- The `data` of a step update.
unfoldable pub step_data : ℕ → WorkflowStatus → Option String → WorkflowStep → WorkflowStep
step_data now status detail st = record st {
  status = status;
  attempt = st.attempt + (if is_running status then 1 else 0);
  started_at = if is_running status then some now else st.started_at;
  finished_at = if is_succeeded status || is_failed status then some now else none;
  error_detail = or_null detail;
}

unfoldable pub update_step : ℕ → StepName → WorkflowStatus → Option String → Sys → Sys
unfolding step_data update_where
update_step workflow_id name status detail s = record s {
  steps = update_where (is_step workflow_id name) (step_data s.clock status detail) s.steps;
}

-- With no such step nothing is written, the event neither.
unfoldable pub update_step_with_event :
    ℕ → StepName → WorkflowStatus → Level → String → Option JsonObj → Option String → Sys → Sys
unfolding update_step append_event
update_step_with_event workflow_id name status level message meta detail s =
    elim (find (is_step workflow_id name) s.steps) [
      | none ↦ s
      | some _ ↦
          append_event workflow_id level message meta (update_step workflow_id name status detail s)
    ]

-- `where: { workflowId, name: { in: ["submit", "confirm"] } }` of the two re-queues.
abbrev pub is_replayed : ℕ → WorkflowStep → Bool
is_replayed workflow_id st =
    st.workflow_id == workflow_id
    && (same_step st.name StepName.submit || same_step st.name StepName.confirm)

-- The steps that a re-queued workflow runs again.
abbrev pub replayed_step : WorkflowStep → WorkflowStep
replayed_step st = record st {
  status = WorkflowStatus.pending;
  finished_at = none;
  error_detail = none;
}
