-- ===== src/Queue/Lock.antt =====
-- refreshWorkflowLock, setWorkflowDraftResult and setWorkflowDraftResultLocked of
-- lib/workflows.ts: the writes that are conditional on the worker's lock.
use eutxo_l2_interop.Base.{
  ℕ, ◌+◌, Bool, false, ◌&&◌, Option, none, some, ◌==◌, ltb, if◌then◌else◌, count_where, find,
}
use eutxo_l2_interop.Store.{
  JsonObj, object, Workflow, is_running, is_value, update_where, Exception, lock_lost, plain, ok,
  throw, M,
}

-- `where: { id, status: running, lockedBy: workerId }`.
unfoldable pub holds_lock : ℕ → ℕ → Workflow → Bool
holds_lock id worker w = w.id == id && is_running w.status && is_value worker w.locked_by

-- An `updateMany` that must change exactly one row, or the lock is lost. The rows are written
-- before the count is looked at.
unfoldable pub update_locked : (Workflow → Bool) → (Workflow → Workflow) → M (Unit {0})
unfolding update_where
update_locked p f s = (
  (if count_where p s.workflows == 1 then ok tt else throw lock_lost),
  record s { workflows = update_where p f s.workflows },
)

-- `{ gt: now }` on the nullable `lockExpiresAt`.
abbrev pub is_later : ℕ → Option ℕ → Bool
is_later now none = false
is_later now (some t) = ltb now t

unfoldable pub refresh_workflow_lock : (lock_ms id worker : ℕ) → M (Unit {0})
unfolding update_locked holds_lock
refresh_workflow_lock lock_ms id worker s =
    update_locked (λ w. holds_lock id worker w && is_later s.clock w.lock_expires_at)
      (λ w. record w { lock_expires_at = some (s.clock + lock_ms) }) s

unfoldable pub set_workflow_draft_result_locked : ℕ → JsonObj → ℕ → M (Unit {0})
unfolding update_locked holds_lock
set_workflow_draft_result_locked id result worker =
    update_locked (holds_lock id worker) (λ w. record w { result_json = some (object result) })

-- `update({ where: { id } })`: it throws if no row has the id.
abbrev pub record_not_found : Exception
record_not_found = plain "No record was found for an update."

unfoldable pub update_by_id : ℕ → (Workflow → Workflow) → M (Unit {0})
unfolding update_where
update_by_id id f s = elim (find (λ w. w.id == id) s.workflows) [
  | none ↦ (throw record_not_found, s)
  | some _ ↦ (ok tt, record s { workflows = update_where (λ w. w.id == id) f s.workflows })
]

unfoldable pub set_workflow_draft_result : ℕ → JsonObj → M (Unit {0})
unfolding update_by_id
set_workflow_draft_result id result =
    update_by_id id (λ w. record w { result_json = some (object result) })
