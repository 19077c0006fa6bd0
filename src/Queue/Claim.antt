-- ===== src/Queue/Claim.antt =====
-- claimDueWorkflows of lib/workflows.ts.
use eutxo_l2_interop.Base.{
  ℕ, ◌+◌, ◌*◌, Bool, ◌&&◌, List, [], ◌∷◌, ◌++◌, none, some, ◌==◌, leb, if◌then◌else◌, length, take,
  filter, find, count_where, or_else,
}
use eutxo_l2_interop.Store.{
  Sys, Level, Workflow, WorkflowStep, WorkflowStatus, is_running, update_where,
}
use eutxo_l2_interop.Queue.Metrics.{is_claimable, record_claims, record_stale_lock_recovery}
use eutxo_l2_interop.Queue.Steps.{append_event}

abbrev pub claim_candidate_multiplier : ℕ
claim_candidate_multiplier = 3

pub record WorkflowWithSteps : Type 0 where
  pub row : Workflow
  pub steps : List WorkflowStep

-- The candidates: `order` stands for the database's `orderBy`, by priority and then by age.
unfoldable pub candidates : (List Workflow → List Workflow) → ℕ → Sys → List Workflow
unfolding is_claimable
candidates order limit s =
    take (limit * claim_candidate_multiplier) (order (filter (is_claimable s.clock) s.workflows))

-- The `data` of a claim; `wf` is the row as the candidate query saw it.
unfoldable pub claim_data : (lock_ms now worker : ℕ) → Workflow → Workflow → Workflow
claim_data lock_ms now worker wf w = record w {
  status = WorkflowStatus.running;
  started_at = some (or_else wf.started_at now);
  completed_at = none;
  lock_expires_at = some (now + lock_ms);
  locked_by = some worker;
}

abbrev pub claims : ℕ → ℕ → Workflow → Bool
claims now id w = w.id == id && is_claimable now w

-- The conditional update of one candidate, with the number of rows that it changed.
unfoldable pub claim_one : (lock_ms now worker : ℕ) → Workflow → Sys → ℕ × Sys
unfolding claim_data is_claimable update_where
claim_one lock_ms now worker wf s = (
  count_where (claims now wf.id) s.workflows,
  record s {
    workflows = update_where (claims now wf.id) (claim_data lock_ms now worker wf) s.workflows;
  },
)

pub record Claimed : Type 0 where
  pub ids : List ℕ
  pub stale : ℕ
  pub sys : Sys

-- What a claimed candidate adds; `s` is the state after its update.
unfoldable pub started : Workflow → Sys → Claimed → Claimed
unfolding append_event
started wf s acc = record {
  ids = acc.ids ++ (wf.id ∷ []);
  stale = acc.stale + (if is_running wf.status then 1 else 0);
  sys = append_event wf.id Level.info "Workflow execution started" none s;
}

-- The loop over the candidates; they may be out of date.
unfoldable pub claim_loop : (lock_ms now worker limit : ℕ) → List Workflow → Claimed → Claimed
unfolding claim_one started
claim_loop lock_ms now worker limit [] acc = acc
claim_loop lock_ms now worker limit (wf ∷ wfs) acc =
    let (count, s) = claim_one lock_ms now worker wf acc.sys in
    let skipped = claim_loop lock_ms now worker limit wfs (record acc { sys = s }) in
    let acc' = started wf s acc in
    let next = claim_loop lock_ms now worker limit wfs acc' in
    if count == 1 then (if leb limit (length acc'.ids) then acc' else next) else skipped

-- `claimedIds.map((id) => byId.get(id))`, without the ids that are not found.
unfoldable pub rows_of : List ℕ → Sys → List WorkflowWithSteps
rows_of [] s = []
rows_of (id ∷ ids) s = elim (find (λ w. w.id == id) s.workflows) [
  | none ↦ rows_of ids s
  | some w ↦ record { row = w; steps = filter (λ st. st.workflow_id == id) s.steps } ∷ rows_of ids s
]

unfoldable pub claim_due_workflows :
    (List Workflow → List Workflow)
    → (lock_ms limit worker : ℕ) → Sys
    → List WorkflowWithSteps × Sys
unfolding candidates claim_loop rows_of record_claims record_stale_lock_recovery
claim_due_workflows order lock_ms limit worker s =
    let start : Claimed = record { ids = []; stale = 0; sys = s } in
    let done = claim_loop lock_ms s.clock worker limit (candidates order limit s) start in
    let s' = record_stale_lock_recovery done.stale (record_claims (length done.ids) done.sys) in
    (rows_of done.ids s', s')
