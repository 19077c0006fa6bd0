-- ===== src/Queue/Retries.antt =====
-- Failure, deferral and re-queue of lib/workflows.ts: what becomes of a workflow, and when a claim
-- takes it again.
use mathlib.Core.Path.{subst}
use native.Mathlib.Numerals.{unary_clauses}
use eutxo_l2_interop.Base.{
  ℕ, zero, suc, String, ◌+◌, ◌*◌, ◌≤◌, ◌≡◌, refl, sym, List, [], ◌∷◌, Option, none, some, inl, inr,
  ◌⊎◌, arith, true, false, Bool, ◌&&◌, ◌||◌, not, find, leb, length, All, All-always, if_rule, ◌==◌,
  ◌≢◌, ◌^◌,
}
use eutxo_l2_interop.Store.{
  Sys, Workflow, WorkflowStatus, is_pending, is_succeeded, is_failed, is_cancelled, pending,
  running, succeeded, failed, cancelled, ok, throw, Exception, All-update_cases, All-find,
}
use eutxo_l2_interop.Queue.Metrics.{is_claimable, record_manual_retry}
use eutxo_l2_interop.Queue.Steps.{append_event}
use eutxo_l2_interop.Queue.Outcome.{
  failed_data, failure_delay_sec, FailureOptions, can_retry, deferred_data, defer_delay_sec,
}
use eutxo_l2_interop.Queue.Retry.{
  retry_workflow_now, retry_conflict, requeue, requeued_data, reset_data,
}

pow_pos : (n : ℕ) → 1 ≤ 2 ^ n
pow_pos zero = omega arith
pow_pos (suc n) = simp unary_clauses (omega (arith, pow_pos n))

two_le_pow : (n : ℕ) → 2 ≤ 2 ^ (n + 1)
two_le_pow n = simp unary_clauses (omega (arith, pow_pos n))

pub failure_delay_sec-bounds :
    (attempt : ℕ) → (2 ≤ failure_delay_sec (attempt + 1)) × (failure_delay_sec (attempt + 1) ≤ 60)
unfolding failure_delay_sec
failure_delay_sec-bounds attempt = (omega (arith, two_le_pow attempt), omega arith)

-- A failed workflow waits and is bounded: it can be claimed at time `t` exactly when the failure is retryable
-- with attempts left and `t` has reached its retry time, which is between 2 and 60 seconds after
-- the failure; otherwise it is cancelled and is never claimed.
pub failed_data-is_claimable :
    (now t : ℕ) (reason : String) (options : FailureOptions) (w : Workflow)
    → let w' = failed_data now reason options w in
      (delay : ℕ) × (2000 ≤ delay)
      × (delay ≤ 60000)
      × (is_claimable t w' ≡ (can_retry options w && leb (now + delay) t))
      × (is_cancelled w'.status ≡ not (can_retry options w))
unfolding failed_data is_claimable
failed_data-is_claimable now t reason options w =
    let (lo, hi) = failure_delay_sec-bounds w.attempt_count in
    (
      failure_delay_sec (w.attempt_count + 1) * 1000,
      omega (arith, lo),
      omega (arith, hi),
      ground arith,
      ground arith,
    )

-- A sequence of failures of one workflow.
unfoldable pub fail_all : List (ℕ × String × FailureOptions) → Workflow → Workflow
unfolding failed_data
fail_all [] w = w
fail_all ((now, reason, options) ∷ rest) w = fail_all rest (failed_data now reason options w)

-- Failures end: a workflow that fails at least once, and at least as often as it has attempts
-- left, is cancelled, whatever the reasons, the times and the options of the failures are.
pub fail_all-is_cancelled :
    (failures : List (ℕ × String × FailureOptions)) (w : Workflow)
    → 1 ≤ length failures
    → w.max_attempts ≤ w.attempt_count + length failures
    → is_cancelled (fail_all failures w).status ≡ true
unfolding fail_all failed_data
fail_all-is_cancelled [] w some_failure enough = absurd (omega arith)
fail_all-is_cancelled ((now, reason, options) ∷ []) w some_failure enough = ground arith
fail_all-is_cancelled ((now, reason, options) ∷ next ∷ rest) w some_failure enough =
    fail_all-is_cancelled (next ∷ rest) (failed_data now reason options w) (omega arith)
      (omega arith)

-- A deferral does not wait: the row gets a retry time between 1 and 120 seconds ahead, but as it
-- is pending a claim at any time takes it, and its attempts are not counted.
pub deferred_data-is_claimable :
    (now base attempt t : ℕ) (w : Workflow)
    → let w' = deferred_data now (defer_delay_sec base attempt) w in
      (delay : ℕ) × (1000 ≤ delay)
      × (delay ≤ 120000)
      × (w'.next_retry_at ≡ some (now + delay))
      × (is_claimable t w' ≡ true)
      × (w'.attempt_count ≡ w.attempt_count)
unfolding deferred_data defer_delay_sec is_claimable
deferred_data-is_claimable now base attempt t w =
    (defer_delay_sec base attempt * 1000, omega arith, omega arith, refl, refl, refl)

abbrev pub is_retry_status : WorkflowStatus → Bool
is_retry_status status = is_failed status || is_cancelled status

requeue-is_claimable :
    (force : Bool) (current : Workflow) (id : ℕ) (s : Sys)
    → (current.id == id) ≡ true
    → All
        (λ w. (w.id == id) ≡ true → (t : ℕ) → is_claimable t w ≡ true)
        (requeue force current s).workflows
unfolding requeue requeued_data reset_data is_claimable
requeue-is_claimable force current id s same =
    let Goal : Workflow → Type 0 = λ w. (w.id == id) ≡ true → (t : ℕ) → is_claimable t w ≡ true in
    let updated =
      λ (f : Workflow → Workflow) (pends : (w : Workflow) → is_pending (f w).status ≡ true).
        All-update_cases (λ _. Unit {0}) Goal (λ w. w.id == current.id) f
          (λ w _ _ _ t. ground (arith, pends w)) (λ w other _ found t. ground arith) s.workflows
          (All-always (λ _. Unit {0}) (λ _. tt) s.workflows) in
    if_rule (λ (s' : Sys). All Goal s'.workflows) (force && is_succeeded current.status)
      (updated reset_data (λ w. refl)) (updated requeued_data (λ w. refl))

retry_conflict-cases :
    (force : Bool) (status : WorkflowStatus)
    → ((e : Exception) × (retry_conflict force status ≡ some e)
        × ((force || is_retry_status status) ≡ false))
      ⊎ (retry_conflict force status ≡ none) × ((force || is_retry_status status) ≡ true)
unfolding retry_conflict
retry_conflict-cases true status = inr (refl, refl)
retry_conflict-cases false pending = inl (_, refl, refl)
retry_conflict-cases false running = inl (_, refl, refl)
retry_conflict-cases false succeeded = inl (_, refl, refl)
retry_conflict-cases false failed = inr (refl, refl)
retry_conflict-cases false cancelled = inr (refl, refl)

record_manual_retry-workflows :
    (force : Bool) (s : Sys) → (record_manual_retry force s).workflows ≡ s.workflows
unfolding record_manual_retry
record_manual_retry-workflows true s = refl
record_manual_retry-workflows false s = refl

throw_not_ok : (e : Exception) → throw e ≢ ok (tt {0})
throw_not_ok e h = cc

-- An administrator's re-queue: it is refused, with nothing changed, for a workflow that is
-- neither failed nor cancelled, unless it is forced; in every other case it answers normally and
-- every row with the id can be claimed at once, whatever its attempts.
pub retry_workflow_now-outcome :
    (id : ℕ) (force : Bool) (reason : Option String) (s : Sys) (current : Workflow)
    → find (λ w. w.id == id) s.workflows ≡ some current
    → let (r, s') = retry_workflow_now id force reason s in
      ((force || is_retry_status current.status) ≡ false) × (r ≢ ok tt) × (s' ≡ s)
      ⊎ ((force || is_retry_status current.status) ≡ true)
        × (r ≡ ok tt)
        × All (λ w. (w.id == id) ≡ true → (t : ℕ) → is_claimable t w ≡ true) s'.workflows
unfolding retry_workflow_now append_event
retry_workflow_now-outcome id force reason s current found =
    let same =
      (All-find (λ _. Unit {0}) (λ w. w.id == id) s.workflows found
        (All-always (λ _. Unit {0}) (λ _. tt) s.workflows)).1 in
    let again = requeue-is_claimable force current id s same in
    let Goal : List Workflow → Type 0 =
      λ ws. All (λ w. (w.id == id) ≡ true → (t : ℕ) → is_claimable t w ≡ true) ws in
    elim (retry_conflict-cases force current.status) [
      | inl (e, conflict, forbidden) ↦
          rw (found, retry_workflow_now, conflict) (inl (forbidden, throw_not_ok e, refl))
      | inr (conflict, allowed) ↦
          rw (found, retry_workflow_now, conflict)
            (inr (allowed, refl, subst Goal (sym (record_manual_retry-workflows force _)) again))
    ]
