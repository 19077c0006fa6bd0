-- ===== src/Queue/Metrics.antt =====
-- lib/queue-metrics.ts: counters since the start and since the last flush, and the counts of
-- getQueueHealthSnapshot in lib/workflows.ts.
use eutxo_l2_interop.Base.{ℕ, ◌+◌, Bool, true, false, ◌&&◌, ◌||◌, if◌then◌else◌, leb, count_where}
use eutxo_l2_interop.Store.{
  QueueCounters, Sys, Workflow, is_pending, is_running, is_failed, is_cancelled, is_succeeded,
  is_due,
}

abbrev pub empty_counters : QueueCounters
empty_counters = record {
  claims = 0;
  retries_scheduled = 0;
  terminal_failures = 0;
  stale_lock_recoveries = 0;
  manual_retries = 0;
  manual_force_retries = 0;
}

-- The same change is made to both sets of counters.
abbrev pub on_counters : (QueueCounters → QueueCounters) → Sys → Sys
on_counters f s = record s { totals = f s.totals; since_last = f s.since_last }

unfoldable pub record_claims : ℕ → Sys → Sys
record_claims count s =
    if leb count 0 then s else on_counters (λ c. record c { claims = c.claims + count }) s

unfoldable pub record_stale_lock_recovery : ℕ → Sys → Sys
record_stale_lock_recovery count s =
    if leb count 0
    then s
    else on_counters (λ c. record c { stale_lock_recoveries = c.stale_lock_recoveries + count }) s

unfoldable pub record_failure_outcome : Bool → Sys → Sys
record_failure_outcome true s =
    on_counters (λ c. record c { retries_scheduled = c.retries_scheduled + 1 }) s
record_failure_outcome false s =
    on_counters (λ c. record c { terminal_failures = c.terminal_failures + 1 }) s

unfoldable pub record_manual_retry : Bool → Sys → Sys
record_manual_retry force s =
    let once = on_counters (λ c. record c { manual_retries = c.manual_retries + 1 }) s in
    if force
    then on_counters (λ c. record c { manual_force_retries = c.manual_force_retries + 1 }) once
    else once

-- The window's counters are handed out and set to zero; the rates per minute are left out.
unfoldable pub flush_queue_counters : Sys → (QueueCounters × QueueCounters) × Sys
flush_queue_counters s = ((s.since_last, s.totals), record s { since_last = empty_counters })

-- The `where` of a claim: pending, failed and due for a retry, or running on an expired lock.
unfoldable pub is_claimable : ℕ → Workflow → Bool
is_claimable now w =
    is_pending w.status
    || (is_failed w.status && is_due now w.next_retry_at)
    || (is_running w.status && is_due now w.lock_expires_at)

pub record QueueHealth : Type 0 where
  pub pending : ℕ
  pub running : ℕ
  pub failed : ℕ
  pub cancelled : ℕ
  pub succeeded : ℕ
  pub ready_to_claim : ℕ
  pub stale_running : ℕ

unfoldable pub get_queue_health_snapshot : Sys → QueueHealth
get_queue_health_snapshot s = record {
  pending = count_where (λ w. is_pending w.status) s.workflows;
  running = count_where (λ w. is_running w.status) s.workflows;
  failed = count_where (λ w. is_failed w.status) s.workflows;
  cancelled = count_where (λ w. is_cancelled w.status) s.workflows;
  succeeded = count_where (λ w. is_succeeded w.status) s.workflows;
  ready_to_claim = count_where (is_claimable s.clock) s.workflows;
  stale_running =
      count_where (λ w. is_running w.status && is_due s.clock w.lock_expires_at) s.workflows;
}
