-- ===== src/Executor/LockLoss.antt =====
-- Executions whose worker does not hold the lock, and what executeWorkflow throws.
use eutxo_l2_interop.Base.{
  ℕ, String, ◌≡◌, refl, ◌∙◌, ◌⊎◌, inl, inr, false, [], ◌+◌, Option, none, All, Bool-cases, if_rule,
  str_eq,
}
use eutxo_l2_interop.Store.{
  Sys, Result, ok, throw, M, ◌>>=◌, ◌>>◌, bind-throw, bind-ok, Exception, lock_lost, plain, catch,
  StepName, prepare, submit, confirm, malformed, scalar, object, Value, JsonText, WorkflowType,
  request_funds, buy_ticket, admin_head_operation, pay_random_winner, JsonObj, text_of, get,
}
use eutxo_l2_interop.Queue.Claim.{WorkflowWithSteps}
use eutxo_l2_interop.Queue.Lock.{holds_lock, refresh_workflow_lock}
use eutxo_l2_interop.Queue.Outcome.{mark_workflow_succeeded_locked, FailureOptions, DeferOptions}
use eutxo_l2_interop.Interleaving.Fencing.{locked_writes-lost}
use eutxo_l2_interop.Executor.Errors.{as_workflow_execution_error}
use eutxo_l2_interop.Executor.Step.{unless_succeeded, execute_workflow_step, has_succeeded_step}
use eutxo_l2_interop.Executor.Workflows.{
  Services, parse_payload, parse_json, execute_request_funds_workflow, HeadOperation,
}
use eutxo_l2_interop.Executor.Purchase.{execute_buy_ticket_workflow}
use eutxo_l2_interop.Executor.Payout.{execute_pay_random_winner_workflow}
use eutxo_l2_interop.Executor.HeadOps.{execute_admin_head_operation_workflow, parse_head_operation}
use eutxo_l2_interop.Executor.Run.{dispatch, execute_workflow, execution_error, failure_options}

-- An answer that is thrown without a change: the lost lock, or an error of the payload's.
abbrev pub Halts : {A : Type 0} → Sys → Result A × Sys → Type 0
Halts s x = (x ≡ (throw lock_lost, s)) ⊎ ((message : String) × (x ≡ (throw (plain message), s)))

-- One that changes nothing, thrown or not.
abbrev pub Idles : {A : Type 0} → Sys → Result A × Sys → Type 0
Idles {A = A} s x = ((a : A) × (x ≡ (ok a, s))) ⊎ Halts s x

-- After nothing, what halts halts.
bind-Halts :
    {A B : Type 0} (m : M A) (f : A → M B) (s : Sys)
    → Idles s (m s)
    → ((a : A) → Halts s (f a s))
    → Halts s ((m >>= f) s)
bind-Halts m f s (inl (a, h)) rest = rw (bind-ok m f s s a h) (rest a)
bind-Halts m f s (inr (inl h)) rest = inl (bind-throw m f s s lock_lost h)
bind-Halts m f s (inr (inr (message, h))) rest = inr (message, bind-throw m f s s (plain message) h)

then-throw :
    {A B : Type 0} (m : M A) (k : M B) (s : Sys)
    → m s ≡ (throw lock_lost, s)
    → (m >> k) s ≡ (throw lock_lost, s)
unfolding ◌>>◌
then-throw m k s h = bind-throw m (λ _. k) s s lock_lost h

then-Halts :
    {A B : Type 0} (m : M A) (k : M B) (s : Sys)
    → Idles s (m s)
    → Halts s (k s)
    → Halts s ((m >> k) s)
unfolding ◌>>◌
then-Halts m k s h rest = bind-Halts m (λ _. k) s h (λ _. rest)

abbrev no_failure_options : FailureOptions
no_failure_options = record { error_code = none; retryable = none }

abbrev no_defer_options : DeferOptions
no_defer_options = record { error_code = ""; base_retry_delay_sec = 0; step_name = none }

module _ (lock_ms worker : ℕ) (wf : WorkflowWithSteps) (s : Sys)
    (free : All (λ w. holds_lock wf.row.id worker w ≡ false) s.workflows) where
  refresh-lost : refresh_workflow_lock lock_ms wf.row.id worker s ≡ (throw lock_lost, s)
  refresh-lost =
      (locked_writes-lost wf.row.id worker lock_ms [] "" no_failure_options no_defer_options s
        free).0

  execute_workflow_step-lost :
      {A : Type 0} (name : StepName) (attempt : ℕ) (run : M A)
      → execute_workflow_step lock_ms wf.row.id name attempt worker run s ≡ (throw lock_lost, s)
  unfolding execute_workflow_step
  execute_workflow_step-lost name attempt run =
      then-throw (refresh_workflow_lock lock_ms wf.row.id worker) _ s refresh-lost

  unless_succeeded-Idles :
      {A : Type 0} (name : StepName) (kept : A) (run : M A)
      → Idles s (unless_succeeded lock_ms wf name worker kept run s)
  unfolding unless_succeeded
  unless_succeeded-Idles name kept run = elim (Bool-cases (has_succeeded_step wf name)) [
    | inl e ↦ rw (e, unless_succeeded) (inl (kept, refl))
    | inr e ↦
        rw (e, unless_succeeded)
          (inr (inl (execute_workflow_step-lost name (wf.row.attempt_count + 1) run)))
  ]

  succeeded-Halts :
      (result : JsonObj) → Halts s (mark_workflow_succeeded_locked wf.row.id result worker s)
  succeeded-Halts result =
      let (_, _, lost, _, _) =
        locked_writes-lost wf.row.id worker lock_ms result "" no_failure_options no_defer_options s
          free in
      inl lost

  parse_json-Idles : (text : JsonText) → Idles s (parse_json text s)
  unfolding parse_json
  parse_json-Idles malformed = inr (inr (_, refl))
  parse_json-Idles scalar = inl (_, refl)
  parse_json-Idles (object payload) = inl (_, refl)

  parse_head_operation-Idles : (raw : Option Value) → Idles s (parse_head_operation raw s)
  unfolding parse_head_operation
  parse_head_operation-Idles raw =
      let Goal : M HeadOperation → Type 0 = λ m. Idles s (m s) in
      if_rule Goal (str_eq (text_of raw) "open_head_a") (inl (_, refl)) (
        if_rule Goal (str_eq (text_of raw) "open_head_b") (inl (_, refl)) (
          if_rule Goal (str_eq (text_of raw) "open_heads_ab") (inl (_, refl)) (
            if_rule Goal (str_eq (text_of raw) "commit_head_c_charlie") (inl (_, refl)) (
              if_rule Goal (str_eq (text_of raw) "commit_head_c_admin") (inl (_, refl))
                (inr (inr (_, refl)))))))

  dispatch-Halts :
      (type : WorkflowType) (services : Services)
      → Halts s (dispatch type services lock_ms wf worker s)
  unfolding dispatch execute_request_funds_workflow execute_buy_ticket_workflow
      execute_pay_random_winner_workflow execute_admin_head_operation_workflow
  dispatch-Halts request_funds services =
      bind-Halts (parse_payload wf) _ s (parse_json-Idles wf.row.payload_json) (λ payload.
        then-Halts _ _ s (unless_succeeded-Idles prepare tt _) (
          bind-Halts _ _ s (unless_succeeded-Idles submit _ _) (λ result.
            then-Halts _ _ s (unless_succeeded-Idles confirm tt _) (succeeded-Halts result))))
  dispatch-Halts buy_ticket services =
      bind-Halts (parse_payload wf) _ s (parse_json-Idles wf.row.payload_json) (λ payload.
        then-Halts _ _ s (unless_succeeded-Idles prepare tt _) (
          bind-Halts _ _ s (unless_succeeded-Idles submit _ _)
            (λ result. bind-Halts _ _ s (unless_succeeded-Idles confirm result _) succeeded-Halts)))
  dispatch-Halts admin_head_operation services =
      bind-Halts (parse_payload wf) _ s (parse_json-Idles wf.row.payload_json) (λ payload.
        bind-Halts (parse_head_operation (get "operation" payload)) _ s
          (parse_head_operation-Idles (get "operation" payload))
          (λ operation. then-Halts _ _ s (unless_succeeded-Idles prepare tt _) (
            bind-Halts _ _ s (unless_succeeded-Idles submit _ _) (λ result.
              then-Halts _ _ s (unless_succeeded-Idles confirm tt _) (succeeded-Halts result)))))
  dispatch-Halts pay_random_winner services =
      then-Halts _ _ s (unless_succeeded-Idles prepare tt _) (
        bind-Halts _ _ s (unless_succeeded-Idles submit _ _)
          (λ result. bind-Halts _ _ s (unless_succeeded-Idles confirm result _) succeeded-Halts))

-- The handler of a `catch` takes what was thrown.
pub catch-throw :
    {A : Type 0} (m : M A) (handler : Exception → M A) (s s' : Sys) (e : Exception)
    → m s ≡ (throw e, s')
    → catch m handler s ≡ handler e s'
unfolding catch
catch-throw m handler s s' e h =
    λ i. elim (h i).0 [ ok a ↦ (ok a, (h i).1) | throw x ↦ handler x (h i).1 ]

-- A worker that does not hold the lock of the workflow that it was handed does nothing at all: for
-- every type of workflow and whatever the services would do, executeWorkflow returns normally with
-- the whole store as it was.
pub execute_workflow-lost :
    (services : Services) (lock_ms worker : ℕ) (wf : WorkflowWithSteps) (s : Sys)
    → All (λ w. holds_lock wf.row.id worker w ≡ false) s.workflows
    → execute_workflow services lock_ms wf worker s ≡ (ok tt, s)
unfolding execute_workflow execution_error
execute_workflow-lost services lock_ms worker wf s free =
    let run = dispatch wf.row.type services lock_ms wf worker in
    elim (dispatch-Halts lock_ms worker wf s free wf.row.type services) [
      | inl h ↦ catch-throw run (execution_error wf.row.id worker) s s lock_lost h
      | inr (message, h) ↦
          let err = as_workflow_execution_error (plain message) in
          let (_, _, _, failed_lost, _) =
            locked_writes-lost wf.row.id worker lock_ms [] err.message (failure_options err)
              no_defer_options s free in
          catch-throw run (execution_error wf.row.id worker) s s (plain message) h
          ∙ catch-throw _ _ s s lock_lost failed_lost
    ]
