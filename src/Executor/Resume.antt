-- ===== src/Executor/Resume.antt =====
-- What an execution repeats of an earlier one, and what it needs of it.
use eutxo_l2_interop.Base.{
  ℕ, ◌≡◌, refl, sym, ap, ◌∙◌, ◌≢◌, inl, inr, Bool, true, false, ◌+◌, if_rule,
}
use eutxo_l2_interop.Store.{
  answer-cases, Sys, Result, ok, throw, M, ◌>>=◌, ◌>>◌, bind-throw, bind-ok, Exception, catch,
  StepName, submit, confirm, get,
}
use eutxo_l2_interop.Executor.LockLoss.{catch-throw}
use eutxo_l2_interop.Executor.Errors.{is_deferred_precondition_error, as_workflow_execution_error}
use eutxo_l2_interop.Queue.Claim.{WorkflowWithSteps}
use eutxo_l2_interop.Executor.Step.{
  is_lock_lost, unless_succeeded, execute_workflow_step, has_succeeded_step, step_error,
}
use eutxo_l2_interop.Executor.Workflows.{
  Services, draft_of, is_truthy, execute_request_funds_workflow,
}
use eutxo_l2_interop.Executor.Purchase.{execute_buy_ticket_workflow}
use eutxo_l2_interop.Executor.Payout.{execute_pay_random_winner_workflow, relay_payout}

unless_succeeded-same :
    {A : Type 0} (lock_ms : ℕ) (wf : WorkflowWithSteps) (name : StepName) (worker : ℕ) (kept : A)
    (run run' : M A)
    → has_succeeded_step wf name ≡ true
    → unless_succeeded lock_ms wf name worker kept run
      ≡ unless_succeeded lock_ms wf name worker kept run'
unfolding unless_succeeded
unless_succeeded-same lock_ms wf name worker kept run run' done = rw (done, unless_succeeded) refl

abbrev pub is_ok {ℓ} : {A : Type ℓ} → Result A → Bool
is_ok (ok _) = true
is_ok (throw _) = false

-- What always throws, and what follows it or is followed by it.
abbrev AlwaysThrows : {A : Type 0} → M A → Type 0
AlwaysThrows m = (s : Sys) → is_ok (m s).0 ≡ false

bind-AlwaysThrows :
    {A B : Type 0} (m : M A) (f : A → M B) → ((a : A) → AlwaysThrows (f a)) → AlwaysThrows (m >>= f)
bind-AlwaysThrows m f h s = elim (answer-cases (m s)) [
  | inl (a, e) ↦ rw (bind-ok m f s (m s).1 a e) (h a (m s).1)
  | inr (error, e) ↦ rw (bind-throw m f s (m s).1 error e) refl
]

true_not_false : true ≢ false
true_not_false h = cc

bind_throwing-AlwaysThrows :
    {A B : Type 0} (m : M A) (f : A → M B) → AlwaysThrows m → AlwaysThrows (m >>= f)
bind_throwing-AlwaysThrows m f h s = elim (answer-cases (m s)) [
  | inl (a, e) ↦ absurd (true_not_false (sym (ap (λ x. is_ok x.0) e) ∙ h s))
  | inr (error, e) ↦ rw (bind-throw m f s (m s).1 error e) refl
]

then-AlwaysThrows : {A B : Type 0} (m : M A) (k : M B) → AlwaysThrows k → AlwaysThrows (m >> k)
unfolding ◌>>◌
then-AlwaysThrows m k h = bind-AlwaysThrows m (λ _. k) (λ _. h)

catch-AlwaysThrows :
    {A : Type 0} (m : M A) (handler : Exception → M A)
    → AlwaysThrows m
    → ((e : Exception) → AlwaysThrows (handler e))
    → AlwaysThrows (catch m handler)
catch-AlwaysThrows m handler h k s = elim (answer-cases (m s)) [
  | inl (a, e) ↦ absurd (true_not_false (sym (ap (λ x. is_ok x.0) e) ∙ h s))
  | inr (error, e) ↦ rw (catch-throw m handler s (m s).1 error e) (k error (m s).1)
]

step_error-AlwaysThrows :
    (A : Type 0) (id : ℕ) (name : StepName) (attempt : ℕ) (error : Exception)
    → AlwaysThrows (step_error {A = A} id name attempt error)
unfolding step_error
step_error-AlwaysThrows A id name attempt error =
    if_rule AlwaysThrows (is_lock_lost error) (λ s. refl)
      (if_rule AlwaysThrows
        (is_deferred_precondition_error (as_workflow_execution_error error).error_code)
        (then-AlwaysThrows _ _ (λ s. refl)) (then-AlwaysThrows _ _ (λ s. refl)))

-- A step that is to be run and whose body always throws ends in an error.
unless_succeeded-AlwaysThrows :
    {A : Type 0} (lock_ms : ℕ) (wf : WorkflowWithSteps) (name : StepName) (worker : ℕ) (kept : A)
    (run : M A)
    → has_succeeded_step wf name ≡ false
    → AlwaysThrows run
    → AlwaysThrows (unless_succeeded lock_ms wf name worker kept run)
unfolding unless_succeeded execute_workflow_step
unless_succeeded-AlwaysThrows lock_ms wf name worker kept run to_do h =
    rw (to_do, unless_succeeded)
      (then-AlwaysThrows _ _ (
        then-AlwaysThrows _ _ (
          catch-AlwaysThrows _ _ (bind_throwing-AlwaysThrows run _ h)
            (step_error-AlwaysThrows _ wf.row.id name (wf.row.attempt_count + 1)))))

-- A payout cannot succeed in the execution that submits it: where the workflow was claimed with no
-- draft that has a hash reference, and with its last step still to do, executing it throws, in
-- every state and whatever the submission and the relay would answer. The confirmation looks for
-- the draft in the row as it was claimed, and not in what the submission has just stored.
pub execute_pay_random_winner-first :
    (services : Services) (lock_ms worker : ℕ) (wf : WorkflowWithSteps) (s : Sys)
    → is_truthy (get "hashRef" (draft_of wf)) ≡ false
    → has_succeeded_step wf confirm ≡ false
    → is_ok (execute_pay_random_winner_workflow services lock_ms wf worker s).0 ≡ false
unfolding execute_pay_random_winner_workflow relay_payout
execute_pay_random_winner-first services lock_ms worker wf s missing to_do =
    let throws : AlwaysThrows (relay_payout services wf) = λ t. rw (missing, relay_payout) refl in
    then-AlwaysThrows _ _
      (bind-AlwaysThrows _ _ (λ result. bind_throwing-AlwaysThrows _ _ (
        unless_succeeded-AlwaysThrows lock_ms wf confirm worker result _ to_do
          (bind_throwing-AlwaysThrows (relay_payout services wf) _ throws))))
      s

bind-same : {A B : Type 0} (m : M A) (f g : A → M B) → ((a : A) → f a ≡ g a) → (m >>= f) ≡ (m >>= g)
bind-same m f g h = λ i. m >>= λ a. h a i

then_bind-same :
    {A B C : Type 0} (before : M C) (m m' : M A) (f : A → M B)
    → m ≡ m'
    → (before >> (m >>= f)) ≡ (before >> (m' >>= f))
then_bind-same before m m' f h = λ i. before >> (h i >>= f)

-- A funds workflow whose submission has succeeded in an earlier execution resumes behind it: its
-- execution is the same whatever the services would answer.
pub execute_request_funds-resumes :
    (services services' : Services) (lock_ms worker : ℕ) (wf : WorkflowWithSteps)
    → has_succeeded_step wf submit ≡ true
    → execute_request_funds_workflow services lock_ms wf worker
      ≡ execute_request_funds_workflow services' lock_ms wf worker
unfolding execute_request_funds_workflow
execute_request_funds-resumes services services' lock_ms worker wf done =
    bind-same _ _ _ (λ payload.
      then_bind-same _ _ _ _
        (unless_succeeded-same lock_ms wf submit worker (draft_of wf) _ _ done))

-- A ticket purchase whose submission has succeeded in an earlier execution resumes behind it: its
-- execution is the same whatever the ledger and the nodes would answer.
pub execute_buy_ticket-resumes :
    (services services' : Services) (lock_ms worker : ℕ) (wf : WorkflowWithSteps)
    → has_succeeded_step wf submit ≡ true
    → execute_buy_ticket_workflow services lock_ms wf worker
      ≡ execute_buy_ticket_workflow services' lock_ms wf worker
unfolding execute_buy_ticket_workflow
execute_buy_ticket-resumes services services' lock_ms worker wf done = bind-same _ _ _ (λ payload.
    then_bind-same _ _ _ _ (unless_succeeded-same lock_ms wf submit worker (draft_of wf) _ _ done))
