-- ===== src/Routes/Replays.antt =====
-- Requests that are sent again, and what a refused request leaves.
use mathlib.Core.Path.{subst}
use eutxo_l2_interop.Store.{
  All-update_cases, map-update_where, is_running, Sys, Workflow, WorkflowType, WorkflowStatus,
}
use eutxo_l2_interop.Base.{
  All, All-always, map, ◌==◌, leb, ltb, ◌||◌, number_of_digits, ℕ, String, ◌≡◌, ◌≢◌, refl, sym, ◌∙◌,
  Bool-cases, Bool, true, false, not, arith, Option, none, some, Option-cases, inl, inr, ◌⊎◌,
  length, eq_refl, suc, if_rule, str_eq,
}
use eutxo_l2_interop.Queue.Metrics.{is_claimable}
use eutxo_l2_interop.Queue.Lock.{holds_lock}
use eutxo_l2_interop.Queue.Retry.{requeued_data}
use eutxo_l2_interop.Routes.Payload.{
  payload_of, attach_and_requeue, attached_data, attach_only, attached_running_data, Response,
  api_error, accepted,
}
use eutxo_l2_interop.Routes.BuyTicket.{
  BuyTicketRequest, replay, should_patch_submitted_artifacts, patched_payload,
}
use eutxo_l2_interop.Routes.HtlcSubmit.{persist, needs_patch, patched_payload as submit_payload}
use eutxo_l2_interop.Policy.{
  resolve_actor_by_address, validate_request_funds_actor, required_heads_for_request_funds,
  get_closed_required_heads, request_funds_max_lovelace,
}
use eutxo_l2_interop.Queue.Create.{create_workflow, find_workflow_by_idempotency, insert_workflow}
use eutxo_l2_interop.Queue.CreateOnce.{create_workflow-new, find-insert_workflow}
use eutxo_l2_interop.Queue.Steps.{append_event}
use eutxo_l2_interop.Routes.RequestFunds.{
  Outside, RequestFundsRequest, enqueue, existing_hash, build_request_funds_hash, request_payload,
  post, refusal, fits_schema, is_mismatch, is_nil,
}

abbrev pub is_refused : Response → Bool
is_refused (api_error _ _) = true
is_refused (accepted _ _ _) = false

abbrev pub alone : Outside → Outside
alone o = record o { others = λ s. s }

abbrev IsEffect : Sys → Response × Sys → Type 0
IsEffect s (response, s') =
    (is_refused response ≡ true) × (s' ≡ s)
    ⊎ ((id : ℕ) × (status : WorkflowStatus) × (response ≡ accepted id status true) × (s' ≡ s))
    ⊎ ((id : ℕ) × (status : WorkflowStatus) × (response ≡ accepted id status false)
        × (length s'.workflows ≡ suc (length s.workflows)))

enqueue-IsEffect :
    (o : Outside) (r : RequestFundsRequest) (s : Sys) → IsEffect s (enqueue (alone o) r s)
unfolding enqueue create_workflow insert_workflow append_event
enqueue-IsEffect o r s =
    let hash = build_request_funds_hash o.digest r.actor r.address r.amount_lovelace in
    elim (Option-cases
      (find_workflow_by_idempotency WorkflowType.request_funds r.idempotency_key s)) [
        | inl e ↦
            rw
              (
                e,
                enqueue,
                create_workflow-new o.fresh_id WorkflowType.request_funds r.actor r.idempotency_key
                    (request_payload hash r) s e,
              )
              (inr (inr (_, _, refl, refl)))
        | inr (w, e) ↦
            rw (e, enqueue)
              (if_rule (λ (q : Response × Sys). IsEffect s q)
                (not (str_eq (existing_hash o.digest w) hash)) (inl (refl, refl))
                (inr (inl (_, _, refl, refl))))
      ]

abbrev Refuses : Option Response → Type 0
Refuses none = Unit
Refuses (some response) = is_refused response ≡ true

refusal-Refuses : (o : Outside) (r : RequestFundsRequest) (s : Sys) → Refuses (refusal o r s)
unfolding refusal
refusal-Refuses o r s =
    let amount = number_of_digits r.amount_lovelace in
    if_rule Refuses (not (fits_schema r)) refl (
      if_rule Refuses (leb amount 0 || ltb request_funds_max_lovelace amount) refl (
        if_rule Refuses (not (validate_request_funds_actor r.actor)) refl (
          if_rule Refuses (is_mismatch (resolve_actor_by_address r.address) r.actor) refl (
            if_rule Refuses
              (not (
                is_nil (
                  get_closed_required_heads o.stale_threshold_ms required_heads_for_request_funds
                    s)))
              refl tt))))

-- What a funds request does to the store when no other request interferes: a refusal, at a check
-- or for a payload that differs from the one stored under its key, and a replay leave the store as
-- it was, and any other accepted request leaves exactly one more workflow.
pub request_funds-effect :
    (o : Outside) (r : RequestFundsRequest) (s : Sys)
    → let (response, s') = post (alone o) r s in
      (is_refused response ≡ true) × (s' ≡ s)
      ⊎ ((id : ℕ) × (status : WorkflowStatus) × (response ≡ accepted id status true) × (s' ≡ s))
      ⊎ ((id : ℕ) × (status : WorkflowStatus) × (response ≡ accepted id status false)
          × (length s'.workflows ≡ suc (length s.workflows)))
unfolding post
request_funds-effect o r s = elim (Option-cases (refusal (alone o) r s)) [
  | inr (response, e) ↦ rw (e, post) (inl (subst Refuses e (refusal-Refuses (alone o) r s), refl))
  | inl e ↦ rw (e, post) (enqueue-IsEffect o r s)
]

abbrev pub as_replay : Response → Response
as_replay (accepted id status _) = accepted id status true
as_replay (api_error status error_code) = api_error status error_code

true_not_false : true ≢ false
true_not_false h = cc

enqueue-mismatch :
    (o : Outside) (r : RequestFundsRequest) (s : Sys) (w : Workflow)
    → find_workflow_by_idempotency WorkflowType.request_funds r.idempotency_key s ≡ some w
    → str_eq
        (existing_hash o.digest w)
        (build_request_funds_hash o.digest r.actor r.address r.amount_lovelace)
      ≡ false
    → is_refused (enqueue o r s).0 ≡ true
unfolding enqueue
enqueue-mismatch o r s w e other = rw (e, enqueue, other) refl

-- A funds request that was accepted and comes again, while nothing else happens, gets the same
-- workflow as a replay and changes nothing, also if the row's id would have been another one.
pub enqueue-again :
    (o : Outside) (fresh_id' : ℕ) (r : RequestFundsRequest) (s : Sys)
    → is_refused (enqueue (alone o) r s).0 ≡ false
    → let (response, s') = enqueue (alone o) r s in
      enqueue (record (alone o) { fresh_id = fresh_id' }) r s' ≡ (as_replay response, s')
unfolding enqueue
enqueue-again o fresh_id' r s allowed =
    let hash = build_request_funds_hash o.digest r.actor r.address r.amount_lovelace in
    let key = r.idempotency_key in
    elim (Option-cases (find_workflow_by_idempotency WorkflowType.request_funds key s)) [
      | inl e ↦
          let id = o.fresh_id in
          let payload = request_payload hash r in
          rw
            (
              e,
              enqueue,
              create_workflow-new o.fresh_id WorkflowType.request_funds r.actor key payload s e,
              find-insert_workflow o.fresh_id WorkflowType.request_funds r.actor key payload s,
              eq_refl hash,
            )
            (rw
              (
                e,
                enqueue,
                create_workflow-new o.fresh_id WorkflowType.request_funds r.actor key payload s e,
              )
              refl)
      | inr (w, e) ↦ elim (Bool-cases (str_eq (existing_hash o.digest w) hash)) [
        | inl same ↦ rw (e, enqueue, same, e, same) (rw (e, enqueue, same) refl)
        | inr other ↦
            absurd (true_not_false (sym (enqueue-mismatch (alone o) r s w e other) ∙ allowed))
      ]
    ]

-- A ticket request that comes again with other artifacts or another preimage takes the workflow
-- back into the queue whatever its status is: every row with its id can be claimed at once and no
-- worker holds its lock any more, also if one was running it.
pub replay-is_claimable :
    (r : BuyTicketRequest) (existing : Workflow) (s : Sys)
    → should_patch_submitted_artifacts r (payload_of existing) ≡ true
    → All
        (λ w.
          (w.id == existing.id) ≡ true
          → ((t : ℕ) → is_claimable t w ≡ true)
            × ((worker : ℕ) → holds_lock existing.id worker w ≡ false))
        (replay r existing s).workflows
unfolding replay attach_and_requeue append_event attached_data requeued_data is_claimable holds_lock
replay-is_claimable r existing s patched =
    rw (patched, replay)
      (All-update_cases (λ _. Unit {0})
        (λ w.
          (w.id == existing.id) ≡ true
          → ((t : ℕ) → is_claimable t w ≡ true)
            × ((worker : ℕ) → holds_lock existing.id worker w ≡ false))
        (λ w. w.id == existing.id) (attached_data (patched_payload r (payload_of existing)))
        (λ w _ _ _. (λ t. refl, λ worker. ground arith))
        (λ w other _ same. absurd (true_not_false (sym same ∙ other))) s.workflows
        (All-always (λ _. Unit {0}) (λ _. tt) s.workflows))

-- The submission of an HTLC leaves a running workflow to its worker: for every id and worker the
-- lock test of each row has the same answer before and after it, and the steps are as they were.
pub persist-holds_lock :
    (tx_hash ref : String) (preimage : Option String) (existing : Workflow) (s : Sys)
    → is_running existing.status ≡ true
    → (id worker : ℕ)
    → let s' = persist tx_hash ref preimage existing s in
      (map (holds_lock id worker) s'.workflows ≡ map (holds_lock id worker) s.workflows)
      × (s'.steps ≡ s.steps)
unfolding persist attach_only append_event attached_running_data holds_lock
persist-holds_lock tx_hash ref preimage existing s running id worker =
    elim (Bool-cases (needs_patch tx_hash ref preimage (payload_of existing))) [
      | inl e ↦
          rw (e, persist, running)
            (
              map-update_where (holds_lock id worker) (λ w. w.id == existing.id)
                  (attached_running_data
                    (submit_payload tx_hash ref preimage (payload_of existing)))
                  (λ w. refl) s.workflows,
              refl,
            )
      | inr e ↦ rw (e, persist) (refl, refl)
    ]
