-- ===== src/Routes/Overtaken.antt =====
-- A funds request that another request with the same key overtakes.
use eutxo_l2_interop.Base.{◌≡◌, refl, false, none, some, str_eq}
use eutxo_l2_interop.Store.{Sys, Workflow, WorkflowType}
use eutxo_l2_interop.Queue.Create.{find_workflow_by_idempotency}
use eutxo_l2_interop.Queue.CreateOnce.{create_workflow-overtaken}
use eutxo_l2_interop.Routes.Payload.{accepted, api_error}
use eutxo_l2_interop.Routes.RequestFunds.{
  Outside, RequestFundsRequest, enqueue, existing_hash, build_request_funds_hash, request_payload,
}

-- The payload of a key is checked at the lookup only: where the stored row of the key has another
-- payload than the request, the handler refuses the request if it finds the row at its lookup, and
-- if the row comes in after the lookup it accepts the request, with that row's id and as no replay.
pub enqueue-overtaken :
    (o : Outside) (r : RequestFundsRequest) (s : Sys) (w : Workflow)
    → find_workflow_by_idempotency WorkflowType.request_funds r.idempotency_key s ≡ none
    → find_workflow_by_idempotency WorkflowType.request_funds r.idempotency_key (o.others s)
      ≡ some w
    → str_eq
        (existing_hash o.digest w)
        (build_request_funds_hash o.digest r.actor r.address r.amount_lovelace)
      ≡ false
    → (enqueue o r (o.others s) ≡ (api_error 409 "IDEMPOTENCY_KEY_PAYLOAD_MISMATCH", o.others s))
      × (enqueue o r s ≡ (accepted w.id w.status false, o.others s))
unfolding enqueue
enqueue-overtaken o r s w absent found differs =
    let hash = build_request_funds_hash o.digest r.actor r.address r.amount_lovelace in
    (
      rw (found, enqueue, differs) refl,
      rw
          (
            absent,
            enqueue,
            create_workflow-overtaken o.others o.fresh_id WorkflowType.request_funds r.actor
                r.idempotency_key (request_payload hash r) s w absent found,
          )
          refl,
    )
