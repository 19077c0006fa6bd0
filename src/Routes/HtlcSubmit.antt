-- ===== src/Routes/HtlcSubmit.antt =====
-- app/api/hydra-ops/htlc/submit/route.ts: what POST does to the queue once the transaction has been
-- submitted, which gave it `tx_hash` and `source_htlc_ref`.
use eutxo_l2_interop.Base.{
  String, Bool, ◌||◌, [], ◌∷◌, Option, none, some, if◌then◌else◌, is_some, trim,
}
use eutxo_l2_interop.Store.{Sys, JsonObj, str, flag, get, put, Workflow, WorkflowType, is_running}
use eutxo_l2_interop.Queue.Create.{find_workflow_by_idempotency}
use eutxo_l2_interop.Routes.Payload.{
  payload_of, differs, trimmed_or_null, kept, attach_and_requeue, attach_only,
}
use eutxo_l2_interop.Routes.BuyTicket.{preimage_differs}

unfoldable pub needs_patch : (tx_hash source_htlc_ref : String) → Option String → JsonObj → Bool
unfolding get trim
needs_patch tx_hash ref preimage p =
    differs (get "submittedSourceTxHash" p) tx_hash
    || differs (get "submittedSourceHtlcRef" p) ref
    || preimage_differs p (trimmed_or_null preimage)

unfoldable pub patched_payload :
    (tx_hash source_htlc_ref : String) → Option String → JsonObj → JsonObj
unfolding get put trim
patched_payload tx_hash ref preimage p =
    put "preimage" (kept (trimmed_or_null preimage) (get "preimage" p))
      (put "submittedSourceHtlcRef" (str ref) (put "submittedSourceTxHash" (str tx_hash) p))

-- A running workflow keeps its lock and its steps.
unfoldable pub persist : (tx_hash source_htlc_ref : String) → Option String → Workflow → Sys → Sys
unfolding needs_patch patched_payload attach_and_requeue attach_only
persist tx_hash ref preimage w s =
    let p = payload_of w in
    let meta : JsonObj =
      ("submittedSourceTxHash", str tx_hash)
      ∷ ("submittedSourceHtlcRef", str ref)
      ∷ ("persistedPreimage", flag (is_some (trimmed_or_null preimage)))
      ∷ [] in
    let message : String = "buy_ticket submit persisted source artifacts" in
    if needs_patch tx_hash ref preimage p
    then if is_running w.status
      then attach_only w.id (patched_payload tx_hash ref preimage p) message meta s
      else attach_and_requeue w.id (patched_payload tx_hash ref preimage p) message meta s
    else s

unfoldable pub persist_submission :
    (tx_hash source_htlc_ref : String) → (preimage idempotency_key : Option String) → Sys → Sys
unfolding find_workflow_by_idempotency persist
persist_submission tx_hash ref preimage none s = s
persist_submission tx_hash ref preimage (some key) s =
    elim (find_workflow_by_idempotency WorkflowType.buy_ticket key s) [
      | none ↦ s
      | some w ↦ persist tx_hash ref preimage w s
    ]
