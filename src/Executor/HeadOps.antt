-- ===== src/Executor/HeadOps.antt =====
-- executeAdminHeadOperationWorkflow of lib/executor.ts.
use eutxo_l2_interop.Base.{
  zero, suc, matches_all, is_hex, utf16_length, ℕ, String, Bool, true, false, ◌&&◌, List, [], ◌∷◌,
  Option, none, some, if◌then◌else◌, str_eq, ◌==◌,
}
use eutxo_l2_interop.Executor.Errors.{starts_with, includes}
use eutxo_l2_interop.Store.{
  JsonObj, Value, str, flag, get, text_of, prepare, submit, confirm, plain, M, ◌>>=◌, ◌>>◌, return,
  raise, modify, when,
}
use eutxo_l2_interop.Heads.{sync_head_snapshots_heartbeat}
use eutxo_l2_interop.Queue.Steps.{append_event}
use eutxo_l2_interop.Queue.Claim.{WorkflowWithSteps}
use eutxo_l2_interop.Queue.Lock.{set_workflow_draft_result_locked}
use eutxo_l2_interop.Queue.Outcome.{mark_workflow_succeeded_locked}
use eutxo_l2_interop.Executor.Step.{unless_succeeded, parse_draft_result}
use eutxo_l2_interop.Executor.Workflows.{
  Services, HeadOperation, open_head_a, open_head_b, open_heads_ab, commit_head_c_charlie,
  commit_head_c_admin, parse_payload, parse_json, draft_of, event,
}

unfoldable pub parse_head_operation : Option Value → M HeadOperation
parse_head_operation raw =
    let text = text_of raw in
    if str_eq text "open_head_a"
    then return open_head_a
    else if str_eq text "open_head_b"
    then return open_head_b
    else if str_eq text "open_heads_ab"
    then return open_heads_ab
    else if str_eq text "commit_head_c_charlie"
    then return commit_head_c_charlie
    else if str_eq text "commit_head_c_admin"
    then return commit_head_c_admin
    else raise (plain "ADMIN_HEAD_OPERATION_INVALID")

unfoldable pub command_for_head_operation : HeadOperation → List String
command_for_head_operation open_head_a = "scripts/hydra-open-heads.ts" ∷ "--open-head-a" ∷ []
command_for_head_operation open_head_b = "scripts/hydra-open-heads.ts" ∷ "--open-head-b" ∷ []
command_for_head_operation commit_head_c_admin =
    "scripts/hydra-open-heads.ts" ∷ "--commit-head-c-admin" ∷ []
command_for_head_operation commit_head_c_charlie =
    "scripts/hydra-open-heads.ts" ∷ "--commit-head-c-charlie" ∷ []
command_for_head_operation open_heads_ab = "scripts/hydra-open-heads.ts" ∷ []

abbrev pub operation_text : HeadOperation → String
operation_text open_head_a = "open_head_a"
operation_text open_head_b = "open_head_b"
operation_text open_heads_ab = "open_heads_ab"
operation_text commit_head_c_charlie = "commit_head_c_charlie"
operation_text commit_head_c_admin = "commit_head_c_admin"

abbrev pub is_head_c_operation : HeadOperation → Bool
is_head_c_operation commit_head_c_charlie = true
is_head_c_operation commit_head_c_admin = true
is_head_c_operation _ = false

abbrev pub operation_meta : HeadOperation → JsonObj
operation_meta operation = ("operation", str (operation_text operation)) ∷ []

abbrev pub actor_meta : HeadOperation → String → JsonObj
actor_meta operation actor =
    ("operation", str (operation_text operation)) ∷ ("actor", str actor) ∷ []

abbrev pub take_text : ℕ → String → String
take_text zero t = ""
take_text (suc n) String.[] = ""
take_text (suc n) (String.◌∷◌ c t) = String.◌∷◌ c (take_text n t)

abbrev pub drop_text : ℕ → String → String
drop_text zero t = t
drop_text (suc n) String.[] = ""
drop_text (suc n) (String.◌∷◌ c t) = drop_text n t

-- The 64 hexadecimal digits behind `submitted -> ` at the start of a text.
abbrev pub tx_hash_at_start : String → Option String
tx_hash_at_start t =
    let hash = take_text 64 (drop_text 13 t) in
    if starts_with "submitted -> " t && matches_all is_hex hash && utf16_length hash == 64
    then some hash
    else none

-- The last match of `/submitted -> ([0-9a-fA-F]{64})/g`.
unfoldable pub parse_submitted_tx_hash : String → Option String
unfolding matches_all utf16_length
parse_submitted_tx_hash String.[] = none
parse_submitted_tx_hash (String.◌∷◌ c t) = elim (parse_submitted_tx_hash t) [
  | some hash ↦ some hash
  | none ↦ tx_hash_at_start (String.◌∷◌ c t)
]

abbrev pub report_tx : ℕ → HeadOperation → String → Option String → M (Unit {0})
report_tx id operation actor none = return tt
report_tx id operation actor (some tx_hash) = event id "head_c_commit_tx_submitted" (
    ("operation", str (operation_text operation))
    ∷ ("actor", str actor)
    ∷ ("txHash", str tx_hash)
    ∷ [])

-- The events of an operation on head C.
unfoldable pub report_head_c :
    (id : ℕ) → HeadOperation → (actor stdout : String) → Option String → M (Unit {0})
unfolding append_event includes
report_head_c id operation actor stdout submitted_tx_hash =
    event id "head_c_l1_utxos_refreshed_startup" (
      ("operation", str (operation_text operation))
      ∷ ("actor", str actor)
      ∷ ("observed", flag (includes "[l1-utxos] Refreshing from live chain (startup)" stdout))
      ∷ [])
    >> when (includes "commit tx signed" stdout)
        (event id "head_c_commit_tx_signed" (actor_meta operation actor))
    >> event id "head_c_partial_commit_submitted" (actor_meta operation actor)
    >> report_tx id operation actor submitted_tx_hash
    >> event id
        (if includes "Head C is now open." stdout
          then "head_c_open_completed"
          else "head_c_waiting_counterpart")
        (actor_meta operation actor)

unfoldable pub submit_head_operation :
    Services → WorkflowWithSteps → (worker : ℕ) → HeadOperation → M JsonObj
unfolding append_event report_head_c parse_submitted_tx_hash set_workflow_draft_result_locked
submit_head_operation services wf worker operation =
    when (is_head_c_operation operation)
      (event wf.row.id "head_c_commit_script_started" (actor_meta operation wf.row.actor))
    >> (services.run_head_operation operation >>= λ run.
        let result : JsonObj =
          ("operation", str (operation_text operation))
          ∷ ("stdout", str run.stdout)
          ∷ ("stderr", str run.stderr)
          ∷ [] in
        set_workflow_draft_result_locked wf.row.id result worker
        >> event wf.row.id "admin_head_operation_submitted" (operation_meta operation)
        >> when (is_head_c_operation operation) (
            report_head_c wf.row.id operation wf.row.actor run.stdout
              (parse_submitted_tx_hash run.stdout))
        >> return result)

unfoldable pub execute_admin_head_operation_workflow :
    Services → (lock_ms : ℕ) → WorkflowWithSteps → (worker : ℕ) → M (Unit {0})
unfolding parse_json parse_head_operation unless_succeeded submit_head_operation append_event
    sync_head_snapshots_heartbeat mark_workflow_succeeded_locked get parse_draft_result
execute_admin_head_operation_workflow services lock_ms wf worker = parse_payload wf >>= λ payload.
    parse_head_operation (get "operation" payload) >>= λ operation.
    unless_succeeded lock_ms wf prepare worker tt
      (event wf.row.id "admin_head_operation_validated" (operation_meta operation))
    >> (unless_succeeded lock_ms wf submit worker (draft_of wf)
          (submit_head_operation services wf worker operation)
        >>= λ result.
            unless_succeeded lock_ms wf confirm worker tt (
              services.probe_heads >>= λ probe.
              modify (sync_head_snapshots_heartbeat probe)
              >> event wf.row.id "admin_head_operation_confirmed" (operation_meta operation))
            >> mark_workflow_succeeded_locked wf.row.id result worker)
